-- ===== src/Datachannels/Transport/Handover.antt =====
-- The steps that callers of datachannels/transport.go can come to.
use mrtp.Prelude.{
  ℕ, ◌≡◌, ◌≢◌, ◌<◌, refl, subst, true, false, none, some, Option-cases, inl, inr, arith,
}
use mrtp.Datachannels.Transport.{
  Channels, register, Caller, waiting, received, incoming, sending, delivered, Transport,
  on_incoming_data_channel, hand_over, Step, adds, comes, meets, Steps, here, later,
}

-- No two ids share a channel.
pub record IsMap (c : Channels) : Type 0 where
  pub below : (id ch : ℕ) → c.entry id ≡ some ch → ch < c.made
  pub apart : (id id' ch : ℕ) → c.entry id ≡ some ch → c.entry id' ≡ some ch → id ≡ id'

record Registered (id : ℕ) (c : Channels) : Type 0 where
  is_map : IsMap (register id c).0
  stored : (register id c).0.entry id ≡ some (register id c).1
  kept : (k ch : ℕ) → c.entry k ≡ some ch → (register id c).0.entry k ≡ some ch

register-Registered : (id : ℕ) (c : Channels) → IsMap c → Registered id c
unfolding register
register-Registered id c m = elim (Option-cases (c.entry id)) [
  | inl e ↦ record {
    is_map = record {
      below = λ k ch h. ground (arith, e, m.below k ch);
      apart = λ k l ch h h'. ground (arith, e, m.apart k l ch, m.below k ch, m.below l ch);
    };
    stored = ground (arith, e);
    kept = λ k ch h. ground (arith, e);
  }
  | inr (ch, e) ↦ record {
    is_map = simp (register, e) m;
    stored = simp (register, e);
    kept = λ k x h. simp (register, e) h;
  }
]

module _ {DataChannel : Type 0} (id_of : DataChannel → ℕ) where
  abbrev pub IsFresh : Caller id_of → Type 0
  IsFresh (waiting id ch) = ⊥
  IsFresh (received id dc) = ⊥
  IsFresh (sending dc ch) = ⊥
  IsFresh (delivered dc) = ⊥
  IsFresh _ = Unit {0}

  -- Before any call has taken the lock.
  pub record IsStart (t : Transport id_of) : Type 0 where
    pub unlocked : t.locked ≡ false
    pub empty : (id : ℕ) → t.dc_channels.entry id ≡ none
    pub fresh : (i : ℕ) → IsFresh (t.callers i)

  pub record Inv (t : Transport id_of) : Type 0 where
    pub is_map : IsMap t.dc_channels
    pub waits : (i id ch : ℕ) → t.callers i ≡ waiting id ch → t.dc_channels.entry id ≡ some ch
    pub sends :
        (i ch : ℕ) (dc : DataChannel)
        → t.callers i ≡ sending dc ch
        → t.dc_channels.entry (id_of dc) ≡ some ch
    pub locks : (i ch : ℕ) (dc : DataChannel) → t.callers i ≡ sending dc ch → t.locked ≡ true
    pub single :
        (i j ch ch' : ℕ) (dc dc' : DataChannel)
        → t.callers i ≡ sending dc ch
        → t.callers j ≡ sending dc' ch'
        → i ≡ j
    pub own : (i id : ℕ) (dc : DataChannel) → t.callers i ≡ received id dc → id_of dc ≡ id

  IsStart-Inv : (t : Transport id_of) → IsStart t → Inv t
  IsStart-Inv t s = record {
    is_map = record {
      below = λ k ch h. cc (simp (s.empty k) at h);
      apart = λ k l ch h h'. cc (simp (s.empty k) at h);
    };
    waits = λ i id ch e. absurd (subst IsFresh e (s.fresh i));
    sends = λ i ch dc e. absurd (subst IsFresh e (s.fresh i));
    locks = λ i ch dc e. absurd (subst IsFresh e (s.fresh i));
    single = λ i j ch ch' dc dc' e e'. absurd (subst IsFresh e (s.fresh i));
    own = λ i id dc e. absurd (subst IsFresh e (s.fresh i));
  }

  Step-Inv : (t u : Transport id_of) → Step id_of t u → Inv t → Inv u
  Step-Inv t u (adds i id e free) v =
      let r = register-Registered id t.dc_channels v.is_map in
      record {
        is_map = r.is_map;
        waits = λ k n c h. ground (arith, r.stored, r.kept n c, v.waits k n c);
        sends = λ k c d h. ground (arith, r.kept (id_of d) c, v.sends k c d);
        locks = λ k c d h. ground (arith, v.locks k c d);
        single = λ k l c c' d d' h h'. ground (arith, v.single k l c c' d d');
        own = λ k n d h. ground (arith, v.own k n d);
      }
  Step-Inv t u (comes i dc e free) v =
      let r = register-Registered (id_of dc) t.dc_channels v.is_map in
      record {
        is_map = r.is_map;
        waits = λ k n c h. ground (arith, r.kept n c, v.waits k n c);
        sends = λ k c d h. ground (arith, r.stored, r.kept (id_of d) c, v.sends k c d);
        locks = λ k c d h. refl;
        single = λ k l c c' d d' h h'. ground (arith, v.locks k c d, v.locks l c' d');
        own = λ k n d h. ground (arith, v.own k n d);
      }
  Step-Inv t u (meets i j id ch dc e w) v = record {
    is_map = v.is_map;
    waits = λ k n c h. ground (arith, v.waits k n c);
    sends = λ k c d h. ground (arith, v.sends k c d);
    locks = λ k c d h. ground (arith, v.single i k ch c dc d e);
    single =
        λ k l c c' d d' h h'. ground (arith, v.single i k ch c dc d e, v.single i l ch c' dc d' e);
    own = λ k n d h. ground (
      arith,
      v.own k n d,
      v.is_map.apart (id_of dc) id ch (v.sends i ch dc e) (v.waits j id ch w),
    );
  }

  Steps-Inv : (t u : Transport id_of) → Steps id_of t u → Inv t → Inv u
  Steps-Inv t u here v = v
  Steps-Inv t u (later {u = w} steps step) v = Step-Inv w u step (Steps-Inv t w steps v)

  -- In every state that is reached from a start, where no call has taken the lock and the map is empty,
  -- a call of `AddDataChannelReceiver` that has returned has a data channel with the id that it asked
  -- for, and at most one call of `onIncomingDataChannel` is at its send, and that one holds the lock.
  pub Steps-own :
      (t u : Transport id_of)
      → IsStart t
      → Steps id_of t u
      → ((i id : ℕ) (dc : DataChannel) → u.callers i ≡ received id dc → id_of dc ≡ id)
        × ((i j ch ch' : ℕ) (dc dc' : DataChannel)
            → u.callers i ≡ sending dc ch
            → u.callers j ≡ sending dc' ch'
            → i ≡ j)
        × ((i ch : ℕ) (dc : DataChannel) → u.callers i ≡ sending dc ch → u.locked ≡ true)
  Steps-own t u s steps =
      let v = Steps-Inv t u steps (IsStart-Inv t s) in (v.own, v.single, v.locks)

  module _ (s t : Transport id_of) (start : IsStart s) (steps : Steps id_of s t) (i : ℕ)
      (dc : DataChannel) (e : t.callers i ≡ incoming dc) (free : t.locked ≡ false) where
    reached : Inv t
    reached = Steps-Inv s t steps (IsStart-Inv s start)

    -- Where a state is reached from a start, the lock is free, and a data channel comes in whose id a
    -- caller already waits for: in two steps the caller has that data channel, `onIncomingDataChannel`
    -- has returned, the lock is free again, and the other callers are where they were.
    pub on_incoming_data_channel-hand_over :
        (j ch : ℕ)
        → t.callers j ≡ waiting (id_of dc) ch
        → (u : Transport id_of) × Steps id_of t u
          × (u.callers i ≡ delivered dc)
          × (u.callers j ≡ received (id_of dc) dc)
          × (u.locked ≡ false)
          × ((k : ℕ) → k ≢ i → k ≢ j → u.callers k ≡ t.callers k)
    on_incoming_data_channel-hand_over j ch w =
        let u = on_incoming_data_channel id_of t i dc in
        let r = register-Registered (id_of dc) t.dc_channels reached.is_map in
        let stored = r.stored in
        let kept = r.kept (id_of dc) ch (reached.waits j (id_of dc) ch w) in
        let at : u.callers i ≡ sending dc ch = ground (arith, stored, kept) in
        (
          hand_over id_of u i j (id_of dc) dc,
          later (later here (comes i dc e free)) (meets i j (id_of dc) ch dc at (ground arith)),
          ground arith,
          ground arith,
          refl,
          λ k a b. ground arith,
        )

    -- Where a state is reached from a start, the lock is free, and a data channel comes in whose id
    -- nobody waits for yet: `onIncomingDataChannel` goes to its send with the lock held, and no step of
    -- any caller is possible from there.
    pub on_incoming_data_channel-blocks :
        ((j ch : ℕ) → t.callers j ≢ waiting (id_of dc) ch)
        → let u = on_incoming_data_channel id_of t i dc in
          Steps id_of t u
          × ((ch : ℕ) × (u.callers i ≡ sending dc ch))
          × ((v : Transport id_of) → ¬ Step id_of u v)
    on_incoming_data_channel-blocks nobody =
        let u = on_incoming_data_channel id_of t i dc in
        let ch = (register (id_of dc) t.dc_channels).1 in
        let at : u.callers i ≡ sending dc ch = ground (arith) in
        let go : Step id_of t u = comes i dc e free in
        (
          later here go,
          (ch, at),
          stuck u ch (Step-Inv t u go reached) refl at (λ j c h. ground (arith, nobody j c)),
        )
      where
        stuck :
            (u : Transport id_of) (ch : ℕ)
            → Inv u
            → u.locked ≡ true
            → u.callers i ≡ sending dc ch
            → ((j c : ℕ) → u.callers j ≢ waiting (id_of dc) c)
            → (v : Transport id_of) → ¬ Step id_of u v
        stuck u ch inv locked at nobody_waits v (adds k id x y) = cc
        stuck u ch inv locked at nobody_waits v (comes k d x y) = cc
        stuck u ch inv locked at nobody_waits v (meets k l id c d x y) =
            let same = inv.is_map.apart (id_of dc) id c in
            ground (
              arith,
              inv.single i k ch c dc d at x,
              nobody_waits l c,
              same,
              inv.sends k c d x,
              inv.waits l id c y,
            )
