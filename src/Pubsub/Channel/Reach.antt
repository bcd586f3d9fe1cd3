-- ===== src/Pubsub/Channel/Reach.antt =====
-- Every order of calls by publishers, subscribers and the goroutines of internal/pubsub.
use mrtp.Prelude.{
  ℕ, ◌≤◌, ◌≡◌, refl, subst, ◌∙◌, List, [], ◌∷◌, true, false, Option, none, some, ◌==◌, ltb,
  Option-cases, Bool-cases, inl, inr, if◌then◌else◌, arith,
}
use mrtp.Pubsub.Channel.{
  Queue, Subscriber, Stream, Channel, new_channel, find_stream, fan_out_to, announce, publish,
  fan_out, subscribe, unsubscribe, next, close, close_streams,
}
use mrtp.Pubsub.Channel.Delivery.{times, offer, publish-fan_out}
use mrtp.Pubsub.Channel.Subscriptions.{
  Inv, held, times_in, held-fan_out_to, announce-Inv, publish-Inv, fan_out-Inv, subscribe-Inv,
  unsubscribe-Inv, next-Inv,
}

module _ {Message : Type 0} where
  pub data Step : Channel Message → Channel Message → Type 0 where
    announces : {c : Channel Message} (name : ℕ) → Step c (announce Message c name).0
    publishes : {c : Channel Message} (name : ℕ) (m : Message) → Step c (publish Message c name m).0
    fans_out :
        {c : Channel Message} (s : Stream Message)
        → find_stream Message s.name c.streams ≡ some s
        → Step c (fan_out Message c s)
    subscribes :
        {c : Channel Message} (i name queue_size : ℕ)
        → Step c (subscribe Message c i name queue_size).0
    unsubscribes : {c : Channel Message} (name id : ℕ) → Step c (unsubscribe Message c name id).0
    receives : {c : Channel Message} (i name : ℕ) → Step c (next Message c i name).0
    closes : {c d : Channel Message} → close Message c ≡ some d → Step c d

  pub data Reach : Channel Message → Type 0 where
    start : Reach (new_channel Message)
    later : {c d : Channel Message} → Reach c → Step c d → Reach d

  -- What `Close` of the streams keeps.
  record Kept (ss ts : List (Stream Message)) (subs subs' : ℕ → Subscriber Message) : Type 0 where
    counts :
        (other i : ℕ)
        → times_in i (find_stream Message other ts) ≡ times_in i (find_stream Message other ss)
    queues : (other i : ℕ) → held (subs' i other) ≡ held (subs i other)

  abbrev emptied : Stream Message → (ℕ → Subscriber Message) → ℕ → Subscriber Message
  emptied s subs = elim s.in_hand [
    | none ↦ subs
    | some m ↦ fan_out_to Message s.subscribers s.name m subs
  ]

  held-emptied :
      (s : Stream Message) (subs : ℕ → Subscriber Message) (i other : ℕ)
      → held (emptied s subs i other) ≡ held (subs i other)
  held-emptied s subs i other = elim (Option-cases s.in_hand) [
    | inl e ↦ rw e
    | inr (m, e) ↦ rw e (held-fan_out_to s.subscribers s.name m subs i other)
  ]

  abbrev ended : Stream Message → Stream Message
  ended s = record s { in_hand = none; closed = true }

  close_streams-Kept :
      (ss : List (Stream Message)) (subs : ℕ → Subscriber Message)
      (r : List (Stream Message) × (ℕ → Subscriber Message))
      → close_streams Message ss subs ≡ some r
      → Kept ss r.0 subs r.1
  unfolding close_streams find_stream
  close_streams-Kept [] subs r h =
      let e : ([], subs) ≡ r = cc in
      subst (λ (x : List (Stream Message) × (ℕ → Subscriber Message)). Kept [] x.0 subs x.1) e
        (record { counts = λ other i. refl; queues = λ other i. refl })
  close_streams-Kept (s ∷ ss) subs r h = elim (Bool-cases s.closed) [
    | inl x ↦ absurd (cc (simp (close_streams, x) at h))
    | inr x ↦ elim (Option-cases (close_streams Message ss (emptied s subs))) [
      | inl y ↦ absurd (cc (simp (close_streams, x, y) at h))
      | inr (r', y) ↦
          let k = close_streams-Kept ss (emptied s subs) r' y in
          let e : (ended s ∷ r'.0, r'.1) ≡ r = cc (simp (close_streams, x, y) at h) in
          subst
            (λ (z : List (Stream Message) × (ℕ → Subscriber Message)). Kept (s ∷ ss) z.0 subs z.1) e
            (record {
              counts = λ other i. ground (arith, k.counts other i);
              queues = λ other i. k.queues other i ∙ held-emptied s subs i other;
            })
    ]
  ]

  close-Inv : (c d : Channel Message) → close Message c ≡ some d → Inv c → Inv d
  unfolding close
  close-Inv c d h v = elim (Option-cases (close_streams Message c.streams c.subscribers)) [
    | inl y ↦ absurd (cc (simp (close, y) at h))
    | inr (r, y) ↦
        let k = close_streams-Kept c.streams c.subscribers r y in
        let e : record c { streams = r.0; subscribers = r.1; closed = true } ≡ d =
          cc (simp (close, y) at h) in
        subst Inv e (record {
          once = λ other i. omega (arith, v.once other i, k.counts other i, k.queues other i);
        })
  ]

  Step-Inv : (c d : Channel Message) → Step c d → Inv c → Inv d
  Step-Inv c d (announces name) v = announce-Inv c name v
  Step-Inv c d (publishes name m) v = publish-Inv c name m v
  Step-Inv c d (fans_out s found) v = fan_out-Inv c s found v
  Step-Inv c d (subscribes i name size) v = subscribe-Inv c i name size v
  Step-Inv c d (unsubscribes name id) v = unsubscribe-Inv c name id v
  Step-Inv c d (receives i name) v = next-Inv c i name v
  Step-Inv c d (closes h) v = close-Inv c d h v

  -- In every state of a channel that calls lead to, in any order, by publishers, by subscribers, of
  -- `Close` (as long as it does not panic) and by the goroutines of the topics, a subscriber is in the
  -- map of a topic at most once, and only while it has a queue for that topic.
  pub Reach-Inv : (c : Channel Message) → Reach c → Inv c
  unfolding find_stream
  Reach-Inv c start = record { once = λ name i. omega arith }
  Reach-Inv c (later {c = b} reach step) = Step-Inv b c step (Reach-Inv b reach)

  -- In every state of a channel that calls lead to, where a topic is known and its goroutine runs and
  -- waits, `publish` succeeds, and the round of the goroutine that follows offers the message once, at
  -- the end, to the queue that each subscriber in the map of the topic has for it, which takes it if
  -- it has room. No other queue changes, and every topic is as it was.
  pub Reach-fan_out :
      (c : Channel Message) (name : ℕ) (m : Message) {s : Stream Message}
      → Reach c
      → find_stream Message name c.streams ≡ some s
      → s.in_hand ≡ none
      → s.closed ≡ false
      → let (d, e) = publish Message c name m in
        let after = fan_out Message d (record s { in_hand = some m }) in
        (e ≡ none)
        × ((i other : ℕ)
            → after.subscribers i other ≡ (
                if name == other
                then if ltb 0 (times i s.subscribers)
                  then offer m (c.subscribers i other)
                  else c.subscribers i other
                else c.subscribers i other))
        × ((other : ℕ)
            → find_stream Message other after.streams ≡ find_stream Message other c.streams)
  Reach-fan_out c name m {s} reach found free alive =
      publish-fan_out c name m {s = s} found free alive
        (λ i. one i (c.subscribers i name) ((Reach-Inv c reach).once name i))
    where
      one :
          (i : ℕ) (q : Option (Queue Message))
          → times_in i (find_stream Message name c.streams) ≤ held q
          → times i s.subscribers ≤ 1
      one i none h = ground (arith, found)
      one i (some q) h = ground (arith, found)
