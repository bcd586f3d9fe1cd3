-- ===== src/Gopipe/Spacer/Drain.antt =====
-- `run` of gopipe/frame_spacer.go left to itself.
use mrtp.Prelude.{
  ℕ, ◌*◌, ◌/◌, ◌≤◌, ◌<◌, ◌≡◌, refl, subst, sym, ◌∙◌, List, [], ◌∷◌, ◌++◌, append-nil, true, false,
  All, ltb, length, Bool-cases, inl, inr, arith,
}
use native.Mathlib.Nat.{le-div_iff_mul-le}
use mrtp.Prelude.Int.{ℤ, pos, ltb_ℤ}
use mrtp.Gopipe.Spacer.{
  Packets, Running, idle, pacing, returned, panicked, FrameSpacer, each_with, exact_spacing,
  write_all, take_packets, tick, Step, writes, takes, ticks, leaves_idle, leaves_pacing, Steps,
  here, later, link_spacer,
}
use mrtp.Gopipe.Spacer.Order.{all_of, IsAlive, run_order}

-- A spacing is positive where three tenths of the duration's microseconds are at least 1.1 times the number
-- of packets: what rounding in `float64` takes away is far less than that tenth.
pub record Spaces (space : ℤ → ℕ → ℤ) : Type 0 where
  pub positive :
      (d n : ℕ) → 0 < n → 11 * n ≤ 3 * (d / 1000) → ltb_ℤ (pos 0) (space (pos d) n) ≡ true

pub exact_spacing-Spaces : Spaces exact_spacing
exact_spacing-Spaces = record {
  positive = λ d n some_packets few.
      let at_least_one : 1 ≤ 3 * (d / 1000) / (10 * n) =
        (le-div_iff_mul-le (omega (arith, some_packets))).1 (omega (arith, few)) in
      ground (arith, at_least_one);
}

-- At least one packet, and few enough for the duration `d`.
abbrev pub IsSpaced : ℕ → Packets → Type 0
IsSpaced d p = (0 < length p.payloads) × (11 * length p.payloads ≤ 3 * (d / 1000))

module _ (space : ℤ → ℕ → ℤ) (spaces : Spaces space) (d : ℕ) where
  Steps-append :
      (x y z : FrameSpacer × List Packets) → Steps space x y → Steps space y z → Steps space x z
  Steps-append x y z a here = a
  Steps-append x y z a (later {y = w} b step) = later (Steps-append x y w a b) step

  record Rest (s : FrameSpacer) (ps : List Packets) (chan : List Packets) : Type 0 where
    rest : FrameSpacer
    steps : Steps space (s, ps) (rest, ps)
    is_idle : rest.running ≡ idle
    has_chan : rest.pkt_chan ≡ chan
    same_duration : rest.frame_duration ≡ s.frame_duration

  tick_nil :
      (s : FrameSpacer) (p : Packets)
      → p.payloads ≡ []
      → tick space s p ≡ record s { running = idle }
  unfolding tick
  tick_nil s p e = simp (tick, e)

  tick_cons :
      (s : FrameSpacer) (p : Packets) (b : List ℕ) (bs : List (List ℕ))
      → p.payloads ≡ b ∷ bs
      → tick space s p ≡ record s {
        running = pacing (record p { payloads = bs });
        sent = s.sent ++ (b, p.attributes) ∷ [];
      }
  unfolding tick
  tick_cons s p b bs e = simp (tick, e)

  drain_hand :
      (bs : List (List ℕ)) (s : FrameSpacer) (ps : List Packets) (p : Packets)
      → p.payloads ≡ bs
      → s.running ≡ pacing p
      → Rest s ps s.pkt_chan
  drain_hand [] s ps p e i = record {
    rest = tick space s p;
    steps = later here (ticks p i);
    is_idle = rw (tick_nil s p e) refl;
    has_chan = rw (tick_nil s p e) refl;
    same_duration = rw (tick_nil s p e) refl;
  }
  drain_hand (b ∷ bs) s ps p e i =
      let q = record p { payloads = bs } in
      let t = record s { running = pacing q; sent = s.sent ++ (b, p.attributes) ∷ [] } in
      let r = drain_hand bs t ps q refl refl in
      record {
        rest = r.rest;
        steps =
            Steps-append (s, ps) (t, ps) (r.rest, ps)
              (subst (λ u. Steps space (s, ps) (u, ps)) (tick_cons s p b bs e)
                (later here (ticks p i)))
              r.steps;
        is_idle = r.is_idle;
        has_chan = r.has_chan;
        same_duration = r.same_duration;
      }

  take_flood :
      (s : FrameSpacer) (p : Packets) (chan : List Packets)
      → ltb 2 (length chan) ≡ true
      → take_packets space s p chan
        ≡ record s { pkt_chan = chan; sent = s.sent ++ each_with p.payloads p.attributes }
  unfolding take_packets
  take_flood s p chan e = simp (e)

  take_spaced :
      (s : FrameSpacer) (p : Packets) (chan : List Packets)
      → ltb 2 (length chan) ≡ false
      → ltb_ℤ (pos 0) (space s.frame_duration (length p.payloads)) ≡ true
      → take_packets space s p chan ≡ record s { pkt_chan = chan; running = pacing p }
  unfolding take_packets
  take_spaced s p chan e e' = simp (e, e')

  take_duration :
      (s : FrameSpacer) (p : Packets) (chan : List Packets)
      → (take_packets space s p chan).frame_duration ≡ s.frame_duration
  unfolding take_packets
  take_duration s p chan = ground (arith)

  drain_taken :
      (s : FrameSpacer) (ps : List Packets) (p : Packets) (chan : List Packets)
      → s.running ≡ idle
      → ltb_ℤ (pos 0) (space s.frame_duration (length p.payloads)) ≡ true
      → Rest (take_packets space s p chan) ps chan
  drain_taken s ps p chan i e = elim (Bool-cases (ltb 2 (length chan))) [
    | inl much ↦
        let t = record s { pkt_chan = chan; sent = s.sent ++ each_with p.payloads p.attributes } in
        subst (λ u. Rest u ps chan) (sym (take_flood s p chan much))
          record { rest = t; steps = here; is_idle = i; has_chan = refl; same_duration = refl }
    | inr few ↦
        subst (λ u. Rest u ps chan) (sym (take_spaced s p chan few e))
          (drain_hand p.payloads (record s { pkt_chan = chan; running = pacing p }) ps p refl refl)
  ]

  drain_chan :
      (chan : List Packets) (s : FrameSpacer) (ps : List Packets)
      → s.frame_duration ≡ pos d
      → All (IsSpaced d) chan
      → s.running ≡ idle
      → s.pkt_chan ≡ chan
      → Rest s ps []
  drain_chan [] s ps same full i c = record {
    rest = s;
    steps = here;
    is_idle = i;
    has_chan = c;
    same_duration = refl;
  }
  drain_chan (p ∷ chan) s ps same ((some_packets, few), fulls) i c =
      let t = take_packets space s p chan in
      let positive = spaces.positive d (length p.payloads) some_packets few in
      let r = drain_taken s ps p chan i (rw same positive) in
      let e : r.rest.frame_duration ≡ s.frame_duration = r.same_duration ∙ take_duration s p chan in
      let q = drain_chan chan r.rest ps (e ∙ same) fulls r.is_idle r.has_chan in
      record {
        rest = q.rest;
        steps =
            Steps-append (s, ps) (r.rest, ps) (q.rest, ps)
              (Steps-append (s, ps) (t, ps) (r.rest, ps) (later here (takes p chan i c)) r.steps)
              q.steps;
        is_idle = q.is_idle;
        has_chan = q.has_chan;
        same_duration = q.same_duration ∙ e;
      }

  -- from where `run` is, with what it has in hand
  drain_alive :
      (r : Running) (s : FrameSpacer) (ps : List Packets)
      → s.frame_duration ≡ pos d
      → All (IsSpaced d) s.pkt_chan
      → s.running ≡ r
      → IsAlive r
      → Rest s ps []
  drain_alive idle s ps same full i alive = drain_chan s.pkt_chan s ps same full i refl
  drain_alive (pacing p) s ps same full i alive =
      let r = drain_hand p.payloads s ps p refl i in
      let q = drain_chan s.pkt_chan r.rest ps (r.same_duration ∙ same) full r.is_idle r.has_chan in
      record {
        rest = q.rest;
        steps = Steps-append (s, ps) (r.rest, ps) (q.rest, ps) r.steps q.steps;
        is_idle = q.is_idle;
        has_chan = q.has_chan;
        same_duration = q.same_duration ∙ r.same_duration;
      }
  drain_alive returned s ps same full i alive = absurd alive
  drain_alive panicked s ps same full i alive = absurd alive

  Step-duration :
      (x y : FrameSpacer × List Packets) → Step space x y → y.0.frame_duration ≡ x.0.frame_duration
  unfolding write_all tick
  Step-duration x y (writes p h) = refl
  Step-duration x y (takes {s = s} p rest h e) = take_duration s p rest
  Step-duration x y (ticks p e) = ground (arith)
  Step-duration x y (leaves_idle h) = refl
  Step-duration x y (leaves_pacing p h) = refl

  Steps-duration :
      (x y : FrameSpacer × List Packets) → Steps space x y → y.0.frame_duration ≡ x.0.frame_duration
  Steps-duration x y here = refl
  Steps-duration x y (later {y = z} steps step) = Step-duration z y step ∙ Steps-duration x z steps

  -- For a spacing that is positive where three tenths of the frame duration's microseconds are at least 1.1
  -- times the number of packets: from every state that is reached with `run` alive, and where each frame
  -- in the channel has a packet and no more packets than that, steps of `run` alone lead to a state where
  -- it is idle and where what it has sent is all packets of the frames that were written, in order.
  pub run_drains :
      (s : FrameSpacer) (ps : List Packets)
      → Steps space (link_spacer (pos d), []) (s, ps)
      → IsAlive s.running
      → All (IsSpaced d) s.pkt_chan
      → (t : FrameSpacer) × (Steps space (s, ps) (t, ps)
          × ((t.running ≡ idle) × (t.sent ≡ all_of ps)))
  run_drains s ps steps alive full =
      let same = Steps-duration (link_spacer (pos d), []) (s, ps) steps in
      let r = drain_alive s.running s ps same full refl alive in
      let all =
        run_order space (pos d) r.rest ps
          (Steps-append (link_spacer (pos d), []) (s, ps) (r.rest, ps) steps r.steps)
          (rw r.is_idle tt) in
      (r.rest, (r.steps, (r.is_idle, simp (all, r.is_idle, r.has_chan, append-nil))))
