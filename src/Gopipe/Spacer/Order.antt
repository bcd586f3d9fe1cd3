-- ===== src/Gopipe/Spacer/Order.antt =====
-- What `run` of gopipe/frame_spacer.go has written, against what it was given.
use mrtp.Prelude.{
  List-cases, ℕ, ◌≡◌, refl, sym, List, [], ◌∷◌, ◌++◌, append_assoc, append-nil, ltb, length,
  Bool-cases, inl, inr,
}
use mrtp.Prelude.Int.{ℤ, pos, ltb_ℤ}
use mrtp.Gopipe.Spacer.{
  Packets, Sent, Running, idle, pacing, returned, panicked, FrameSpacer, each_with, write_all,
  take_packets, tick, Step, writes, takes, ticks, leaves_idle, leaves_pacing, Steps, here, later,
  link_spacer,
}

abbrev pub all_of : List Packets → List Sent
all_of [] = []
all_of (p ∷ ps) = each_with p.payloads p.attributes ++ all_of ps

-- What `run` has received and not yet written.
abbrev pub in_hand : Running → List Sent
in_hand idle = []
in_hand (pacing p) = each_with p.payloads p.attributes
in_hand returned = []
in_hand panicked = []

abbrev pub IsAlive : Running → Type 0
IsAlive idle = Unit {0}
IsAlive (pacing p) = Unit {0}
IsAlive returned = ⊥
IsAlive panicked = ⊥

pub all_of-append : (ps qs : List Packets) → all_of (ps ++ qs) ≡ all_of ps ++ all_of qs
all_of-append [] qs = refl
all_of-append (p ∷ ps) qs =
    rw (all_of-append ps qs)
      (sym (append_assoc (each_with p.payloads p.attributes) (all_of ps) (all_of qs)))

module _ (space : ℤ → ℕ → ℤ) where
  abbrev pub Accounted : FrameSpacer × List Packets → Type 0
  Accounted x = all_of x.1 ≡ x.0.sent ++ in_hand x.0.running ++ all_of x.0.pkt_chan

  Step-IsAlive :
      (x y : FrameSpacer × List Packets)
      → Step space x y
      → IsAlive y.0.running
      → IsAlive x.0.running
  unfolding write_all
  Step-IsAlive x y (writes p room) alive = alive
  Step-IsAlive x y (takes p rest i c) alive = rw i tt
  Step-IsAlive x y (ticks p i) alive = rw i tt
  Step-IsAlive x y (leaves_idle i) alive = absurd alive
  Step-IsAlive x y (leaves_pacing p i) alive = absurd alive

  Accounted-writes :
      (s : FrameSpacer) (ps : List Packets) (p : Packets)
      → Accounted (s, ps)
      → Accounted (write_all space s p, ps ++ p ∷ [])
  unfolding write_all
  Accounted-writes s ps p h = simp (all_of-append, h, append_assoc, append-nil)

  Accounted-takes :
      (s : FrameSpacer) (ps : List Packets) (p : Packets) (rest : List Packets)
      → s.running ≡ idle
      → s.pkt_chan ≡ p ∷ rest
      → Accounted (s, ps)
      → IsAlive (take_packets space s p rest).running
      → Accounted (take_packets space s p rest, ps)
  unfolding take_packets
  Accounted-takes s ps p rest i c h alive = elim (Bool-cases (ltb 2 (length rest))) [
    | inl e ↦ simp (e, h, i, c, append_assoc, append-nil)
    | inr e ↦ elim (Bool-cases (ltb_ℤ (pos 0) (space s.frame_duration (length p.payloads)))) [
      | inl e' ↦ simp (e, e', h, i, c, append_assoc, append-nil)
      | inr e' ↦ absurd (simp (e, e') at alive)
    ]
  ]

  Accounted-ticks :
      (s : FrameSpacer) (ps : List Packets) (p : Packets)
      → s.running ≡ pacing p
      → Accounted (s, ps)
      → Accounted (tick space s p, ps)
  unfolding tick
  Accounted-ticks s ps p i h = elim (List-cases p.payloads) [
    | inl e ↦ simp (tick, e, h, i, append-nil)
    | inr (b, (bs, e)) ↦ simp (tick, e, h, i, append_assoc)
  ]

  Step-Accounted :
      (x y : FrameSpacer × List Packets)
      → Step space x y
      → Accounted x
      → IsAlive y.0.running
      → Accounted y
  Step-Accounted x y (writes {s = s} {ps = ps} p room) h alive = Accounted-writes s ps p h
  Step-Accounted x y (takes {s = s} {ps = ps} p rest i c) h alive =
      Accounted-takes s ps p rest i c h alive
  Step-Accounted x y (ticks {s = s} {ps = ps} p i) h alive = Accounted-ticks s ps p i h
  Step-Accounted x y (leaves_idle i) h alive = absurd alive
  Step-Accounted x y (leaves_pacing p i) h alive = absurd alive

  pub Steps-Accounted :
      (x y : FrameSpacer × List Packets)
      → Steps space x y
      → Accounted x
      → IsAlive y.0.running
      → Accounted y
  Steps-Accounted x y here h alive = h
  Steps-Accounted x y (later {y = w} steps step) h alive =
      Step-Accounted w y step (Steps-Accounted x w steps h (Step-IsAlive w y step alive)) alive

  -- Whatever the order of the callers' writes and of the steps of `run`: as long as `run` has neither
  -- returned nor panicked, the packets of the frames that were written are, in their order and each
  -- once, those it has sent on, those it has in hand, and those that wait in the channel.
  pub run_order :
      (frame_duration : ℤ) (s : FrameSpacer) (ps : List Packets)
      → Steps space (link_spacer frame_duration, []) (s, ps)
      → IsAlive s.running
      → all_of ps ≡ s.sent ++ in_hand s.running ++ all_of s.pkt_chan
  run_order frame_duration s ps steps alive =
      Steps-Accounted (link_spacer frame_duration, []) (s, ps) steps refl alive
