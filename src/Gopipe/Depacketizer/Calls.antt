-- ===== src/Gopipe/Depacketizer/Calls.antt =====
-- Calls of `processPackets` in gopipe/rtp_depacketizer.go: what reaches `onFrame`.
use mathlib.Core.List.{foldl}
use mrtp.Prelude.{
  ℕ, suc, ◌+◌, ◌<◌, ◌-◌, ◌≡◌, refl, ap, subst, ◌∙◌, inr, List, [], ◌∷◌, ◌++◌, map, Bool, true,
  false, none, length, arith,
}
use mrtp.Prelude.Int.{ℤ}
use mrtp.Gopipe.Depacketizer.{
  JitterBuffer, Payloads, Depacketizer, Round, returned, process_round, process_loop,
  process_packets,
}
use mrtp.Gopipe.Depacketizer.Loop.{
  Heard, Assembly, assemble, Feeds, assembly, MaySkip, process_loop-Feeds, round_underrun,
}
use mrtp.Gopipe.Depacketizer.Frames.{
  Piece, heard, Frame, encoded, IsStream, all_pieces, frames-foldl-IsStream,
}

pub MaySkip-heard :
    (J : JitterBuffer) (C : Payloads) (fast : Bool) (cs : List Piece) → MaySkip J C fast (heard cs)
MaySkip-heard J C fast [] = tt
MaySkip-heard J C fast (c ∷ cs) = (inr tt, MaySkip-heard J C fast cs)

module _ (J : JitterBuffer) (C : Payloads) where
  open J use {State, underrun}
  open C use {Parsers}

  -- What a call leaves that ran until the buffer was empty.
  pub record Drained (d : Depacketizer J C) (h : List Heard) (s : State) (p : Parsers)
      (e : Depacketizer J C) : Type 0 where
    pub jitter : e.jitter_buffer ≡ s
    pub parsed : e.parsers ≡ p
    pub codec : e.codec ≡ d.codec
    pub fast : e.fast_skip ≡ false
    pub missed : e.missed_packet_time ≡ none
    pub playout_ts : e.playout_ts ≡ (foldl assemble (assembly J C d false) h).playout_ts
    pub buffer : e.frame_buffer ≡ (foldl assemble (assembly J C d false) h).frame_buffer
    pub frames : e.frames ≡ (foldl assemble (assembly J C d false) h).frames

  last_round :
      (clock : ℕ → ℤ) (n k : ℕ) (e e' : Depacketizer J C) (dropping : Bool)
      → process_round J C (clock k) e dropping ≡ Round.return e'
      → process_loop J C (suc n) clock k e dropping ≡ returned e'
  unfolding process_loop
  last_round clock n k e e' dropping stop = rw (process_loop, stop)

  module _ (clock : ℕ → ℤ) (d : Depacketizer J C) {h : List Heard} {s : State} {p : Parsers}
      (feeds : Feeds J C d.codec d.jitter_buffer d.parsers h s p) (may : MaySkip J C d.fast_skip h)
      (empty : underrun s ≡ true) where
    Drained-exact_fuel :
        (n : ℕ)
        → (e : Depacketizer J C) × (process_packets J C (length h + suc n) clock d ≡ returned e)
          × Drained d h s p e
    unfolding process_packets
    Drained-exact_fuel n =
        let (e, dropping, runs, r) =
          process_loop-Feeds J C clock d.codec feeds (suc n) 0 (record d { trigger = false }) false
            refl refl refl may in
        let e' = record e { fast_skip = false; missed_packet_time = none } in
        let stop = round_underrun J C (clock (0 + length h)) e dropping (rw r.jitter empty) in
        (
          e',
          runs ∙ last_round clock n (0 + length h) e e' dropping stop,
          record {
            jitter = r.jitter;
            parsed = r.parsed;
            codec = r.codec;
            fast = refl;
            missed = refl;
            playout_ts = ap (λ (x : Assembly). x.playout_ts) r.assembled;
            buffer = ap (λ (x : Assembly). x.frame_buffer) r.assembled;
            frames = ap (λ (x : Assembly). x.frames) r.assembled;
          },
        )

    -- Where the jitter buffer deals out a sequence of packets, whose payloads parse, and of missing
    -- ones, and is empty then, and none is missing or the depacketizer is in fast-skip mode, a call
    -- with more rounds than that sequence has entries returns. It leaves the frames, the data and the
    -- time stamp that the reference assembler makes of the sequence, neither a timer nor fast-skip mode.
    pub process_packets-Drained :
        (fuel : ℕ)
        → length h < fuel
        → (e : Depacketizer J C) × (process_packets J C fuel clock d ≡ returned e)
          × Drained d h s p e
    process_packets-Drained fuel enough =
        let split : length h + suc (fuel - length h - 1) ≡ fuel = omega arith in
        subst
          (λ f.
            (e : Depacketizer J C) × (process_packets J C f clock d ≡ returned e)
            × Drained d h s p e)
          split (Drained-exact_fuel (fuel - length h - 1))

-- Where the jitter buffer deals out the packets of a stream of frames with none missing and is empty
-- then, each frame with one time stamp that differs from the one before, with the marker on its last
-- packet only, and the payloads of them all parse, a call with more rounds than packets returns and
-- hands on exactly the frames of the stream, in order, each with the bytes of all its packets and its
-- time stamp.
pub process_packets-IsStream :
    (J : JitterBuffer) (C : Payloads) (clock : ℕ → ℤ) (fuel : ℕ) (d : Depacketizer J C)
    (fs : List Frame) {s : J.State} {p : C.Parsers}
    → IsStream d.playout_ts fs
    → Feeds J C d.codec d.jitter_buffer d.parsers (heard (all_pieces fs)) s p
    → J.underrun s ≡ true
    → length (heard (all_pieces fs)) < fuel
    → (e : Depacketizer J C) × (process_packets J C fuel clock d ≡ returned e)
      × (e.frames ≡ d.frames ++ map encoded fs)
process_packets-IsStream J C clock fuel d fs stream feeds empty enough =
    let (e, runs, r) =
      process_packets-Drained J C clock d feeds (MaySkip-heard J C d.fast_skip (all_pieces fs))
        empty fuel enough in
    (e, runs, r.frames ∙ frames-foldl-IsStream (assembly J C d false) fs stream)
