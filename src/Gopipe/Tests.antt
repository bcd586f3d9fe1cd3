-- ===== src/Gopipe/Tests.antt =====
-- The pipeline at concrete inputs, over a jitter buffer that is a row of slots from the playout head
-- on, where an empty slot is a packet that has not come.
use mrtp.Prelude.{
  ℕ, ◌+◌, ◌<◌, ◌≡◌, ◌≢◌, refl, inl, inr, List, [], ◌∷◌, ◌++◌, Bool, true, false, Option, none, some,
  length, arith,
}
use mrtp.Prelude.Int.{ℤ, pos}
use mrtp.Logging.Unwrapper.{new_unwrapper}
use mrtp.Gopipe.Codec.{fake}
use mrtp.Gopipe.Depacketizer.{
  Packet, Popped, packet, not_found, JitterBuffer, Payloads, Depacketizer, returned, out_of_fuel,
  process_loop, process_packets, unmarshal,
}
use mrtp.Gopipe.Depacketizer.Loop.{got, skipped, ends, pops, skips}
use mrtp.Gopipe.Depacketizer.Frames.{Piece, Frame}
use mrtp.Gopipe.Depacketizer.Calls.{Drained, process_packets-Drained, process_packets-IsStream}
use mrtp.Gopipe.Depacketizer.Losses.{process_packets_drops_rest}
use mrtp.Gopipe.Depacketizer.Timeouts.{Shrinks, process_loop_total}

abbrev Slots : Type 0
Slots = ℕ × List (Option Packet)

abbrev is_empty : List (Option Packet) → Bool
is_empty [] = true
is_empty (x ∷ xs) = false

abbrev take_slot : ℕ → List (Option Packet) → Slots × Popped
take_slot head [] = ((head, []), not_found)
take_slot head (some p ∷ rest) = ((head + 1, rest), packet p)
take_slot head (none ∷ rest) = ((head, none ∷ rest), not_found)

abbrev drop_slot : List (Option Packet) → List (Option Packet)
drop_slot [] = []
drop_slot (x ∷ xs) = xs

abbrev slots : JitterBuffer
slots = record {
  State = Slots;
  push = λ p s. (s.0, s.1 ++ some p ∷ []);
  underrun = λ s. is_empty s.1;
  pop = λ s. take_slot s.0 s.1;
  playout_head = λ s. s.0;
  set_playout_head = λ h s. (h, drop_slot s.1);
}

size-take_slot :
    (head : ℕ) (xs : List (Option Packet)) {s : Slots} {p : Packet}
    → is_empty xs ≡ false
    → take_slot head xs ≡ (s, packet p)
    → length s.1 < length xs
size-take_slot head [] e h = cc
size-take_slot head (some q ∷ rest) {s} e h = ground arith
size-take_slot head (none ∷ rest) e h = ground arith

size-drop_slot :
    (head : ℕ) (xs : List (Option Packet)) {s : Slots}
    → is_empty xs ≡ false
    → take_slot head xs ≡ (s, not_found)
    → length (drop_slot s.1) < length xs
size-drop_slot head [] e h = cc
size-drop_slot head (some q ∷ rest) e h = ground arith
size-drop_slot head (none ∷ rest) {s} e h = ground arith

slots-Shrinks : Shrinks slots
slots-Shrinks = record {
  size = λ s. length s.1;
  size-pop = λ s {s'} {pkt} e h. size-take_slot s.0 s.1 {s = s'} {p = pkt} e h;
  size-skip = λ s {s'} e h. size-drop_slot s.0 s.1 {s = s'} e h;
}

abbrev no_parsers : Payloads
no_parsers = record {
  Parsers = Unit {0};
  new_parsers = tt;
  unmarshal_vp8 = λ payload p. (p, none);
  unmarshal_vp9 = λ payload p. (p, none);
  unmarshal_h264 = λ payload p. (p, none);
}

abbrev pkt : ℕ → ℕ → Bool → Packet
pkt seq ts marker = record {
  sequence_number = seq;
  timestamp = ts;
  marker = marker;
  payload = seq ∷ [];
}

abbrev piece : Packet → Piece
piece p = record { packet = p; bytes = p.payload }

abbrev waiting : List (Option Packet) → Bool → Depacketizer slots no_parsers
waiting xs fast = record {
  jitter_buffer = (1, xs);
  frame_buffer = [];
  trigger = true;
  missed_packet_time = none;
  fast_skip = fast;
  playout_ts = 7;
  codec = fake;
  max_timeout = pos 100;
  current_timeout = pos 100;
  parsers = tt;
  unwrapper = new_unwrapper;
  frames = [];
}

abbrev clock : ℕ → ℤ
clock k = pos (1000 + k)

abbrev first_frame : Frame
first_frame = record { ts = 8; body = piece (pkt 1 8 false) ∷ []; last = piece (pkt 2 8 true) }

abbrev second_frame : Frame
second_frame = record { ts = 9; body = []; last = piece (pkt 3 9 true) }

abbrev three : List (Option Packet)
three = some (pkt 1 8 false) ∷ some (pkt 2 8 true) ∷ some (pkt 3 9 true) ∷ []

process_packets-IsStream_example :
    (e : Depacketizer slots no_parsers) × (process_packets slots no_parsers 4 clock
        (waiting three false)
      ≡ returned e)
    × (e.frames ≡ record { bytes = 1 ∷ 2 ∷ []; pts = 8 } ∷ record { bytes = 3 ∷ []; pts = 9 } ∷ [])
unfolding unmarshal
process_packets-IsStream_example =
    process_packets-IsStream slots no_parsers clock 4 (waiting three false)
      (first_frame ∷ second_frame ∷ []) {s = (4, [])} {p = tt} (ground arith)
      (pops (pkt 1 8 false) (1 ∷ []) refl refl refl (
        pops (pkt 2 8 true) (2 ∷ []) refl refl refl
          (pops (pkt 3 9 true) (3 ∷ []) refl refl refl ends)))
      refl (omega arith)

process_packets-Drained_example :
    (e : Depacketizer slots no_parsers) × (process_packets slots no_parsers 4 clock
        (waiting (none ∷ some (pkt 2 7 true) ∷ []) true)
      ≡ returned e)
    × Drained slots no_parsers
        (waiting (none ∷ some (pkt 2 7 true) ∷ []) true)
        (skipped ∷ got (pkt 2 7 true) (2 ∷ []) ∷ [])
        (3, [])
        tt
        e
unfolding unmarshal
process_packets-Drained_example =
    process_packets-Drained slots no_parsers clock (waiting (none ∷ some (pkt 2 7 true) ∷ []) true)
      (skips refl refl (pops (pkt 2 7 true) (2 ∷ []) refl refl refl ends)) (inl refl, (inr tt, tt))
      refl 4 (omega arith)

process_packets_drops_rest_example :
    (e : Depacketizer slots no_parsers) × (process_packets slots no_parsers 4 clock
        (waiting (none ∷ some (pkt 2 7 true) ∷ []) true)
      ≡ returned e)
    × (e.frames ≡ [])
unfolding unmarshal
process_packets_drops_rest_example =
    process_packets_drops_rest slots no_parsers clock 4
      (waiting (none ∷ some (pkt 2 7 true) ∷ []) true) refl [] (piece (pkt 2 7 true)) {s = (3, [])}
      {p = tt} (ground arith) (ground arith)
      (skips refl refl (pops (pkt 2 7 true) (2 ∷ []) refl refl refl ends)) refl (omega arith)

abbrev torn : Frame
torn = record { ts = 8; body = []; last = piece (pkt 2 8 true) }

process_loop_total_example :
    process_loop slots no_parsers 4 clock 0 (waiting three false) false ≢ out_of_fuel
unfolding slots-Shrinks
process_loop_total_example =
    process_loop_total slots no_parsers slots-Shrinks clock 4 0 (waiting three false) false
      (omega arith)

abbrev gap : Depacketizer slots no_parsers
gap = waiting (none ∷ some (pkt 2 7 true) ∷ []) false

abbrev gap_seen : Depacketizer slots no_parsers
gap_seen = record gap { trigger = false; missed_packet_time = some (pos 1000) }
