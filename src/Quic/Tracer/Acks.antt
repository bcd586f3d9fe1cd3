-- ===== src/Quic/Tracer/Acks.antt =====
-- The events of internal/quictransport/tracer.go, and the invariant of the feedback state.
use mrtp.Prelude.{ℕ, ◌+◌, ◌≤◌, ◌<◌, ◌≡◌, List, [], ◌∷◌, All, length, arith}
use mrtp.Prelude.Int.{ℤ}
use mrtp.Quic.Feedback.{BweCall, Transport}
use mrtp.Quic.Feedback.Sorted.{max_seq}
use mrtp.Quic.Feedback.Invariant.{
  Inv, packet_sent-Inv, packet_acked-Inv, packet_lost-Inv, update_ecn_counts_of-Inv,
  update_congestion_control-Inv,
}
use mrtp.Quic.Tracer.{
  TimestampRange, Frame, ack_frame, other_frame, QlogEvent, received, sent, lost, other_event, Loop,
  seq_at, ack_deltas, ack_ranges, handle_ack, handle_frames, handle_event, record_event,
}

-- The range stays within the numbers from 0 to the largest.
abbrev pub RangeFits : ℕ → TimestampRange → Type 0
RangeFits largest r = r.delta_largest_acknowledged + length r.timestamp_delta ≤ largest + 1

abbrev pub FrameFits : Frame → Type 0
FrameFits (ack_frame f) =
    (f.largest_acked < max_seq) × All (RangeFits f.largest_acked) f.receive_timestamps
FrameFits other_frame = Unit {0}

abbrev pub EventFits : QlogEvent → Type 0
EventFits (received frames) = All FrameFits frames
EventFits (sent seq size) = seq < max_seq
EventFits (lost seq) = seq < max_seq
EventFits other_event = Unit {0}

pub seq_at_lem :
    (largest delta_largest j : ℕ)
    → largest < max_seq
    → delta_largest + j ≤ largest
    → seq_at largest delta_largest j + delta_largest + j ≡ largest
seq_at_lem largest delta_largest j h k = omega arith

module _ (base : ℤ) (largest : ℕ) (small : largest < max_seq) where
  pub ack_deltas-Inv :
      (delta_largest j : ℕ) (deltas : List ℕ) (s : Loop)
      → delta_largest + j + length deltas ≤ largest + 1
      → Inv s.transport
      → Inv (ack_deltas base largest delta_largest j deltas s).transport
  unfolding ack_deltas
  ack_deltas-Inv delta_largest j [] s fits v = v
  ack_deltas-Inv delta_largest j (delta ∷ deltas) s fits v =
      ack_deltas-Inv delta_largest (j + 1) deltas _ (omega arith) (
        packet_acked-Inv s.transport v (seq_at largest delta_largest j)
          (omega (arith, seq_at_lem largest delta_largest j small (omega arith))) _)

  pub ack_ranges-Inv :
      (rs : List TimestampRange) (s : Loop)
      → All (RangeFits largest) rs
      → Inv s.transport
      → Inv (ack_ranges base largest rs s).transport
  unfolding ack_ranges
  ack_ranges-Inv [] s fits v = v
  ack_ranges-Inv (r ∷ rs) s fits v =
      ack_ranges-Inv rs _ fits.1 (
        ack_deltas-Inv r.delta_largest_acknowledged 0 r.timestamp_delta s (omega (arith, fits.0)) v)

module _ (base : ℤ) where
  handle_frames-Inv :
      (fs : List Frame) (t : Transport) → All FrameFits fs → Inv t → Inv (handle_frames base fs t)
  unfolding handle_frames handle_ack
  handle_frames-Inv [] t fits v = v
  handle_frames-Inv (ack_frame f ∷ fs) t fits v = handle_frames-Inv fs _ fits.1 (
      update_ecn_counts_of-Inv _
        (ack_ranges-Inv base f.largest_acked fits.0.0 f.receive_timestamps _ fits.0.1 v) f.ect0
        f.ect1 f.ecnce)
  handle_frames-Inv (other_frame ∷ fs) t fits v = handle_frames-Inv fs t fits.1 v

  pub handle_event-Inv :
      (ts : ℤ) (e : QlogEvent) (t : Transport)
      → EventFits e
      → Inv t
      → Inv (handle_event base ts e t)
  unfolding handle_event
  handle_event-Inv ts (received frames) t fits v = handle_frames-Inv frames t fits v
  handle_event-Inv ts (sent seq size) t fits v = packet_sent-Inv t v seq fits ts size
  handle_event-Inv ts (lost seq) t fits v = packet_lost-Inv t v seq fits
  handle_event-Inv ts other_event t fits v = v

  -- The invariant of the transport (packets in flight and feedback in strictly ascending order, the
  -- window at most one past the highest acknowledged number, what was reported strictly ascending and
  -- below the window) holds after `record` if it held before, for every event with its packet numbers
  -- below 2 ^ 62 and its time stamp ranges within the acknowledged numbers.
  pub record_event-Inv :
      (target_rate : List BweCall → ℤ) (pace : ℕ → ℕ) (ts rtt now : ℤ) (e : QlogEvent)
      (t : Transport)
      → EventFits e
      → Inv t
      → Inv (record_event target_rate pace base ts rtt now e t)
  unfolding record_event
  record_event-Inv target_rate pace ts rtt now e t fits v =
      update_congestion_control-Inv _ (handle_event-Inv ts e t fits v) target_rate pace rtt now
