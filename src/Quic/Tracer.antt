-- ===== src/Quic/Tracer.antt =====
-- internal/quictransport/tracer.go: the events of the QUIC stack that drive the feedback state.
pub mod Acks
pub mod Extends
pub mod Runs
use mrtp.Prelude.{ℕ, suc, ◌+◌, ◌*◌, ◌%◌, ◌^◌, List, [], ◌∷◌, Bool, if◌then◌else◌}
use mrtp.Prelude.Int.{ℤ, ◌+ℤ◌, ◌-ℤ◌, sub64, to_int64}
use mrtp.Slices.{is_zero}
use mrtp.Quic.Feedback.{
  BweCall, Transport, packet_sent, packet_lost, packet_acked, update_ecn_counts_of,
  update_congestion_control,
}

-- One entry of `AckFrame.ReceiveTimestamps`.
pub record TimestampRange : Type 0 where
  pub delta_largest_acknowledged : ℕ
  pub timestamp_delta : List ℕ

pub record AckFrame : Type 0 where
  pub largest_acked : ℕ
  pub receive_timestamps : List TimestampRange
  pub ect0 : ℕ
  pub ect1 : ℕ
  pub ecnce : ℕ

pub data Frame : Type 0 where
  ack_frame : AckFrame → Frame
  other_frame : Frame

-- The events that `record` looks at.
pub data QlogEvent : Type 0 where
  received : List Frame → QlogEvent
  sent : ℕ → ℕ → QlogEvent
  lost : ℕ → QlogEvent
  other_event : QlogEvent

-- The tracer's loop variables: `previous`, and the transport that it updates.
pub record Loop : Type 0 where
  pub previous : ℤ
  pub transport : Transport

-- `uint64(f.LargestAcked()) - tsRange.DeltaLargestAcknowledged - uint64(j)`.
abbrev pub seq_at : ℕ → ℕ → ℕ → ℕ
seq_at largest delta_largest j = sub64 (sub64 largest delta_largest) j

-- `time.Duration(delta) * time.Microsecond`, in nanoseconds.
abbrev pub microseconds : ℕ → ℤ
microseconds delta = to_int64 (delta * 1000 % 2 ^ 64)

abbrev pub arrival_of : ℤ → ℤ → ℕ → ℤ
arrival_of base previous delta =
    if is_zero previous then base +ℤ microseconds delta else previous -ℤ microseconds delta

-- `for j, delta := range tsRange.TimestampDelta`.
unfoldable pub ack_deltas : ℤ → ℕ → ℕ → ℕ → List ℕ → Loop → Loop
ack_deltas base largest delta_largest j [] s = s
ack_deltas base largest delta_largest j (delta ∷ deltas) s =
    let arrival = arrival_of base s.previous delta in
    ack_deltas base largest delta_largest (j + 1) deltas (record {
      previous = arrival;
      transport = packet_acked s.transport (seq_at largest delta_largest j) arrival;
    })

-- `for _, tsRange := range f.ReceiveTimestamps`.
unfoldable pub ack_ranges : ℤ → ℕ → List TimestampRange → Loop → Loop
ack_ranges base largest [] s = s
ack_ranges base largest (r ∷ rs) s =
    ack_ranges base largest rs
      (ack_deltas base largest r.delta_largest_acknowledged 0 r.timestamp_delta s)

unfoldable pub handle_ack : ℤ → AckFrame → Transport → Transport
handle_ack base f t =
    let s =
      ack_ranges base f.largest_acked f.receive_timestamps
        (record { previous = ℤ.pos 0; transport = t }) in
    update_ecn_counts_of s.transport f.ect0 f.ect1 f.ecnce

unfoldable pub handle_frames : ℤ → List Frame → Transport → Transport
handle_frames base [] t = t
handle_frames base (ack_frame f ∷ fs) t = handle_frames base fs (handle_ack base f t)
handle_frames base (other_frame ∷ fs) t = handle_frames base fs t

unfoldable pub handle_event : ℤ → ℤ → QlogEvent → Transport → Transport
handle_event base ts (received frames) t = handle_frames base frames t
handle_event base ts (sent seq size) t = packet_sent t ts seq size
handle_event base ts (lost seq) t = packet_lost t seq
handle_event base ts other_event t = t

-- `record`, with the clock and the round-trip time that it reads on the way.
unfoldable pub record_event :
    (List BweCall → ℤ) → (ℕ → ℕ) → ℤ → ℤ → ℤ → ℤ → QlogEvent → Transport → Transport
record_event target_rate pace base ts rtt now e t =
    update_congestion_control target_rate pace (handle_event base ts e t) rtt now
