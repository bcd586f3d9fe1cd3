-- ===== src/Quic/Tests.antt =====
-- Runs of internal/quictransport at concrete inputs, and its theorems there.
use mathlib.Core.List.{Mem}
use mrtp.Prelude.{
  contains, ℕ, ◌*◌, ◌≡◌, refl, List, [], ◌∷◌, ◌++◌, map, Bool, true, false, none, some, length,
  if◌then◌else◌, ◌==◌, arith,
}
use mrtp.Prelude.Int.{ℤ, pos}
use mrtp.Quic.Feedback.{
  PacketFeedback, BweCall, on_ack, on_loss, Transport, find_seq, packet_acked, packet_lost,
  report_feedback, acked, sent_entry,
}
use mrtp.Quic.Feedback.Sorted.{rank, find?, is_some, find_seq_lem}
use mrtp.Quic.Feedback.Report.{reported, Climbs}
use mrtp.Quic.Feedback.Invariant.{Inv}
use mrtp.Quic.Feedback.Outcome.{packet_acked_reported, packet_lost_reported}
use mrtp.Quic.Tracer.{AckFrame, Frame, QlogEvent, record_event}
use mrtp.Quic.Tracer.Acks.{record_event-Inv}
use mrtp.Quic.Tracer.Runs.{start, Tick, run, reported-run-Climbs, contains-run_below}
use mrtp.Quic.PacketEvents.{Acknowledgment, QuicVarint, ok, marshal, unmarshal_feedback}
use mrtp.Quic.PacketEvents.Laws.{Codec, CountsBytes}
use mrtp.Quic.PacketEvents.RoundTrip.{received, unmarshal_feedback-marshal}
use mrtp.Quic.PacketEvents.Truncation.{unmarshal_feedback_total}

-- An estimator that always answers 900, and a pacing factor of 2.
abbrev rate : List BweCall → ℤ
rate calls = pos 900

abbrev pace : ℕ → ℕ
pace target = target * 2

abbrev base : ℤ
base = pos 5_000_000_000

-- Two packets are sent, and both are acknowledged by one frame.
abbrev acks : AckFrame
acks = record {
  largest_acked = 1;
  receive_timestamps =
      record { delta_largest_acknowledged = 0; timestamp_delta = 900 ∷ 200 ∷ [] } ∷ [];
  ect0 = 0;
  ect1 = 2;
  ecnce = 0;
}

abbrev history : List Tick
history =
    record { ts = pos 1_000; rtt = pos 0; now = pos 1_000; event = QlogEvent.sent 0 1200 }
    ∷ record { ts = pos 2_000; rtt = pos 0; now = pos 2_000; event = QlogEvent.sent 1 800 }
    ∷ record {
      ts = pos 30_000_000;
      rtt = pos 40;
      now = pos 30_000_000;
      event = QlogEvent.received (Frame.ack_frame acks ∷ []);
    }
    ∷ []

reported-run-Climbs_example :
    let t = run rate pace base (start true true true) history in
    Climbs 0 (reported t.bwe_calls) t.lowest_in_flight
reported-run-Climbs_example =
    reported-run-Climbs rate pace base true true true history (omega arith)

abbrev entry : ℕ → PacketFeedback
entry seq = sent_entry (pos 1_000) seq 1200

-- Packets 3, 7 and 9 are in flight; 5 was acknowledged and is recorded.
abbrev flying : Transport
flying = record {
  quic_conn = true;
  bwe = true;
  set_source_target_rate = false;
  last_bwe_update = pos 0;
  in_flight_packets = entry 3 ∷ entry 7 ∷ entry 9 ∷ [];
  lowest_in_flight = 4;
  highest_acked = 8;
  packet_feedback = acked (pos 2_000) (entry 5) ∷ [];
  bwe_calls = [];
  source_rates = [];
  pacing_rates = [];
}

flying-Inv : Inv flying
unfolding reported
flying-Inv = record {
  in_flight = omega arith;
  feedback = omega arith;
  low = omega arith;
  small = omega arith;
  climbs = omega arith;
}

record_event-Inv_example :
    Inv (record_event rate pace base (pos 0) (pos 0) (pos 9) (QlogEvent.lost 7) flying)
record_event-Inv_example =
    record_event-Inv base rate pace (pos 0) (pos 0) (pos 9) (QlogEvent.lost 7) flying (omega arith)
      flying-Inv

packet_acked_reported_example :
    let u = packet_acked flying 7 (pos 3_000) in
    ((q : ℕ)
      → find? q u.in_flight_packets ≡ (if 7 == q then none else find? q flying.in_flight_packets))
    × Mem
        (on_ack 7 (pos 1200) (pos 1_000) (pos 3_000) 0)
        (report_feedback u (pos 0) (pos 0)).bwe_calls
unfolding find?
packet_acked_reported_example =
    packet_acked_reported flying flying-Inv 7 (omega arith) {f = entry 7} (omega arith) refl refl
      (pos 3_000) (pos 0) (pos 0)

packet_lost_reported_example :
    let u = packet_lost flying 7 in
    ((q : ℕ)
      → find? q u.in_flight_packets ≡ (if 7 == q then none else find? q flying.in_flight_packets))
    × Mem (on_loss 7 (pos 1200) (pos 1_000)) (report_feedback u (pos 0) (pos 0)).bwe_calls
unfolding find?
packet_lost_reported_example =
    packet_lost_reported flying flying-Inv 7 (omega arith) {f = entry 7} (omega arith) refl refl
      refl (omega arith) (pos 0) (pos 0)

contains-run_below_example :
    contains 3 (reported (run rate pace base flying history).bwe_calls) ≡ false
unfolding contains reported
contains-run_below_example =
    contains-run_below rate pace base flying history 3 (omega arith) flying-Inv (omega arith) refl

find_seq_lem_example :
    find_seq 7 flying.in_flight_packets
    ≡ (rank 7 flying.in_flight_packets, is_some (find? 7 flying.in_flight_packets))
find_seq_lem_example = find_seq_lem 7 0 flying.in_flight_packets (omega arith) flying-Inv.in_flight

-- A code of one cell for each number.
abbrev cells : QuicVarint
cells = record { append = λ buf v. buf ++ v ∷ []; parse = first }
  where
    first : List ℕ → ℕ × ℤ × Bool
    first [] = (0, pos 0, false)
    first (v ∷ rest) = (v, pos 1, true)

cells-Codec : Codec cells
cells-Codec = record { appends = λ buf v. refl; reads = λ v rest h. refl }

cells-CountsBytes : CountsBytes cells
cells-CountsBytes [] = omega arith
cells-CountsBytes (v ∷ rest) = omega arith

abbrev two_acks : List Acknowledgment
two_acks =
    record { seq_nr = 42; arrived = false; arrival = pos 110_000_000; marked = true }
    ∷ record { seq_nr = 45; arrived = false; arrival = pos 115_000_999; marked = false }
    ∷ []

unmarshal_feedback-marshal_example :
    (buf : List ℕ) × (marshal cells (two_acks ++ two_acks) 2 ≡ some buf)
    × (unmarshal_feedback cells buf ≡ ok (map received two_acks))
unmarshal_feedback-marshal_example =
    unmarshal_feedback-marshal cells cells-Codec two_acks two_acks (omega arith) (omega arith)

unmarshal_feedback_total_example :
    (events : List Acknowledgment) × (unmarshal_feedback cells (3 ∷ 42 ∷ []) ≡ ok events)
    × (length events ≡ 3)
unmarshal_feedback_total_example = unmarshal_feedback_total cells cells-CountsBytes (3 ∷ 42 ∷ [])
