-- ===== src/Quic/Tracer/Extends.antt =====
-- How one event that internal/quictransport/tracer.go handles extends the list of reported numbers.
use mrtp.Prelude.{
  ℕ, ◌+◌, ◌≡◌, refl, inl, inr, List, [], ◌∷◌, ◌++◌, append-nil, append_assoc, Bool-cases, arith,
}
use mrtp.Prelude.Int.{ℤ}
use mrtp.Quic.Feedback.{
  BweCall, Transport, packet_sent, packet_lost, packet_acked, update_ecn_counts_of, report_feedback,
  update_bwe, update_congestion_control,
}
use mrtp.Quic.Feedback.Report.{
  reported, reported-append, Climbs, Climbs-append, seq_nrs, window, window-Climbs,
}
use mrtp.Quic.Feedback.Invariant.{Inv, packet_sent-frame, reported-report_feedback, next_lowest}
use mrtp.Quic.Tracer.{
  TimestampRange, Frame, ack_frame, other_frame, QlogEvent, received, sent, lost, other_event, Loop,
  seq_at, ack_deltas, ack_ranges, handle_ack, handle_frames, handle_event, record_event,
}
use mrtp.Quic.Tracer.Acks.{EventFits, handle_event-Inv}

-- From one state to a later one the reports grow by numbers that climb from the earlier window on.
pub record Extends (t u : Transport) : Type 0 where
  pub new : List ℕ
  pub grown : reported u.bwe_calls ≡ reported t.bwe_calls ++ new
  pub climbs : Climbs t.lowest_in_flight new u.lowest_in_flight

pub Extends-same :
    {t u : Transport}
    → u.bwe_calls ≡ t.bwe_calls
    → u.lowest_in_flight ≡ t.lowest_in_flight
    → Extends t u
Extends-same b l = record { new = []; grown = rw (b, append-nil); climbs = omega arith }

pub Extends-trans : {t u w : Transport} → Extends t u → Extends u w → Extends t w
Extends-trans {t} {u} {w} a b = record {
  new = a.new ++ b.new;
  grown = rw (b.grown, a.grown, append_assoc);
  climbs =
      Climbs-append t.lowest_in_flight u.lowest_in_flight w.lowest_in_flight a.new b.new a.climbs
        b.climbs;
}

packet_sent-Extends :
    (t : Transport) (ts : ℤ) (seq size : ℕ) → Extends t (packet_sent t ts seq size)
packet_sent-Extends t ts seq size = rw (packet_sent-frame t ts seq size) (Extends-same refl refl)

packet_acked-Extends :
    (t : Transport) (seq : ℕ) (arrival : ℤ) → Extends t (packet_acked t seq arrival)
packet_acked-Extends t seq arrival =
    Extends-same (unfold packet_acked in ground arith) (unfold packet_acked in ground arith)

packet_lost-Extends : (t : Transport) (seq : ℕ) → Extends t (packet_lost t seq)
packet_lost-Extends t seq =
    Extends-same (unfold packet_lost in ground arith) (unfold packet_lost in ground arith)

update_ecn_counts_of-Extends :
    (t : Transport) (ect0 ect1 ce : ℕ) → Extends t (update_ecn_counts_of t ect0 ect1 ce)
unfolding update_ecn_counts_of
update_ecn_counts_of-Extends t ect0 ect1 ce = elim (Bool-cases t.bwe) [
  | inl b ↦ simp b (record {
    new = [];
    grown = rw (reported-append t.bwe_calls) (unfold reported in refl);
    climbs = omega arith;
  })
  | inr b ↦ simp b (Extends-same refl refl)
]

module _ (t : Transport) (v : Inv t) where
  report_feedback-Extends : (rtt now : ℤ) → Extends t (report_feedback t rtt now)
  report_feedback-Extends rtt now = record {
    new = seq_nrs (window t.lowest_in_flight t.highest_acked t.packet_feedback);
    grown = reported-report_feedback t v rtt now;
    climbs =
        unfold report_feedback in
        rw (next_lowest t v) (
          window-Climbs t.highest_acked t.lowest_in_flight 0 t.lowest_in_flight t.packet_feedback
            v.feedback (inr refl) (omega arith) (omega (arith, v.low)));
  }

  update_congestion_control-Extends :
      (target_rate : List BweCall → ℤ) (pace : ℕ → ℕ) (rtt now : ℤ)
      → Extends t (update_congestion_control target_rate pace t rtt now)
  unfolding update_congestion_control update_bwe
  update_congestion_control-Extends target_rate pace rtt now =
      ground (arith, report_feedback-Extends rtt now, Extends-same {t = t} {u = t} refl refl)

ack_deltas-Extends :
    (base : ℤ) (largest delta_largest j : ℕ) (deltas : List ℕ) (s : Loop)
    → Extends s.transport (ack_deltas base largest delta_largest j deltas s).transport
unfolding ack_deltas
ack_deltas-Extends base largest delta_largest j [] s = Extends-same refl refl
ack_deltas-Extends base largest delta_largest j (delta ∷ deltas) s =
    Extends-trans (packet_acked-Extends s.transport (seq_at largest delta_largest j) _)
      (ack_deltas-Extends base largest delta_largest (j + 1) deltas _)

ack_ranges-Extends :
    (base : ℤ) (largest : ℕ) (rs : List TimestampRange) (s : Loop)
    → Extends s.transport (ack_ranges base largest rs s).transport
unfolding ack_ranges
ack_ranges-Extends base largest [] s = Extends-same refl refl
ack_ranges-Extends base largest (r ∷ rs) s =
    Extends-trans
      (ack_deltas-Extends base largest r.delta_largest_acknowledged 0 r.timestamp_delta s)
      (ack_ranges-Extends base largest rs _)

handle_frames-Extends :
    (base : ℤ) (fs : List Frame) (t : Transport) → Extends t (handle_frames base fs t)
unfolding handle_frames handle_ack
handle_frames-Extends base [] t = Extends-same refl refl
handle_frames-Extends base (ack_frame f ∷ fs) t =
    Extends-trans (ack_ranges-Extends base f.largest_acked f.receive_timestamps _) (
      Extends-trans (update_ecn_counts_of-Extends _ f.ect0 f.ect1 f.ecnce)
        (handle_frames-Extends base fs _))
handle_frames-Extends base (other_frame ∷ fs) t = handle_frames-Extends base fs t

handle_event-Extends :
    (base ts : ℤ) (e : QlogEvent) (t : Transport) → Extends t (handle_event base ts e t)
unfolding handle_event
handle_event-Extends base ts (received frames) t = handle_frames-Extends base frames t
handle_event-Extends base ts (sent seq size) t = packet_sent-Extends t ts seq size
handle_event-Extends base ts (lost seq) t = packet_lost-Extends t seq
handle_event-Extends base ts other_event t = Extends-same refl refl

pub record_event-Extends :
    (target_rate : List BweCall → ℤ) (pace : ℕ → ℕ) (base ts rtt now : ℤ) (e : QlogEvent)
    (t : Transport)
    → EventFits e
    → Inv t
    → Extends t (record_event target_rate pace base ts rtt now e t)
unfolding record_event
record_event-Extends target_rate pace base ts rtt now e t fits v =
    Extends-trans (handle_event-Extends base ts e t) (
      update_congestion_control-Extends _ (handle_event-Inv base ts e t fits v) target_rate pace rtt
        now)
