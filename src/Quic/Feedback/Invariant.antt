-- ===== src/Quic/Feedback/Invariant.antt =====
-- The invariant of the feedback state of internal/quictransport/transport.go, handler by handler.
use mrtp.Prelude.{
  ℕ, suc, ◌+◌, ◌%◌, ◌^◌, ◌≤◌, ◌<◌, ◌≡◌, refl, inl, inr, List, [], ◌∷◌, ◌++◌, none, some, ltb, ◌⊎◌,
  Option-cases, Bool-cases, append-nil, ltb→lt, arith,
}
use mrtp.Prelude.Int.{ℤ}
use mrtp.Quic.Feedback.{
  PacketFeedback, BweCall, Transport, update_ecn_counts, packet_sent, packet_lost, packet_acked,
  acked, raise_highest, report_loop, report_feedback, update_ecn_counts_of, update_bwe,
  update_congestion_control,
}
use mrtp.Quic.Feedback.Sorted.{max_seq, Ascending, find?}
use mrtp.Quic.Feedback.Edit.{delete_at-Ascending}
use mrtp.Quic.Feedback.Report.{
  reported, reported-append, reported-map, Climbs, Climbs-append, seq_nrs, window, window-Climbs,
  report_loop-window, drop-Ascending,
}
use mrtp.Quic.Feedback.Effect.{
  find?-seq, record_loss-Ascending, record_ack-Ascending, packet_sent-Ascending,
  packet_acked_ignored, packet_acked_moves, packet_lost_ignored, packet_lost_moves,
}

pub record Inv (t : Transport) : Type 0 where
  pub in_flight : Ascending 0 t.in_flight_packets
  pub feedback : Ascending 0 t.packet_feedback
  pub low : t.lowest_in_flight ≤ t.highest_acked + 1
  pub small : t.highest_acked < max_seq
  pub climbs : Climbs 0 (reported t.bwe_calls) t.lowest_in_flight

pub stale_or_known :
    (t : Transport) (seq : ℕ)
    → ((seq < t.lowest_in_flight) ⊎ (find? seq t.in_flight_packets ≡ none))
      ⊎ ((f : PacketFeedback) × (t.lowest_in_flight ≤ seq)
          × (find? seq t.in_flight_packets ≡ some f))
stale_or_known t seq = elim (Bool-cases (ltb seq t.lowest_in_flight)) [
  | inl s ↦ inl (inl (ltb→lt _ _ s))
  | inr s ↦ elim (Option-cases (find? seq t.in_flight_packets)) [
    | inl e ↦ inl (inr e)
    | inr (f, e) ↦ inr (f, ground arith, e)
  ]
]

pub packet_sent-frame :
    (t : Transport) (ts : ℤ) (seq size : ℕ)
    → packet_sent t ts seq size
      ≡ record t { in_flight_packets = (packet_sent t ts seq size).in_flight_packets }
unfolding packet_sent
packet_sent-frame t ts seq size = ground arith

module _ (t : Transport) (v : Inv t) (seq : ℕ) (bound : seq < max_seq) where
  pub packet_sent-Inv : (ts : ℤ) (size : ℕ) → Inv (packet_sent t ts seq size)
  packet_sent-Inv ts size = rw (packet_sent-frame t ts seq size) (record {
    in_flight = packet_sent-Ascending t seq bound v.in_flight ts size;
    feedback = v.feedback;
    low = v.low;
    small = v.small;
    climbs = v.climbs;
  })

  raise_highest-Inv : Inv (raise_highest t seq)
  raise_highest-Inv = record {
    in_flight = v.in_flight;
    feedback = v.feedback;
    low = ground arith;
    small = ground arith;
    climbs = v.climbs;
  }

  pub packet_acked-Inv : (arrival : ℤ) → Inv (packet_acked t seq arrival)
  packet_acked-Inv arrival = elim (stale_or_known t seq) [
    | inl ignored ↦
        rw (packet_acked_ignored t seq bound v.in_flight arrival ignored) raise_highest-Inv
    | inr (f, fresh, sent) ↦
        rw (packet_acked_moves t seq bound v.in_flight {f = f} fresh sent arrival) (record {
          in_flight = delete_at-Ascending seq bound 0 t.in_flight_packets v.in_flight;
          feedback =
              record_ack-Ascending seq bound t.packet_feedback v.feedback (acked arrival f)
                (find?-seq seq t.in_flight_packets sent) arrival;
          low = raise_highest-Inv.low;
          small = raise_highest-Inv.small;
          climbs = v.climbs;
        })
  ]

  pub packet_lost-Inv : Inv (packet_lost t seq)
  packet_lost-Inv = elim (stale_or_known t seq) [
    | inl ignored ↦ rw (packet_lost_ignored t seq bound v.in_flight ignored) v
    | inr (f, fresh, sent) ↦
        rw (packet_lost_moves t seq bound v.in_flight {f = f} fresh sent) (record {
          in_flight = delete_at-Ascending seq bound 0 t.in_flight_packets v.in_flight;
          feedback =
              record_loss-Ascending seq bound t.packet_feedback v.feedback f
                (find?-seq seq t.in_flight_packets sent);
          low = v.low;
          small = v.small;
          climbs = v.climbs;
        })
  ]

module _ (t : Transport) (v : Inv t) where
  pub update_ecn_counts_of-Inv : (ect0 ect1 ce : ℕ) → Inv (update_ecn_counts_of t ect0 ect1 ce)
  unfolding update_ecn_counts_of
  update_ecn_counts_of-Inv ect0 ect1 ce = elim (Bool-cases t.bwe) [
    | inl b ↦ simp b (record {
      in_flight = v.in_flight;
      feedback = v.feedback;
      low = v.low;
      small = v.small;
      climbs =
          rw (reported-append t.bwe_calls (update_ecn_counts ect0 ect1 ce ∷ []))
            (unfold reported in rw append-nil v.climbs);
    })
    | inr b ↦ simp b v
  ]

  pub next_lowest : (t.highest_acked + 1) % 2 ^ 64 ≡ suc t.highest_acked
  next_lowest = omega (arith, v.small)

  -- What `updateBWE` reports: the entries of the window, in order.
  pub reported-report_feedback :
      (rtt now : ℤ)
      → reported (report_feedback t rtt now).bwe_calls
        ≡ reported t.bwe_calls
          ++ seq_nrs (window t.lowest_in_flight t.highest_acked t.packet_feedback)
  unfolding report_feedback
  reported-report_feedback rtt now =
      rw
        (
          reported-append t.bwe_calls,
          reported-append (report_loop t.highest_acked t.lowest_in_flight 0 t.packet_feedback).1,
          report_loop-window t.highest_acked t.lowest_in_flight 0 0 t.packet_feedback v.feedback,
          reported-map,
        )
        (unfold reported in rw append-nil)

  pub report_feedback-Inv : (rtt now : ℤ) → Inv (report_feedback t rtt now)
  unfolding report_feedback
  report_feedback-Inv rtt now = record {
    in_flight = v.in_flight;
    feedback =
        drop-Ascending (report_loop t.highest_acked t.lowest_in_flight 0 t.packet_feedback).0 0
          t.packet_feedback v.feedback;
    low = omega arith;
    small = v.small;
    climbs =
        rw (next_lowest, reported-report_feedback rtt now)
          (Climbs-append 0 t.lowest_in_flight (suc t.highest_acked) (reported t.bwe_calls) _
            v.climbs
            (window-Climbs t.highest_acked t.lowest_in_flight 0 t.lowest_in_flight t.packet_feedback
              v.feedback (inr refl) (omega arith) (omega (arith, v.low))));
  }

  module _ (target_rate : List BweCall → ℤ) where
    pub update_bwe-Inv : (rtt now : ℤ) → Inv (update_bwe target_rate t rtt now).0
    unfolding update_bwe
    update_bwe-Inv rtt now = ground (arith, report_feedback-Inv rtt now)

    pub update_congestion_control-Inv :
        (pace : ℕ → ℕ) (rtt now : ℤ) → Inv (update_congestion_control target_rate pace t rtt now)
    unfolding update_congestion_control
    update_congestion_control-Inv pace rtt now = ground (arith, update_bwe-Inv rtt now)
