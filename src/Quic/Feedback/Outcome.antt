-- ===== src/Quic/Feedback/Outcome.antt =====
-- One packet from its acknowledgment or loss to the next update: internal/quictransport/transport.go.
use mathlib.Core.List.{Mem, mem-append_left, mem-append_right, mem-cons_self, mem-cons_of_mem}
use mrtp.Prelude.{
  ℕ, ◌+◌, ◌≤◌, ◌<◌, ◌%◌, ◌^◌, ◌≡◌, ap, subst, inl, inr, List, [], ◌∷◌, map, false, ◌&&◌, none, some,
  leb, ◌==◌, if◌then◌else◌, All, Bool-cases, arith,
}
use mrtp.Prelude.Int.{ℤ, to_int64}
use mrtp.Quic.Feedback.{
  PacketFeedback, BweCall, on_ack, on_loss, Transport, acked, packet_acked, packet_lost, report_of,
  report_loop, report_feedback,
}
use mrtp.Quic.Feedback.Sorted.{max_seq, find?}
use mrtp.Quic.Feedback.Edit.{find?-delete_at}
use mrtp.Quic.Feedback.Report.{window, report_loop-window, report_loop-idle}
use mrtp.Quic.Feedback.Effect.{
  find?-seq, find?-record_ack, find?-record_loss, packet_acked_moves, packet_lost_moves,
  packet_lost_ignored,
}
use mrtp.Quic.Feedback.Invariant.{Inv, packet_acked-Inv, packet_lost-Inv}

window-cons_in :
    (lowest highest : ℕ) (g : PacketFeedback) (fs : List PacketFeedback)
    → lowest ≤ g.seq_nr
    → g.seq_nr ≤ highest
    → window lowest highest (g ∷ fs) ≡ g ∷ window lowest highest fs
unfolding window
window-cons_in lowest highest g fs l u = ground arith

mem-window-cons :
    (lowest highest : ℕ) (g : PacketFeedback) (fs : List PacketFeedback) (c : BweCall)
    → Mem c (map report_of (window lowest highest fs))
    → Mem c (map report_of (window lowest highest (g ∷ fs)))
unfolding window
mem-window-cons lowest highest g fs c m =
    elim (Bool-cases (leb lowest g.seq_nr && leb g.seq_nr highest)) [
      | inl e ↦ rw e (mem-cons_of_mem (report_of g) m)
      | inr e ↦ rw e m
    ]

mem-window :
    (seq lowest highest : ℕ) (fs : List PacketFeedback) {f : PacketFeedback}
    → find? seq fs ≡ some f
    → lowest ≤ seq
    → seq ≤ highest
    → Mem (report_of f) (map report_of (window lowest highest fs))
unfolding find?
mem-window seq lowest highest [] h l u = cc
mem-window seq lowest highest (g ∷ fs) {f} h l u = elim (Bool-cases (g.seq_nr == seq)) [
  | inl e ↦
      let same : g ≡ f = ground arith in
      rw (← same)
        (rw (window-cons_in lowest highest g fs (ground arith) (ground arith)) mem-cons_self)
  | inr e ↦
      mem-window-cons lowest highest g fs (report_of f)
        (mem-window seq lowest highest fs (ground arith) l u)
]

-- `updateBWE` reports the entry of every number in its window.
mem-report_feedback :
    (t : Transport) (seq : ℕ) {f : PacketFeedback} (rtt now : ℤ)
    → Inv t
    → find? seq t.packet_feedback ≡ some f
    → t.lowest_in_flight ≤ seq
    → seq ≤ t.highest_acked
    → Mem (report_of f) (report_feedback t rtt now).bwe_calls
unfolding report_feedback
mem-report_feedback t seq {f} rtt now v h l u = mem-append_right t.bwe_calls (
    mem-append_left {s = (report_loop t.highest_acked t.lowest_in_flight 0 t.packet_feedback).1} _ (
      rw (report_loop-window t.highest_acked t.lowest_in_flight 0 0 t.packet_feedback v.feedback)
        (mem-window seq t.lowest_in_flight t.highest_acked t.packet_feedback {f = f} h l u)))

module _ (t : Transport) (v : Inv t) (seq : ℕ) (bound : seq < max_seq) {f : PacketFeedback}
    (fresh : t.lowest_in_flight ≤ seq) (sent : find? seq t.in_flight_packets ≡ some f)
    (unknown : find? seq t.packet_feedback ≡ none) where
  packet_acked_entry :
      (arrival : ℤ)
      → let u = packet_acked t seq arrival in
        (find? seq u.packet_feedback ≡ some (acked arrival f))
        × (u.lowest_in_flight ≤ seq)
        × (seq ≤ u.highest_acked)
  packet_acked_entry arrival =
      rw (packet_acked_moves t seq bound v.in_flight {f = f} fresh sent arrival) (
        ground (
          arith,
          find?-record_ack seq bound t.packet_feedback v.feedback (acked arrival f)
              (find?-seq seq t.in_flight_packets sent) arrival seq,
        ),
        fresh,
        ground arith,
      )

  packet_lost_entry : find? seq (packet_lost t seq).packet_feedback ≡ some f
  packet_lost_entry = rw (packet_lost_moves t seq bound v.in_flight {f = f} fresh sent) (
      ground (
        arith,
        find?-record_loss seq bound t.packet_feedback v.feedback f
            (find?-seq seq t.in_flight_packets sent) seq,
      ))

  -- In a state with the invariant, a packet with a number below 2 ^ 62 that is in flight and in the
  -- window, and of which no feedback is recorded: its acknowledgment takes it, and no other, out of
  -- flight, and an update right after it reports the arrival to the estimator, with the time given
  -- and the departure and the size of its sending.
  pub packet_acked_reported :
      (arrival rtt now : ℤ)
      → let u = packet_acked t seq arrival in
        ((q : ℕ)
          → find? q u.in_flight_packets ≡ (if seq == q then none else find? q t.in_flight_packets))
        × Mem
            (on_ack seq (to_int64 f.size) f.departure arrival 0)
            (report_feedback u rtt now).bwe_calls
  packet_acked_reported arrival rtt now =
      let entry = packet_acked_entry arrival in
      (
        λ q.
            rw (packet_acked_moves t seq bound v.in_flight {f = f} fresh sent arrival)
              (find?-delete_at seq bound q 0 t.in_flight_packets v.in_flight sent),
        subst
            (λ n.
              Mem (on_ack n (to_int64 f.size) f.departure arrival 0)
                (report_feedback (packet_acked t seq arrival) rtt now).bwe_calls)
            (find?-seq seq t.in_flight_packets sent)
            (mem-report_feedback (packet_acked t seq arrival) seq rtt now
              (packet_acked-Inv t v seq bound arrival) entry.0 entry.1 entry.2),
      )

  -- In a state with the invariant, a packet with a number below 2 ^ 62 that is in flight and in the
  -- window, of which no feedback is recorded, that is not marked as arrived, and that is at most the
  -- highest acknowledged number: its loss takes it, and no other, out of flight, and an update right
  -- after it reports the loss to the estimator, with the departure and the size of its sending.
  pub packet_lost_reported :
      f.arrived ≡ false
      → seq ≤ t.highest_acked
      → (rtt now : ℤ)
      → let u = packet_lost t seq in
        ((q : ℕ)
          → find? q u.in_flight_packets ≡ (if seq == q then none else find? q t.in_flight_packets))
        × Mem (on_loss seq (to_int64 f.size) f.departure) (report_feedback u rtt now).bwe_calls
  packet_lost_reported pending passed rtt now =
      let moves = packet_lost_moves t seq bound v.in_flight {f = f} fresh sent in
      let loss : report_of f ≡ on_loss seq (to_int64 f.size) f.departure =
        ground (arith, find?-seq seq t.in_flight_packets {f = f} sent) in
      (
        λ q. rw moves (find?-delete_at seq bound q 0 t.in_flight_packets v.in_flight sent),
        subst (λ c. Mem c (report_feedback (packet_lost t seq) rtt now).bwe_calls) loss
            (mem-report_feedback (packet_lost t seq) seq rtt now (packet_lost-Inv t v seq bound)
              packet_lost_entry (rw moves fresh) (rw moves passed)),
      )

-- In a state with the invariant, an update moves the window past every number (below 2 ^ 62) up to the
-- highest acknowledged one. A loss of such a packet that is declared right after the update changes
-- nothing: the packet stays in flight if it was.
packet_lost-report_feedback :
    (t : Transport) (seq : ℕ) (rtt now : ℤ)
    → Inv t
    → seq < max_seq
    → seq ≤ t.highest_acked
    → let u = report_feedback t rtt now in
      (seq < u.lowest_in_flight)
      × (packet_lost u seq ≡ u)
      × (find? seq (packet_lost u seq).in_flight_packets ≡ find? seq t.in_flight_packets)
unfolding report_feedback
packet_lost-report_feedback t seq rtt now v bound passed =
    let u = report_feedback t rtt now in
    let below : seq < (t.highest_acked + 1) % 2 ^ 64 = omega (arith, v.small) in
    let same : packet_lost u seq ≡ u = packet_lost_ignored u seq bound v.in_flight (inl below) in
    (below, same, ap (λ w. find? seq w.in_flight_packets) same)

-- Where no packet in the feedback list is above the highest acknowledged number, an update leaves the
-- feedback list as it is: nothing that it reports is removed.
report_feedback_keeps :
    (t : Transport) (rtt now : ℤ)
    → All (λ f. f.seq_nr ≤ t.highest_acked) t.packet_feedback
    → (report_feedback t rtt now).packet_feedback ≡ t.packet_feedback
unfolding report_feedback
report_feedback_keeps t rtt now h =
    rw (report_loop-idle t.highest_acked t.lowest_in_flight 0 0 t.packet_feedback h)
