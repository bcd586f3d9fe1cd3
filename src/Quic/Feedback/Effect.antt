-- ===== src/Quic/Feedback/Effect.antt =====
-- The handlers of internal/quictransport/transport.go, with their lists read as finite maps.
use mrtp.Prelude.{
  ℕ, ◌≤◌, ◌<◌, ◌≡◌, refl, inl, inr, List, [], ◌∷◌, false, none, some, ◌⊎◌, ◌==◌, if◌then◌else◌,
  Option-cases, le→ltb, lt→ltb, arith,
}
use mrtp.Prelude.Int.{ℤ}
use mrtp.Slices.{delete_at}
use mrtp.Quic.Feedback.{
  PacketFeedback, Transport, sent_entry, packet_sent, record_loss, packet_lost, acked, record_ack,
  raise_highest, packet_acked,
}
use mrtp.Quic.Feedback.Sorted.{max_seq, Ascending, rank, find?, find_seq_lem, get_elem?-rank}
use mrtp.Quic.Feedback.Edit.{
  insert_at-Ascending, find?-insert_at, modify_at-Ascending, find?-modify_at,
}

pub find?-seq :
    (seq : ℕ) (fs : List PacketFeedback) {f : PacketFeedback}
    → find? seq fs ≡ some f
    → f.seq_nr ≡ seq
unfolding find?
find?-seq seq [] h = cc
find?-seq seq (g ∷ fs) {f} h = ground (arith, find?-seq seq fs {f = f})

-- `record_loss` and `record_ack` keep the order, and set the one entry.
module _ (seq : ℕ) (bound : seq < max_seq) (fs : List PacketFeedback) (asc : Ascending 0 fs)
    (f : PacketFeedback) (its : f.seq_nr ≡ seq) where
  pub record_loss-Ascending : Ascending 0 (record_loss f seq fs)
  unfolding record_loss
  record_loss-Ascending = elim (Option-cases (find? seq fs)) [
    | inl e ↦
        rw (find_seq_lem seq 0 fs bound asc, e)
          (insert_at-Ascending seq bound 0 fs f its (omega arith) asc e)
    | inr (g, e) ↦
        rw (find_seq_lem seq 0 fs bound asc, e)
          (modify_at-Ascending seq bound _ (λ g. refl) (rank seq fs) 0 fs asc)
  ]

  pub record_ack-Ascending : (arrival : ℤ) → Ascending 0 (record_ack f seq arrival fs)
  unfolding record_ack
  record_ack-Ascending arrival = elim (Option-cases (find? seq fs)) [
    | inl e ↦
        rw (find_seq_lem seq 0 fs bound asc, e)
          (insert_at-Ascending seq bound 0 fs f its (omega arith) asc e)
    | inr (g, e) ↦
        rw (find_seq_lem seq 0 fs bound asc, e)
          (modify_at-Ascending seq bound _ (λ g. refl) (rank seq fs) 0 fs asc)
  ]

  pub find?-record_loss :
      (q : ℕ)
      → find? q (record_loss f seq fs) ≡ (
          if seq == q
          then elim (find? seq fs) [ none ↦ some f | some g ↦ some (record g { arrived = false }) ]
          else find? q fs)
  unfolding record_loss
  find?-record_loss q = elim (Option-cases (find? seq fs)) [
    | inl e ↦ rw (find_seq_lem seq 0 fs bound asc, e) (find?-insert_at seq bound q fs f its e)
    | inr (g, e) ↦
        rw (find_seq_lem seq 0 fs bound asc, e)
          (find?-modify_at seq bound _ (λ g. refl) q 0 fs asc e)
  ]

  pub find?-record_ack :
      (arrival : ℤ) (q : ℕ)
      → find? q (record_ack f seq arrival fs) ≡ (
          if seq == q
          then elim (find? seq fs) [ none ↦ some f | some g ↦ some (acked arrival g) ]
          else find? q fs)
  unfolding record_ack
  find?-record_ack arrival q = elim (Option-cases (find? seq fs)) [
    | inl e ↦ rw (find_seq_lem seq 0 fs bound asc, e) (find?-insert_at seq bound q fs f its e)
    | inr (g, e) ↦
        rw (find_seq_lem seq 0 fs bound asc, e)
          (find?-modify_at seq bound _ (λ g. refl) q 0 fs asc e)
  ]

module _ (t : Transport) (seq : ℕ) (bound : seq < max_seq)
    (asc : Ascending 0 t.in_flight_packets) where
  -- Where the packets in flight are in strictly ascending order, a packet with a number below 2 ^ 62
  -- that is sent is in flight afterwards, with its time and size unless its number was in flight
  -- already, and no entry of another number changes.
  find?-packet_sent :
      (ts : ℤ) (size q : ℕ)
      → find? q (packet_sent t ts seq size).in_flight_packets ≡ (
          if seq == q
          then elim (find? seq t.in_flight_packets) [
            | none ↦ some (sent_entry ts seq size)
            | some f ↦ some f
          ]
          else find? q t.in_flight_packets)
  unfolding packet_sent
  find?-packet_sent ts size q = elim (Option-cases (find? seq t.in_flight_packets)) [
    | inl e ↦
        rw (find_seq_lem seq 0 t.in_flight_packets bound asc, e)
          (find?-insert_at seq bound q t.in_flight_packets (sent_entry ts seq size) refl e)
    | inr (g, e) ↦ rw (find_seq_lem seq 0 t.in_flight_packets bound asc, e) (ground (arith, e))
  ]

  pub packet_sent-Ascending :
      (ts : ℤ) (size : ℕ) → Ascending 0 (packet_sent t ts seq size).in_flight_packets
  unfolding packet_sent
  packet_sent-Ascending ts size = elim (Option-cases (find? seq t.in_flight_packets)) [
    | inl e ↦
        rw (find_seq_lem seq 0 t.in_flight_packets bound asc, e)
          (insert_at-Ascending seq bound 0 t.in_flight_packets (sent_entry ts seq size) refl
            (omega arith) asc e)
    | inr (g, e) ↦ rw (find_seq_lem seq 0 t.in_flight_packets bound asc, e) asc
  ]

  -- An acknowledgment or a loss of a packet that is below the window, or not in flight, moves
  -- nothing; the acknowledgment still raises the highest number.
  pub packet_acked_ignored :
      (arrival : ℤ)
      → (seq < t.lowest_in_flight) ⊎ (find? seq t.in_flight_packets ≡ none)
      → packet_acked t seq arrival ≡ raise_highest t seq
  unfolding packet_acked
  packet_acked_ignored arrival (inl stale) = rw (lt→ltb seq t.lowest_in_flight stale)
  packet_acked_ignored arrival (inr e) =
      rw (find_seq_lem seq 0 t.in_flight_packets bound asc, e) (ground arith)

  pub packet_lost_ignored :
      (seq < t.lowest_in_flight) ⊎ (find? seq t.in_flight_packets ≡ none) → packet_lost t seq ≡ t
  unfolding packet_lost
  packet_lost_ignored (inl stale) = rw (lt→ltb seq t.lowest_in_flight stale)
  packet_lost_ignored (inr e) =
      rw (find_seq_lem seq 0 t.in_flight_packets bound asc, e) (ground arith)

  module _ {f : PacketFeedback} (fresh : t.lowest_in_flight ≤ seq)
      (sent : find? seq t.in_flight_packets ≡ some f) where
    pub packet_acked_moves :
        (arrival : ℤ)
        → packet_acked t seq arrival ≡ record (raise_highest t seq) {
          in_flight_packets = delete_at (rank seq t.in_flight_packets) t.in_flight_packets;
          packet_feedback = record_ack (acked arrival f) seq arrival t.packet_feedback;
        }
    unfolding packet_acked
    packet_acked_moves arrival = rw (
      le→ltb seq t.lowest_in_flight fresh,
      find_seq_lem seq 0 t.in_flight_packets bound asc,
      sent,
      get_elem?-rank seq 0 t.in_flight_packets asc sent,
      find_seq_lem seq 0 t.in_flight_packets bound asc,
    )

    pub packet_lost_moves : packet_lost t seq ≡ record t {
      in_flight_packets = delete_at (rank seq t.in_flight_packets) t.in_flight_packets;
      packet_feedback = record_loss f seq t.packet_feedback;
    }
    unfolding packet_lost
    packet_lost_moves = rw (
      le→ltb seq t.lowest_in_flight fresh,
      find_seq_lem seq 0 t.in_flight_packets bound asc,
      sent,
      get_elem?-rank seq 0 t.in_flight_packets asc sent,
      find_seq_lem seq 0 t.in_flight_packets bound asc,
    )
