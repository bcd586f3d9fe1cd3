-- ===== src/Quic/PacketEvents/Truncation.antt =====
-- `UnmarshalFeedback` of internal/quictransport/packetEvents.go on any buffer.
use mrtp.Prelude.{
  ℕ, zero, suc, ◌+◌, ◌≡◌, refl, List, [], ◌∷◌, ◌++◌, length, drop, length-append, arith,
}
use mrtp.Prelude.Int.{pos_part}
use mrtp.Quic.PacketEvents.{
  Acknowledgment, QuicVarint, ok, next_value, read_event, read_events, unmarshal_feedback,
}
use mrtp.Quic.PacketEvents.Laws.{CountsBytes}

module _ (varint : QuicVarint) (counts : CountsBytes varint) where
  abbrev rest_of : List ℕ → List ℕ
  rest_of buf = drop (pos_part (varint.parse buf).1) buf

  next_value-ok : (buf : List ℕ) → next_value varint buf ≡ ok ((varint.parse buf).0, rest_of buf)
  unfolding next_value
  next_value-ok buf = ground (arith, counts buf)

  read_event_total :
      (buf : List ℕ)
      → (p : Acknowledgment) × (rest : List ℕ) × (read_event varint buf ≡ ok (p, rest))
  unfolding read_event
  read_event_total buf =
      rw (next_value-ok buf, next_value-ok (rest_of buf), next_value-ok (rest_of (rest_of buf)))
        (_, _, refl)

  read_events_total :
      (n : ℕ) (buf : List ℕ) (acc : List Acknowledgment)
      → (events : List Acknowledgment) × (read_events varint n buf acc ≡ ok events)
        × (length events ≡ length acc + n)
  unfolding read_events
  read_events_total zero buf acc = (acc, refl, omega arith)
  read_events_total (suc n) buf acc =
      let (p, rest, read) = read_event_total buf in
      let (events, all, size) = read_events_total n rest (acc ++ p ∷ []) in
      (events, rw (read, all), omega (arith, size, length-append acc (p ∷ [])))

  -- Where `Parse` returns a count that is neither negative nor past the buffer, `UnmarshalFeedback`
  -- accepts every buffer, however short, and gives as many acknowledgments as its first number says.
  pub unmarshal_feedback_total :
      (buf : List ℕ)
      → (events : List Acknowledgment) × (unmarshal_feedback varint buf ≡ ok events)
        × (length events ≡ (varint.parse buf).0)
  unfolding unmarshal_feedback
  unmarshal_feedback_total buf =
      let (events, all, size) = read_events_total (varint.parse buf).0 (rest_of buf) [] in
      (events, rw (next_value-ok buf, all), omega (arith, size))
