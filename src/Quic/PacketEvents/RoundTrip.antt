-- ===== src/Quic/PacketEvents/RoundTrip.antt =====
-- `UnmarshalFeedback` of what `Marshal` wrote: internal/quictransport/packetEvents.go.
use mrtp.Prelude.{
  ℕ, ◌/◌, ◌^◌, ◌<◌, ◌≡◌, refl, List, [], ◌∷◌, ◌++◌, map, Bool, true, false, some, ◌==◌, length,
  append-nil, append_assoc, length-append, drop-length, All, arith,
}
use mrtp.Prelude.Int.{ℤ, pos, negsuc, to_uint64, to_int64}
use mrtp.Quic.PacketEvents.{
  Acknowledgment, QuicVarint, ok, unix_micro, time_of_micro, marked_value, append_event,
  append_events, marshal, next_value, read_event, read_events, unmarshal_feedback,
}
use mrtp.Quic.PacketEvents.Laws.{Codec}

abbrev pub IsAfterEpoch : ℤ → Type 0
IsAfterEpoch (pos n) = n / 1000 < 2 ^ 62
IsAfterEpoch (negsuc n) = ⊥

-- The sequence number fits, and the time is not before the epoch and fits in microseconds.
abbrev pub Fits : Acknowledgment → Type 0
Fits a = (a.seq_nr < 2 ^ 62) × IsAfterEpoch a.arrival

-- What the reader makes of an event: it has arrived, at a whole microsecond.
abbrev pub received : Acknowledgment → Acknowledgment
received a = record a { arrived = true; arrival = time_of_micro (unix_micro a.arrival) }

micro-lt : (a : ℤ) → IsAfterEpoch a → to_uint64 (unix_micro a) < 2 ^ 62
micro-lt (pos n) h = omega arith
micro-lt (negsuc n) h = absurd h

to_int64-micro : (a : ℤ) → IsAfterEpoch a → to_int64 (to_uint64 (unix_micro a)) ≡ unix_micro a
to_int64-micro (pos n) h = ground arith
to_int64-micro (negsuc n) h = absurd h

marked_value-lt : (b : Bool) → marked_value b < 2 ^ 62
marked_value-lt true = omega arith
marked_value-lt false = omega arith

marked_value-eq_one : (b : Bool) → (marked_value b == 1) ≡ b
marked_value-eq_one true = refl
marked_value-eq_one false = refl

module _ (varint : QuicVarint) (codec : Codec varint) where
  abbrev bytes : ℕ → List ℕ
  bytes v = varint.append [] v

  next_value-bytes :
      (v : ℕ) (rest : List ℕ) → v < 2 ^ 62 → next_value varint (bytes v ++ rest) ≡ ok (v, rest)
  unfolding next_value
  next_value-bytes v rest h =
      rw (codec.reads v rest h, length-append (bytes v) rest)
        (ground (arith, drop-length (bytes v) rest))

  event_bytes : Acknowledgment → List ℕ
  event_bytes p =
      bytes p.seq_nr ++ (bytes (to_uint64 (unix_micro p.arrival)) ++ bytes (marked_value p.marked))

  append_event_lem :
      (buf : List ℕ) (p : Acknowledgment) → append_event varint buf p ≡ buf ++ event_bytes p
  unfolding append_event event_bytes
  append_event_lem buf p =
      let first = varint.append buf p.seq_nr in
      let micro = to_uint64 (unix_micro p.arrival) in
      rw
        (
          codec.appends (varint.append first micro) (marked_value p.marked),
          codec.appends first micro,
          codec.appends buf p.seq_nr,
        )
        (simp append_assoc)

  read_event-event_bytes :
      (p : Acknowledgment) (rest : List ℕ)
      → Fits p
      → read_event varint (event_bytes p ++ rest) ≡ ok (received p, rest)
  unfolding read_event event_bytes
  read_event-event_bytes p rest fits = rw (
    append_assoc,
    append_assoc,
    next_value-bytes p.seq_nr _ fits.0,
    next_value-bytes (to_uint64 (unix_micro p.arrival)) _ (micro-lt p.arrival fits.1),
    next_value-bytes (marked_value p.marked) rest (marked_value-lt p.marked),
    to_int64-micro p.arrival fits.1,
    marked_value-eq_one p.marked,
  )

  all_bytes : List Acknowledgment → List ℕ
  all_bytes [] = []
  all_bytes (p ∷ ps) = event_bytes p ++ all_bytes ps

  append_events_lem :
      (buf : List ℕ) (events more : List Acknowledgment)
      → append_events varint buf (events ++ more) (length events) ≡ some (buf ++ all_bytes events)
  unfolding append_events all_bytes
  append_events_lem buf [] more = rw append-nil
  append_events_lem buf (p ∷ events) more =
      rw
        (append_event_lem buf p, append_events_lem (buf ++ event_bytes p) events more, append_assoc)

  read_events-all_bytes :
      (events acc : List Acknowledgment)
      → All Fits events
      → read_events varint (length events) (all_bytes events) acc ≡ ok (acc ++ map received events)
  unfolding read_events all_bytes
  read_events-all_bytes [] acc fits = rw append-nil
  read_events-all_bytes (p ∷ events) acc fits = rw (
    read_event-event_bytes p (all_bytes events) fits.0,
    read_events-all_bytes events (acc ++ received p ∷ []) fits.1,
    append_assoc,
  )

  -- Given a codec whose `Parse` reads back what `Append` wrote, and fewer than 2 ^ 62 acknowledgments
  -- whose numbers fit in 62 bits at the front of the channel, whatever comes after them, `Marshal` of
  -- as many makes a message, and `UnmarshalFeedback` reads them back from it in order, all of them as
  -- arrived and with their times rounded down to microseconds.
  pub unmarshal_feedback-marshal :
      (events more : List Acknowledgment)
      → All Fits events
      → length events < 2 ^ 62
      → (buf : List ℕ) × (marshal varint (events ++ more) (length events) ≡ some buf)
        × (unmarshal_feedback varint buf ≡ ok (map received events))
  unfolding marshal unmarshal_feedback
  unmarshal_feedback-marshal events more fits few = (
    bytes (length events) ++ all_bytes events,
    append_events_lem (bytes (length events)) events more,
    rw (
      next_value-bytes (length events) (all_bytes events) few,
      read_events-all_bytes events [] fits,
    ),
  )
