-- ===== src/Quic/PacketEvents.antt =====
-- internal/quictransport/packetEvents.go: acknowledgments as a sequence of QUIC variable-length
-- integers, written and read back. The integers are those of quic-go's package quicvarint, which is
-- a parameter; so is the behaviour of it that the theorems need.
pub mod Laws
pub mod RoundTrip
pub mod Truncation
use mrtp.Prelude.{
  ℕ, zero, suc, ◌+◌, ◌-◌, ◌*◌, ◌/◌, ◌<◌, List, [], ◌∷◌, ◌++◌, Bool, true, false, Option, none, some,
  if◌then◌else◌, ◌==◌, ltb, length, drop,
}
use mrtp.Prelude.Int.{ℤ, pos, negsuc, ltb_ℤ, pos_part, to_uint64, to_int64}

-- The fields of nada's `Acknowledgment` that the two functions use. A time is in nanoseconds since
-- the Unix epoch.
pub record Acknowledgment : Type 0 where
  pub seq_nr : ℕ
  pub arrived : Bool
  pub arrival : ℤ
  pub marked : Bool

-- `quicvarint.Append(buf, v)`, and the value, count and success of `quicvarint.Parse(buf)`.
pub record QuicVarint : Type 0 where
  pub append : List ℕ → ℕ → List ℕ
  pub parse : List ℕ → ℕ × ℤ × Bool

pub data Result {ℓ} (A : Type ℓ) : Type ℓ where
  ok : A → Result A
  -- `return nil, err`, and whether `err` is nil
  fail : Bool → Result A
  -- a slice out of range
  panic : Result A

infixl 5 ◌>>=◌
abbrev pub ◌>>=◌ {ℓ κ} : {A : Type ℓ} {B : Type κ} → Result A → (A → Result B) → Result B
ok a >>= f = f a
fail e >>= f = fail e
panic >>= f = panic

-- `Time.UnixMicro` rounds down.
abbrev pub unix_micro : ℤ → ℤ
unix_micro (pos n) = pos (n / 1000)
unix_micro (negsuc n) = negsuc (n / 1000)

-- `time.UnixMicro(m)`.
abbrev pub time_of_micro : ℤ → ℤ
time_of_micro (pos n) = pos (n * 1000)
time_of_micro (negsuc n) = negsuc (n * 1000 + 999)

abbrev pub marked_value : Bool → ℕ
marked_value true = 1
marked_value false = 0

module _ (varint : QuicVarint) where
  open varint use {append, parse}

  -- The body of the loop of `Marshal`.
  unfoldable pub append_event : List ℕ → Acknowledgment → List ℕ
  append_event buf p =
      append (append (append buf p.seq_nr) (to_uint64 (unix_micro p.arrival)))
        (marked_value p.marked)

  -- `for range readLen`, over what the channel will deliver; `none` is a receive that blocks.
  unfoldable pub append_events : List ℕ → List Acknowledgment → ℕ → Option (List ℕ)
  append_events buf events zero = some buf
  append_events buf [] (suc n) = none
  append_events buf (p ∷ events) (suc n) = append_events (append_event buf p) events n

  unfoldable pub marshal : List Acknowledgment → ℕ → Option (List ℕ)
  marshal events read_len = append_events (append [] read_len) events read_len

  -- `v, n, err := quicvarint.Parse(buf); if n < 0 { return nil, err }; buf = buf[n:]`.
  unfoldable pub next_value : List ℕ → Result (ℕ × List ℕ)
  next_value buf =
      let (v, n, fine) = parse buf in
      if ltb_ℤ n (pos 0)
      then fail fine
      else if ltb (length buf) (pos_part n)
      then panic
      else ok (v, drop (pos_part n) buf)

  unfoldable pub read_event : List ℕ → Result (Acknowledgment × List ℕ)
  read_event buf = do
    (seq_nr, buf₁) ← next_value buf
    (micro, buf₂) ← next_value buf₁
    (marked, buf₃) ← next_value buf₂
    ok (
      record {
        seq_nr = seq_nr;
        arrived = true;
        arrival = time_of_micro (to_int64 micro);
        marked = marked == 1;
      },
      buf₃,
    )

  -- `for range numPackets`, with the list that `append` grows.
  unfoldable pub read_events : ℕ → List ℕ → List Acknowledgment → Result (List Acknowledgment)
  read_events zero buf events = ok events
  read_events (suc n) buf events = do
    (p, rest) ← read_event buf
    read_events n rest (events ++ p ∷ [])

  unfoldable pub unmarshal_feedback : List ℕ → Result (List Acknowledgment)
  unmarshal_feedback buf = do (num_packets, rest) ← next_value buf; read_events num_packets rest []
