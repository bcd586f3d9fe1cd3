-- ===== src/Quic/PacketEvents/Laws.antt =====
-- What internal/quictransport/packetEvents.go relies on in quicvarint.
use mrtp.Prelude.{ℕ, ◌^◌, ◌<◌, ◌≤◌, ◌≡◌, List, [], ◌++◌, true, length}
use mrtp.Prelude.Int.{pos, pos_part, ◌≤ℤ◌}
use mrtp.Quic.PacketEvents.{QuicVarint}

-- `Append` appends an encoding that does not depend on the buffer, and `Parse` reads a number below
-- 2 ^ 62 back from the front of a buffer, with the length of its encoding.
pub record Codec (varint : QuicVarint) : Type 0 where
  pub appends : (buf : List ℕ) (v : ℕ) → varint.append buf v ≡ buf ++ varint.append [] v
  pub reads :
      (v : ℕ) (rest : List ℕ)
      → v < 2 ^ 62
      → varint.parse (varint.append [] v ++ rest) ≡ (v, pos (length (varint.append [] v)), true)

-- The count of `Parse` is a number of bytes consumed: neither negative, nor past the buffer.
abbrev pub CountsBytes : QuicVarint → Type 0
CountsBytes varint =
    (buf : List ℕ) → (pos 0 ≤ℤ (varint.parse buf).1) × (pos_part (varint.parse buf).1 ≤ length buf)
