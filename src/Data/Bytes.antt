-- ===== src/Data/Bytes.antt =====
-- Go's `binary.BigEndian`, as data/source.go and data/sink.go use it.
use mrtp.Prelude.{ℕ, ◌+◌, ◌*◌, ◌/◌, ◌%◌, ◌^◌, ◌≡◌, refl, List, [], ◌∷◌, length, arith}

-- `PutUint64` into an empty slice of eight bytes.
unfoldable pub put_uint64 : ℕ → List ℕ
put_uint64 n =
    n / 2 ^ 56 % 256
    ∷ n / 2 ^ 48 % 256
    ∷ n / 2 ^ 40 % 256
    ∷ n / 2 ^ 32 % 256
    ∷ n / 2 ^ 24 % 256
    ∷ n / 2 ^ 16 % 256
    ∷ n / 2 ^ 8 % 256
    ∷ n % 256
    ∷ []

abbrev value_from : ℕ → List ℕ → ℕ
value_from acc [] = acc
value_from acc (b ∷ bs) = value_from (acc * 256 + b) bs

-- `Uint64` of a slice of eight bytes.
unfoldable pub uint64_of : List ℕ → ℕ
uint64_of bs = value_from 0 bs

pub length-put_uint64 : (n : ℕ) → length (put_uint64 n) ≡ 8
unfolding put_uint64
length-put_uint64 n = refl

pub uint64_of-put_uint64 : (n : ℕ) → uint64_of (put_uint64 n) ≡ n % 2 ^ 64
unfolding put_uint64 uint64_of
uint64_of-put_uint64 n = omega arith
