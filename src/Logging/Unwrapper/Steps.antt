-- ===== src/Logging/Unwrapper/Steps.antt =====
-- One call of `Unwrap` of internal/logging/unwrapper.go after the first.
use mrtp.Prelude.{ℕ, ◌+◌, ◌%◌, ◌≤◌, ◌<◌, ◌≡◌, ◌⊎◌, true, arith}
use mrtp.Prelude.Int.{pos, pos_part, ◌+ℤ◌, ◌-ℤ◌}
use mrtp.Logging.Unwrapper.{Unwrapper, unwrap}

-- An unwrapper whose last number is `n`.
abbrev pub unwrapped : ℕ → Unwrapper
unwrapped n = record { init = true; last_unwrapped = pos n }

-- From a last number that is not negative, a 16-bit number is unwrapped to a number that is not
-- negative, becomes the last one, has the given number as its low 16 bits, is at most 32768 back, and
-- at most 32768 ahead unless it is below 65536.
unwrap_bounds :
    (n i : ℕ)
    → i < 65536
    → let m = pos_part (unwrap (unwrapped n) i).1 in
      (unwrap (unwrapped n) i ≡ (unwrapped m, pos m))
      × (m % 65536 ≡ i)
      × (n ≤ m + 32768)
      × ((m ≤ n + 32768) ⊎ (m < 65536))
unfolding unwrap ◌+ℤ◌ ◌-ℤ◌
unwrap_bounds n i h = ground arith

-- A true number `m` at a distance of less than 32768 is found from its low 16 bits.
pub unwrap_near :
    (n m : ℕ)
    → m < n + 32768
    → n < m + 32768
    → unwrap (unwrapped n) (m % 65536) ≡ (unwrapped m, pos m)
unfolding unwrap ◌+ℤ◌ ◌-ℤ◌
unwrap_near n m up down = ground arith
