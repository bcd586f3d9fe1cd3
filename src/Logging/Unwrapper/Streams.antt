-- ===== src/Logging/Unwrapper/Streams.antt =====
-- Whole streams of numbers through `Unwrap` of internal/logging/unwrapper.go.
use mrtp.Prelude.{ℕ, ◌+◌, ◌%◌, ◌<◌, ◌≡◌, refl, ap, List, [], ◌∷◌, map, arith}
use mrtp.Prelude.Int.{pos}
use mrtp.Logging.Unwrapper.{new_unwrapper, unwrap, unwrap_all}
use mrtp.Logging.Unwrapper.Steps.{unwrapped, unwrap_near}

-- Each number is less than 32768 away from the one before it.
abbrev pub Near : ℕ → List ℕ → Type 0
Near n [] = Unit {0}
Near n (m ∷ ms) = (m < n + 32768) × (n < m + 32768) × Near m ms

abbrev pub wrap : ℕ → ℕ
wrap n = n % 65536

unwrap_all-Near :
    (n : ℕ) (ms : List ℕ) → Near n ms → unwrap_all (unwrapped n) (map wrap ms) ≡ map pos ms
unfolding unwrap_all
unwrap_all-Near n [] near = refl
unwrap_all-Near n (m ∷ ms) near =
    rw (unwrap_near n m near.0 near.1) (ap (◌∷◌ (pos m)) (unwrap_all-Near m ms near.2))

unwrap_first : (n : ℕ) → n < 65536 → unwrap new_unwrapper (wrap n) ≡ (unwrapped n, pos n)
unfolding unwrap
unwrap_first n h = ground arith

-- A new unwrapper restores a stream of numbers, that starts below 65536 and moves by less than 32768
-- at each step, forwards or back, from their low 16 bits.
pub unwrap_all-wrap :
    (n : ℕ) (ms : List ℕ)
    → n < 65536
    → Near n ms
    → unwrap_all new_unwrapper (map wrap (n ∷ ms)) ≡ map pos (n ∷ ms)
unfolding unwrap_all
unwrap_all-wrap n ms small near =
    rw (unwrap_first n small) (ap (◌∷◌ (pos n)) (unwrap_all-Near n ms near))
