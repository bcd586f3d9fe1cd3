-- ===== src/Slices/Partition.antt =====
-- The binary search of Go's package slices, over a test that turns from true to false.
use mrtp.Prelude.{
  ℕ, zero, suc, ◌+◌, ◌-◌, ◌/◌, ◌≤◌, ◌<◌, ◌≡◌, Bool, inl, inr, ltb, Bool-cases, arith,
}
use mrtp.Slices.{search_loop}

-- On a test that holds exactly below `k`, the loop from any bounds around `k` ends at `k`.
pub search_loop_lem :
    (fuel : ℕ) (below : ℕ → Bool) (k n i j : ℕ)
    → ((h : ℕ) → h < n → below h ≡ ltb h k)
    → i ≤ k
    → k ≤ j
    → j ≤ n
    → j - i ≤ fuel
    → search_loop fuel below i j ≡ k
unfolding search_loop
search_loop_lem zero below k n i j split lo hi top enough = omega arith
search_loop_lem (suc fuel) below k n i j split lo hi top enough = elim (Bool-cases (ltb i j)) [
  | inl more ↦ ground (
    arith,
    split ((i + j) / 2),
    search_loop_lem fuel below k n ((i + j) / 2 + 1) j split,
    search_loop_lem fuel below k n i ((i + j) / 2) split,
  )
  | inr done ↦ ground arith
]
