-- ===== src/Slices.antt =====
-- What internal/quictransport/transport.go uses of Go's package slices: `BinarySearchFunc`, `Insert`
-- and `Delete`, on slices that are lists.
pub mod Partition
use mrtp.Prelude.{
  ℕ, zero, suc, ◌+◌, ◌/◌, ◌<◌, ◌≡◌, List, [], ◌∷◌, ◌++◌, Bool, true, false, ◌&&◌, Option, none,
  some, ltb, length, get_elem?, take, drop,
}
use mrtp.Prelude.Int.{ℤ, pos, negsuc, ltb_ℤ}

abbrev pub is_zero : ℤ → Bool
is_zero (pos zero) = true
is_zero (pos (suc n)) = false
is_zero (negsuc n) = false

-- `for i < j { h := (i + j) >> 1; ... }` over a test of the entry at an index. Each round shrinks
-- `j - i`, so the length of the slice is enough fuel.
unfoldable pub search_loop : ℕ → (ℕ → Bool) → ℕ → ℕ → ℕ
search_loop zero below i j = i
search_loop (suc fuel) below i j = elim (ltb i j) [
  | false ↦ i
  | true ↦ elim (below ((i + j) / 2)) [
    | true ↦ search_loop fuel below ((i + j) / 2 + 1) j
    | false ↦ search_loop fuel below i ((i + j) / 2)
  ]
]

module _ {ℓ} {A : Type ℓ} where
  -- A test of the entry at an index. The search reads no index out of range.
  abbrev pub at : (A → Bool) → List A → ℕ → Bool
  at test xs h = elim (get_elem? xs h) [ none ↦ false | some a ↦ test a ]

  -- `slices.BinarySearchFunc(xs, target, cmp)`, with `cmp` taken at the target.
  unfoldable pub binary_search : List A → (A → ℤ) → ℕ × Bool
  binary_search xs cmp =
      let i = search_loop (length xs) (at (λ a. ltb_ℤ (cmp a) (pos 0)) xs) 0 (length xs) in
      (i, ltb i (length xs) && at (λ a. is_zero (cmp a)) xs i)

  -- `slices.Insert(xs, i, v)`.
  unfoldable pub insert_at : ℕ → A → List A → List A
  insert_at i v xs = take i xs ++ v ∷ drop i xs

  -- `slices.Delete(xs, i, i+1)`.
  unfoldable pub delete_at : ℕ → List A → List A
  delete_at i xs = take i xs ++ drop (suc i) xs

  -- An assignment to fields of `xs[i]`.
  unfoldable pub modify_at : ℕ → (A → A) → List A → List A
  modify_at i f [] = []
  modify_at zero f (x ∷ xs) = f x ∷ xs
  modify_at (suc i) f (x ∷ xs) = x ∷ modify_at i f xs
