-- ===== src/Data/Chunks/Messages.antt =====
-- The messages of `startChunkSource` in data/source.go, and what its goroutines have yet to write.
use mrtp.Prelude.{
  ℕ, zero, suc, ◌+◌, ◌*◌, ◌≤◌, ◌≡◌, refl, ap, List, [], ◌∷◌, ◌++◌, true, some, length, get_elem?,
  All, arith,
}
use mrtp.Data.Bytes.{put_uint64}
use mrtp.Data.Chunks.{
  Position, starting, limiting, writing, done, blocks_of_chunk, block_size, zeros, set_at, all_done,
}

-- 100000 as eight bytes.
abbrev pub size_header : List ℕ
size_header = 0 ∷ 0 ∷ 0 ∷ 0 ∷ 0 ∷ 1 ∷ 134 ∷ 160 ∷ []

abbrev pub IsZeroBlock : List ℕ → Type 0
IsZeroBlock b = (length b ≡ 1000) × All (λ x. x ≡ 0) b

-- Messages that are `h` size headers and `b` blocks of a thousand zeros, in some order.
pub data Consists : ℕ → ℕ → List (List ℕ) → Type 0 where
  empty : Consists 0 0 []
  and_size :
      {h b : ℕ} {ms : List (List ℕ)} → Consists h b ms → Consists (suc h) b (ms ++ size_header ∷ [])
  and_block :
      {h b : ℕ} {ms : List (List ℕ)} (m : List ℕ)
      → Consists h b ms
      → IsZeroBlock m
      → Consists h (suc b) (ms ++ m ∷ [])

-- The sizes and the blocks that a goroutine has yet to write.
abbrev pub sizes_left : Position → ℕ
sizes_left starting = 1
sizes_left _ = 0

abbrev pub blocks_left : Position → ℕ
blocks_left starting = 100
blocks_left limiting = 100
blocks_left (writing n) = n
blocks_left done = 0

abbrev pub sum : (Position → ℕ) → List Position → ℕ
sum f [] = 0
sum f (p ∷ ps) = f p + sum f ps

pub sum-set_at :
    (f : Position → ℕ) (ps : List Position) (i : ℕ) (p q : Position)
    → get_elem? ps i ≡ some p
    → sum f (set_at ps i q) + f p ≡ sum f ps + f q
sum-set_at f [] i p q e = absurd cc
sum-set_at f (x ∷ ps) zero p q e = (let e' : x ≡ p = cc in rw e' (omega arith))
sum-set_at f (x ∷ ps) (suc i) p q e = omega (arith, sum-set_at f ps i p q e)

pub sum-append :
    (f : Position → ℕ) (ps : List Position) (p : Position) → sum f (ps ++ p ∷ []) ≡ sum f ps + f p
sum-append f [] p = omega arith
sum-append f (x ∷ ps) p = omega (arith, sum-append f ps p)

pub sum-all_done :
    (f : Position → ℕ) (ps : List Position) → f done ≡ 0 → all_done ps ≡ true → sum f ps ≡ 0
sum-all_done f [] z e = refl
sum-all_done f (done ∷ ps) z e = omega (arith, z, sum-all_done f ps z e)
sum-all_done f (starting ∷ ps) z e = absurd cc
sum-all_done f (limiting ∷ ps) z e = absurd cc
sum-all_done f (writing n ∷ ps) z e = absurd cc

pub sum-left : (ps : List Position) → 100 * sum sizes_left ps ≤ sum blocks_left ps
sum-left [] = omega arith
sum-left (starting ∷ ps) = omega (arith, sum-left ps)
sum-left (limiting ∷ ps) = omega (arith, sum-left ps)
sum-left (writing n ∷ ps) = omega (arith, sum-left ps)
sum-left (done ∷ ps) = omega (arith, sum-left ps)

pub length-set_at : (ps : List Position) (i : ℕ) (q : Position) → length (set_at ps i q) ≡ length ps
length-set_at [] i q = refl
length-set_at (x ∷ ps) zero q = refl
length-set_at (x ∷ ps) (suc i) q = ap suc (length-set_at ps i q)

pub get_elem?-all_done :
    (ps : List Position) (i : ℕ) (p : Position)
    → all_done ps ≡ true
    → get_elem? ps i ≡ some p
    → p ≡ done
get_elem?-all_done [] i p e g = absurd cc
get_elem?-all_done (done ∷ ps) zero p e g = cc
get_elem?-all_done (done ∷ ps) (suc i) p e g = get_elem?-all_done ps i p e g
get_elem?-all_done (starting ∷ ps) i p e g = absurd cc
get_elem?-all_done (limiting ∷ ps) i p e g = absurd cc
get_elem?-all_done (writing n ∷ ps) i p e g = absurd cc

pub zeros-are_zero : (n : ℕ) → All (λ x. x ≡ 0) (zeros n)
zeros-are_zero zero = tt
zeros-are_zero (suc n) = (refl, zeros-are_zero n)

pub length-zeros : (n : ℕ) → length (zeros n) ≡ n
length-zeros zero = refl
length-zeros (suc n) = ap suc (length-zeros n)

pub put_uint64-size_header : put_uint64 (blocks_of_chunk * block_size) ≡ size_header
unfolding put_uint64
put_uint64-size_header = refl
