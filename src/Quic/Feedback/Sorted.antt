-- ===== src/Quic/Feedback/Sorted.antt =====
-- Feedback lists in ascending order of sequence number, which internal/quictransport/transport.go
-- searches, and where a number belongs in one.
use mrtp.Prelude.{
  ℕ, zero, suc, ◌^◌, ◌≤◌, ◌<◌, ◌≡◌, refl, List, [], ◌∷◌, Bool, true, false, ◌&&◌, Option, none,
  some, ltb, ◌==◌, if◌then◌else◌, length, get_elem?, arith,
}
use mrtp.Prelude.Int.{pos, ltb_ℤ, sub64}
use mrtp.Slices.{is_zero, at, binary_search}
use mrtp.Slices.Partition.{search_loop_lem}
use mrtp.Quic.Feedback.{PacketFeedback, cmp_seq, find_seq}

-- QUIC packet numbers are below 2 ^ 62.
abbrev pub max_seq : ℕ
max_seq = 2 ^ 62

-- Strictly ascending from `lo` on.
abbrev pub Ascending : ℕ → List PacketFeedback → Type 0
Ascending lo [] = Unit {0}
Ascending lo (f ∷ fs) = (lo ≤ f.seq_nr) × (f.seq_nr < max_seq) × Ascending (suc f.seq_nr) fs

pub Ascending-mono :
    {lo lo' : ℕ} (fs : List PacketFeedback) → lo' ≤ lo → Ascending lo fs → Ascending lo' fs
Ascending-mono [] h a = tt
Ascending-mono (f ∷ fs) h a = (omega arith, a.1, a.2)

-- How many entries lie below `seq`.
unfoldable pub rank : ℕ → List PacketFeedback → ℕ
rank seq [] = 0
rank seq (f ∷ fs) = if ltb f.seq_nr seq then suc (rank seq fs) else 0

pub rank-le : (seq : ℕ) (fs : List PacketFeedback) → rank seq fs ≤ length fs
unfolding rank
rank-le seq [] = omega arith
rank-le seq (f ∷ fs) = ground (arith, rank-le seq fs)

-- The wrapped difference has the sign of the true one.
cmp_seq-lt :
    (seq : ℕ) (f : PacketFeedback)
    → seq < max_seq
    → f.seq_nr < max_seq
    → ltb_ℤ (cmp_seq seq f) (pos 0) ≡ ltb f.seq_nr seq
cmp_seq-lt seq f h k = ground arith

pub is_zero_lem : (n : ℕ) → is_zero (pos n) ≡ (n == 0)
is_zero_lem zero = refl
is_zero_lem (suc n) = ground arith

cmp_seq-zero :
    (seq : ℕ) (f : PacketFeedback)
    → seq < max_seq
    → f.seq_nr < max_seq
    → is_zero (cmp_seq seq f) ≡ (f.seq_nr == seq)
cmp_seq-zero seq f h k = ground (arith, is_zero_lem (sub64 f.seq_nr seq))

rank_above : (seq lo : ℕ) (fs : List PacketFeedback) → Ascending lo fs → seq ≤ lo → rank seq fs ≡ 0
unfolding rank
rank_above seq lo [] a h = refl
rank_above seq lo (f ∷ fs) a h = ground arith

split_at-rank :
    (seq lo : ℕ) (fs : List PacketFeedback) (h : ℕ)
    → seq < max_seq
    → Ascending lo fs
    → h < length fs
    → at (λ f. ltb_ℤ (cmp_seq seq f) (pos 0)) fs h ≡ ltb h (rank seq fs)
unfolding rank
split_at-rank seq lo [] h s a l = absurd (omega arith)
split_at-rank seq lo (f ∷ fs) zero s a l = ground (arith, cmp_seq-lt seq f)
split_at-rank seq lo (f ∷ fs) (suc h) s a l =
    rw (split_at-rank seq (suc f.seq_nr) fs h s a.2 (omega arith))
      (ground (arith, rank_above seq (suc f.seq_nr) fs a.2))

-- The entry with a sequence number.
unfoldable pub find? : ℕ → List PacketFeedback → Option PacketFeedback
find? seq [] = none
find? seq (f ∷ fs) = if f.seq_nr == seq then some f else find? seq fs

abbrev pub is_some {ℓ} : {A : Type ℓ} → Option A → Bool
is_some none = false
is_some (some a) = true

pub find?_above :
    (seq lo : ℕ) (fs : List PacketFeedback) → Ascending lo fs → seq < lo → find? seq fs ≡ none
unfolding find?
find?_above seq lo [] a h = refl
find?_above seq lo (f ∷ fs) a h = ground (arith, find?_above seq (suc f.seq_nr) fs)

found_at-rank :
    (seq lo : ℕ) (fs : List PacketFeedback)
    → seq < max_seq
    → Ascending lo fs
    → (ltb (rank seq fs) (length fs) && at (λ f. is_zero (cmp_seq seq f)) fs (rank seq fs))
      ≡ is_some (find? seq fs)
unfolding rank find?
found_at-rank seq lo [] s a = ground arith
found_at-rank seq lo (f ∷ fs) s a = ground (
  arith,
  found_at-rank seq (suc f.seq_nr) fs,
  cmp_seq-zero seq f,
  find?_above seq (suc f.seq_nr) fs,
)

-- In a list of strictly ascending numbers, the binary search for a number below 2 ^ 62 returns how many
-- entries are below it, and whether the list has it, as a linear search tells.
pub find_seq_lem :
    (seq lo : ℕ) (fs : List PacketFeedback)
    → seq < max_seq
    → Ascending lo fs
    → find_seq seq fs ≡ (rank seq fs, is_some (find? seq fs))
unfolding find_seq binary_search
find_seq_lem seq lo fs s a = rw (
  search_loop_lem (length fs) (at (λ f. ltb_ℤ (cmp_seq seq f) (pos 0)) fs) (rank seq fs) (length fs)
      0 (length fs) (λ h. λ l. split_at-rank seq lo fs h s a l) (omega arith) (rank-le seq fs)
      (omega arith) (omega arith),
  found_at-rank seq lo fs s a,
)

pub get_elem?-rank :
    (seq lo : ℕ) (fs : List PacketFeedback) {f : PacketFeedback}
    → Ascending lo fs
    → find? seq fs ≡ some f
    → get_elem? fs (rank seq fs) ≡ some f
unfolding rank find?
get_elem?-rank seq lo [] a h = cc
get_elem?-rank seq lo (g ∷ fs) {f} a h =
    ground (
      arith,
      get_elem?-rank seq (suc g.seq_nr) fs {f = f} a.2,
      find?_above seq (suc g.seq_nr) fs a.2,
    )
