-- ===== src/Quic/Feedback/Edit.antt =====
-- Insertion, deletion and update at the position that a search returns, as the handlers of
-- internal/quictransport/transport.go do them.
use mrtp.Prelude.{
  ℕ, zero, suc, ◌≤◌, ◌<◌, ◌≡◌, List, [], ◌∷◌, none, some, ◌==◌, if◌then◌else◌, arith,
}
use mrtp.Slices.{insert_at, delete_at, modify_at}
use mrtp.Quic.Feedback.{PacketFeedback}
use mrtp.Quic.Feedback.Sorted.{max_seq, Ascending, Ascending-mono, rank, find?, find?_above}

module _ (seq : ℕ) (bound : seq < max_seq) where
  pub insert_at-Ascending :
      (lo : ℕ) (fs : List PacketFeedback) (f : PacketFeedback)
      → f.seq_nr ≡ seq
      → lo ≤ seq
      → Ascending lo fs
      → find? seq fs ≡ none
      → Ascending lo (insert_at (rank seq fs) f fs)
  unfolding insert_at rank find?
  insert_at-Ascending lo [] f e l a absent = omega arith
  insert_at-Ascending lo (g ∷ fs) f e l a absent =
      ground (arith, insert_at-Ascending (suc g.seq_nr) fs f e)

  pub find?-insert_at :
      (q : ℕ) (fs : List PacketFeedback) (f : PacketFeedback)
      → f.seq_nr ≡ seq
      → find? seq fs ≡ none
      → find? q (insert_at (rank seq fs) f fs) ≡ (if seq == q then some f else find? q fs)
  unfolding insert_at rank find?
  find?-insert_at q [] f e absent = ground arith
  find?-insert_at q (g ∷ fs) f e absent = ground (arith, find?-insert_at q fs f e)

  pub delete_at-Ascending :
      (lo : ℕ) (fs : List PacketFeedback)
      → Ascending lo fs
      → Ascending lo (delete_at (rank seq fs) fs)
  unfolding delete_at rank
  delete_at-Ascending lo [] a = tt
  delete_at-Ascending lo (g ∷ fs) a = ground (
    arith,
    delete_at-Ascending (suc g.seq_nr) fs,
    Ascending-mono {lo = suc g.seq_nr} {lo' = lo} fs,
  )

  pub find?-delete_at :
      (q lo : ℕ) (fs : List PacketFeedback) {f : PacketFeedback}
      → Ascending lo fs
      → find? seq fs ≡ some f
      → find? q (delete_at (rank seq fs) fs) ≡ (if seq == q then none else find? q fs)
  unfolding delete_at rank find?
  find?-delete_at q lo [] a h = cc
  find?-delete_at q lo (g ∷ fs) {f} a h = ground (
    arith,
    find?-delete_at q (suc g.seq_nr) fs {f = f} a.2,
    find?_above q (suc g.seq_nr) fs a.2,
    find?_above seq (suc g.seq_nr) fs a.2,
  )

  module _ (change : PacketFeedback → PacketFeedback)
      (keeps : (f : PacketFeedback) → (change f).seq_nr ≡ f.seq_nr) where
    pub modify_at-Ascending :
        (i lo : ℕ) (fs : List PacketFeedback)
        → Ascending lo fs
        → Ascending lo (modify_at i change fs)
    unfolding modify_at
    modify_at-Ascending i lo [] a = tt
    modify_at-Ascending zero lo (g ∷ fs) a = rw (keeps g) a
    modify_at-Ascending (suc i) lo (g ∷ fs) a =
        (a.0, a.1, modify_at-Ascending i (suc g.seq_nr) fs a.2)

    pub find?-modify_at :
        (q lo : ℕ) (fs : List PacketFeedback) {f : PacketFeedback}
        → Ascending lo fs
        → find? seq fs ≡ some f
        → find? q (modify_at (rank seq fs) change fs)
          ≡ (if seq == q then some (change f) else find? q fs)
    unfolding modify_at rank find?
    find?-modify_at q lo [] a h = cc
    find?-modify_at q lo (g ∷ fs) {f} a h = ground (
      arith,
      find?-modify_at q (suc g.seq_nr) fs {f = f} a.2,
      find?_above q (suc g.seq_nr) fs a.2,
      find?_above seq (suc g.seq_nr) fs a.2,
      keeps g,
    )
