-- ===== src/Data/Works.antt =====
-- What data/source.go relies on of its writer, its limiter and its file when nothing fails.
use mrtp.Prelude.{ℕ, ◌≤◌, ◌<◌, ◌≡◌, List, [], ◌∷◌, ◌++◌, true, false, some, length}
use mrtp.Prelude.Int.{ℤ}
use mrtp.Data.Bin.{read_ok, read_eof, World}

abbrev pub concat : List (List ℕ) → List ℕ
concat [] = []
concat (b ∷ bs) = b ++ concat bs

abbrev pub IsBlock : List ℕ → Type 0
IsBlock b = (0 < length b) × (length b ≤ 1024)

-- A world where no call fails: `file` is what is left of the file, `sent` what was written, one entry for
-- each call. A read gives some bytes, as many as it likes, or is at the end of the file.
pub record Works {W : Type 0} (world : World W) (file : W → List ℕ) (sent : W → List (List ℕ))
    : Type 0 where
  pub write_ok :
      (b : List ℕ) (w : W)
      → ((world.write b w).1 ≡ true)
        × ((file (world.write b w).0 ≡ file w) × (sent (world.write b w).0 ≡ sent w ++ b ∷ []))
  pub close_ok : (w : W) → ((world.close w).1 ≡ true) × (sent (world.close w).0 ≡ sent w)
  pub never_done :
      (w : W)
      → ((world.is_done w).1 ≡ false)
        × ((file (world.is_done w).0 ≡ file w) × (sent (world.is_done w).0 ≡ sent w))
  pub wait_ok :
      (n : ℕ) (w : W)
      → ((world.wait_n n w).1 ≡ true)
        × ((file (world.wait_n n w).0 ≡ file w) × (sent (world.wait_n n w).0 ≡ sent w))
  pub sleep_ok :
      (t : ℤ) (w : W)
      → ((world.sleep t w).1 ≡ true)
        × ((file (world.sleep t w).0 ≡ file w) × (sent (world.sleep t w).0 ≡ sent w))
  pub open_ok :
      (path : List ℕ) (w : W)
      → ((world.open_file path w).1 ≡ true)
        × ((file (world.open_file path w).0 ≡ file w) × (sent (world.open_file path w).0 ≡ sent w))
  pub size_ok :
      (w : W)
      → ((world.file_size w).1 ≡ some (length (file w)))
        × ((file (world.file_size w).0 ≡ file w) × (sent (world.file_size w).0 ≡ sent w))
  pub read_some :
      (n : ℕ) (w : W)
      → 0 < n
      → 0 < length (file w)
      → (b : List ℕ) × (((world.read_file n w).1 ≡ (b, read_ok))
          × (((0 < length b) × (length b ≤ n))
              × ((file w ≡ b ++ file (world.read_file n w).0)
                  × (sent (world.read_file n w).0 ≡ sent w))))
  pub read_end :
      (n : ℕ) (w : W)
      → file w ≡ []
      → ((world.read_file n w).1 ≡ ([], read_eof)) × (sent (world.read_file n w).0 ≡ sent w)
