-- ===== src/Gopipe/IvfDataSource/Reads.antt =====
-- The frames that reads of gopipe/ivf_data_source.go give up to the first error.
use mrtp.Prelude.{
  ℕ, zero, suc, ◌<◌, ◌≡◌, refl, ap, List, [], ◌∷◌, Option, none, some, take, length, arith,
}
use mrtp.Gopipe.IvfDataSource.{IvfFrame, IvfDataSource, new_ivf_data_source, read_ivf}

abbrev pub all_but_last : List IvfFrame → List IvfFrame
all_but_last [] = []
all_but_last (f ∷ []) = []
all_but_last (f ∷ (g ∷ fs)) = f ∷ all_but_last (g ∷ fs)

abbrev pub payloads_of : ℕ → List IvfFrame → List (List ℕ)
payloads_of n [] = []
payloads_of n (f ∷ fs) = take n f.payload ∷ payloads_of n fs

-- A reader that deals out the frames of a file and then fails.
pub record ReadsFrames {R : Type 0} (parse : R → R × Option IvfFrame) (left : R → List IvfFrame)
    : Type 0 where
  pub parse_end : (r : R) → left r ≡ [] → (parse r).1 ≡ none
  pub parse_frame :
      (r : R) (f : IvfFrame) (fs : List IvfFrame)
      → left r ≡ f ∷ fs
      → ((parse r).1 ≡ some f) × (left (parse r).0 ≡ fs)

module _ {R : Type 0} (parse : R → R × Option IvfFrame) where
  -- At most `fuel` reads of `n` bytes.
  abbrev pub read_all : ℕ → ℕ → IvfDataSource parse → List (List ℕ)
  read_all zero n s = []
  read_all (suc fuel) n s =
      let (s', b) = read_ivf parse n s in
      let rest = read_all fuel n s' in elim b [ none ↦ [] | some bytes ↦ bytes ∷ rest ]

  module _ (left : R → List IvfFrame) (reads : ReadsFrames parse left) where
    read_ivf_end :
        (n : ℕ) (s : IvfDataSource parse) → left s.reader ≡ [] → (read_ivf parse n s).1 ≡ none
    unfolding read_ivf
    read_ivf_end n s l = rw (read_ivf, reads.parse_end s.reader l) refl

    read_ivf_next :
        (n : ℕ) (s : IvfDataSource parse) (f : IvfFrame) (fs : List IvfFrame)
        → left s.reader ≡ f ∷ fs
        → read_ivf parse n s
          ≡ (record { reader = (parse s.reader).0; next = f }, some (take n s.next.payload))
    unfolding read_ivf
    read_ivf_next n s f fs l = rw (read_ivf, (reads.parse_frame s.reader f fs l).0) refl

    read_all-left :
        (fs : List IvfFrame) (fuel n : ℕ) (s : IvfDataSource parse)
        → left s.reader ≡ fs
        → length fs < fuel
        → read_all fuel n s ≡ payloads_of n (all_but_last (s.next ∷ fs))
    read_all-left fs zero n s l enough = absurd (omega (arith, enough))
    read_all-left [] (suc fuel) n s l enough = rw (read_all, read_ivf_end n s l) refl
    read_all-left (f ∷ fs) (suc fuel) n s l enough =
        let s' : IvfDataSource parse = record { reader = (parse s.reader).0; next = f } in
        let t = read_ivf_next n s f fs l in
        rw (read_all, t, t)
          (ap (λ bs. take n s.next.payload ∷ bs)
            (read_all-left fs fuel n s' (reads.parse_frame s.reader f fs l).1
              (omega (arith, enough))))

    read_new :
        (fs : List IvfFrame) (fuel n : ℕ) (f : IvfFrame) (r : R)
        → left r ≡ f ∷ fs
        → length fs < fuel
        → (s : IvfDataSource parse) × ((new_ivf_data_source parse r ≡ some s)
            × (read_all fuel n s ≡ payloads_of n (all_but_last (f ∷ fs))))
    unfolding new_ivf_data_source
    read_new fs fuel n f r l enough =
        let (e, l') = reads.parse_frame r f fs l in
        let s : IvfDataSource parse = record { reader = (parse r).0; next = f } in
        (s, (rw (new_ivf_data_source, e) refl, read_all-left fs fuel n s l' enough))

-- A source on a file with the frames `f` and `fs` can be made, and reads of it give the payloads, as far
-- as they fit the buffer, of all frames but the last, whose read fails.
pub read_ivf-all_but_last :
    {R : Type 0} (parse : R → R × Option IvfFrame) (left : R → List IvfFrame) (f : IvfFrame)
    (fs : List IvfFrame) (fuel n : ℕ) (r : R)
    → ReadsFrames parse left
    → left r ≡ f ∷ fs
    → length fs < fuel
    → (s : IvfDataSource parse) × ((new_ivf_data_source parse r ≡ some s)
        × (read_all parse fuel n s ≡ payloads_of n (all_but_last (f ∷ fs))))
read_ivf-all_but_last parse left f fs fuel n r reads l enough =
    read_new parse left reads fs fuel n f r l enough
