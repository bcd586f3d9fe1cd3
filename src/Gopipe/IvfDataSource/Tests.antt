-- ===== src/Gopipe/IvfDataSource/Tests.antt =====
-- A concrete run of gopipe/ivf_data_source.go.
use mrtp.Prelude.{ℕ, ◌≡◌, refl, List, [], ◌∷◌, Option, none, some, arith}
use mrtp.Gopipe.IvfDataSource.{IvfFrame, IvfDataSource, new_ivf_data_source}
use mrtp.Gopipe.IvfDataSource.Reads.{
  ReadsFrames, all_but_last, payloads_of, read_all, read_ivf-all_but_last,
}

abbrev parse_list : List IvfFrame → List IvfFrame × Option IvfFrame
parse_list [] = ([], none)
parse_list (f ∷ fs) = (fs, some f)

parse_list-ReadsFrames : ReadsFrames parse_list (λ r. r)
parse_list-ReadsFrames = record {
  parse_end = λ r l. rw l refl;
  parse_frame = λ r f fs l. rw l (refl, refl);
}

abbrev frame_of : ℕ → IvfFrame
frame_of n = record { header = n; payload = n ∷ n ∷ [] }

read_ivf-all_but_last_example :
    (s : IvfDataSource parse_list) × ((new_ivf_data_source parse_list (frame_of 1 ∷ frame_of 2 ∷ [])
        ≡ some s)
      × (read_all parse_list 5 100 s
          ≡ payloads_of 100 (all_but_last (frame_of 1 ∷ frame_of 2 ∷ []))))
read_ivf-all_but_last_example =
    read_ivf-all_but_last parse_list (λ r. r) (frame_of 1) (frame_of 2 ∷ []) 5 100
      (frame_of 1 ∷ frame_of 2 ∷ []) parse_list-ReadsFrames refl (omega arith)
