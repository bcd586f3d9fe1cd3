-- ===== src/Gopipe/Y4mSource/Tests.antt =====
-- A concrete run of gopipe/y4m_source.go.
use mrtp.Prelude.{ℕ, ◌≡◌, refl, List, [], ◌∷◌, arith}
use mrtp.Prelude.Int.{ℤ, pos}
use mrtp.Gopipe.Attributes.{ratio420, ok}
use mrtp.Gopipe.FakeSource.{write_fake}
use mrtp.Gopipe.FakeSource.Frames.{traced}
use mrtp.Gopipe.Y4mSource.{
  StreamHeader, FrameRead, got_frame, end_of_file, cst420jpeg, convert_subsample_ratio, returns,
  start_y4m,
}
use mrtp.Gopipe.Y4mSource.Frames.{ReadsStream, numbered, ticks_of, start_y4m-numbered}

abbrev next_of : List (List ℕ) → List (List ℕ) × FrameRead
next_of [] = ([], end_of_file)
next_of (b ∷ bs) = (bs, got_frame b)

next_of-ReadsStream : ReadsStream next_of (λ r. r)
next_of-ReadsStream = record {
  read_end = λ r l. rw l refl;
  read_frame = λ r b bs l. rw l (refl, refl);
}

abbrev two_by_one : StreamHeader
two_by_one = record {
  width = pos 2;
  height = pos 1;
  numerator = pos 25;
  denominator = pos 1;
  chroma = cst420jpeg;
}

abbrev forty_ms : ℤ → ℤ → ℤ
forty_ms n d = pos 40_000_000

abbrev two_frames : List (List ℕ)
two_frames = (1 ∷ 2 ∷ []) ∷ (3 ∷ 4 ∷ []) ∷ []

start_y4m-numbered_example :
    (let x =
        start_y4m next_of forty_ms
          (traced {W = ℕ} write_fake)
          two_by_one
          (ticks_of 3)
          two_frames
          (5, []) in
      (x.1 ≡ returns (ok tt)) × (x.0.1.1 ≡ numbered ratio420 40_000_000 0 two_frames))
unfolding convert_subsample_ratio write_fake
start_y4m-numbered_example =
    start_y4m-numbered next_of forty_ms (λ r. r) write_fake two_by_one ratio420 40_000_000
      two_frames two_frames 5 next_of-ReadsStream (λ b a w. refl) refl refl (omega arith) refl
