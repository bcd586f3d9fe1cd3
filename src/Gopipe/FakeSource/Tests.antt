-- ===== src/Gopipe/FakeSource/Tests.antt =====
-- A concrete run of gopipe/fake.go.
use mrtp.Prelude.{ℕ, ◌/◌, ◌≤◌, ◌≡◌, ◌≢◌, ◌⊎◌, List, [], ◌∷◌, true, length, arith}
use mrtp.Prelude.Int.{pos}
use mrtp.Gopipe.Attributes.{ok}
use mrtp.Gopipe.FakeSource.{
  Event, fires, receives, sets, FakeSource, new_fake_source, ms_to_next_frame, write_fake, returned,
  start_live,
}
use mrtp.Gopipe.FakeSource.Frames.{AreFrames, traced}
use mrtp.Gopipe.FakeSource.Runs.{start_live-AreFrames}

-- Two frames fit a tenth of a second; the rate is set in between.
abbrev two_frames : List Event
two_frames = fires ∷ sets 4800 ∷ receives 0 ∷ fires ∷ fires ∷ fires ∷ []

abbrev source : FakeSource
source = new_fake_source (pos 70_000_000) (pos 2400) (pos 7200) (pos 2400)

start_live-AreFrames_example :
    (let x = start_live (λ r. r) (traced {W = ℕ} write_fake) two_frames source (5, []) in
      AreFrames 2400 7200 0 x.1.1
      × ((length x.1.1 ≤ 70_000_000 / ms_to_next_frame)
          × ((length x.1.1 ≡ 70_000_000 / ms_to_next_frame)
              ⊎ ((x.0.state ≢ returned (ok tt)) ⊎ (x.0.done ≡ true)))))
start_live-AreFrames_example =
    start_live-AreFrames (λ r. r) write_fake 2400 7200 2400 70_000_000 two_frames 5 (omega arith)
      (omega arith)
