-- ===== src/Data/Chunks.antt =====
-- The chunk source of data/source.go: `startChunkSource` starts a goroutine every five seconds, and each
-- writes a chunk of 100 blocks. The goroutines and the loop that starts them take their steps in any order.
pub mod Messages
pub mod Blocks
use mrtp.Prelude.{
  ℕ, zero, suc, ◌+◌, ◌*◌, ◌≡◌, List, [], ◌∷◌, ◌++◌, Bool, true, false, Option, none, some, not,
  length, ltb, ◌==◌, if◌then◌else◌, get_elem?,
}
use mrtp.Data.Bytes.{put_uint64}
use mrtp.Data.Bin.{SourceError, no_sink, not_closed, cancelled, World, DataBin}
use mrtp.Data.Source.{Turn, goes_on, ends, stopped}

-- Where a goroutine is: at its start, at the limiter, with a number of blocks left to write, or done.
pub data Position : Type 0 where
  starting : Position
  limiting : Position
  writing : ℕ → Position
  done : Position

abbrev pub chunks : ℕ
chunks = 15

abbrev pub blocks_of_chunk : ℕ
blocks_of_chunk = 100

abbrev pub block_size : ℕ
block_size = 1000

-- `make([]byte, n)`.
abbrev pub zeros : ℕ → List ℕ
zeros zero = []
zeros (suc n) = 0 ∷ zeros n

-- The goroutines in the order they were started, and how `startChunkSource` returned.
pub record ChunkSource (W : Type 0) : Type 0 where
  pub bin : DataBin
  pub goroutines : List Position
  pub turn : Turn
  pub world_state : W

abbrev pub set_at : List Position → ℕ → Position → List Position
set_at [] i p = []
set_at (q ∷ qs) zero p = p ∷ qs
set_at (q ∷ qs) (suc i) p = q ∷ set_at qs i p

abbrev pub all_done : List Position → Bool
all_done [] = true
all_done (done ∷ ps) = all_done ps
all_done (_ ∷ ps) = false

-- What happens next.
pub data ChunkEvent : Type 0 where
  starts : ChunkEvent
  steps : ℕ → ChunkEvent
  cancels : ChunkEvent
  finishes : ChunkEvent

module _ {W : Type 0} (world : World W) where
  open world use {write, close, is_done, wait_n}

  -- One step of a goroutine: a look at the context and what comes up to the next one.
  unfoldable pub step_at : DataBin → Position → W → Position × W
  step_at d starting w =
      let (w1, over) = is_done w in
      if over
      then (done, w1)
      else let (w2, written) = write (put_uint64 (blocks_of_chunk * block_size)) w1 in
        (if written then limiting else done, w2)
  step_at d limiting w = elim d.rate_limiter [
    | none ↦ (writing blocks_of_chunk, w)
    | some l ↦
        let (w1, waited) = wait_n block_size w in
        (if waited then writing blocks_of_chunk else done, w1)
  ]
  step_at d (writing zero) w = (done, w)
  step_at d (writing (suc n)) w =
      let (w1, over) = is_done w in
      if over
      then (done, w1)
      else let (w2, written) = write (zeros block_size) w1 in
        (if written then writing n else done, w2)
  step_at d done w = (done, w)

  -- `running` is stored as `true` at the start of a goroutine, and as `false` at its end.
  abbrev pub running_after : Position → Position → DataBin → DataBin
  running_after p done d = record d { running = false }
  running_after starting q d = record d { running = true }
  running_after p q d = d

  abbrev pub step_from : ℕ → Position → ChunkSource W → ChunkSource W
  step_from i p s =
      let (q, w) = step_at s.bin p s.world_state in
      record s {
        bin = running_after p q s.bin;
        goroutines = set_at s.goroutines i q;
        world_state = w;
      }

  -- A step of the goroutine at an index, if there is one.
  unfoldable pub step_goroutine : ℕ → ChunkSource W → ChunkSource W
  step_goroutine i s = elim (get_elem? s.goroutines i) [
    | none ↦ s
    | some done ↦ s
    | some p ↦ step_from i p s
  ]

  -- Five seconds are over: the next goroutine is started.
  unfoldable pub start_goroutine : ChunkSource W → ChunkSource W
  start_goroutine s =
      if ltb (length s.goroutines) chunks
      then record s { goroutines = s.goroutines ++ starting ∷ [] }
      else s

  -- The context is done before the next goroutine is started.
  unfoldable pub cancel_chunks : ChunkSource W → ChunkSource W
  cancel_chunks s =
      if ltb (length s.goroutines) chunks
      then record s {
        bin = stopped s.bin;
        turn = ends (some cancelled);
        world_state = (close s.world_state).0;
      }
      else s

  -- After `wg.Wait`.
  unfoldable pub finish_chunks : ChunkSource W → ChunkSource W
  finish_chunks s =
      if not (ltb (length s.goroutines) chunks)
      then (if all_done s.goroutines
          then (let (w, closed) = close s.world_state in
              record s {
                bin = stopped s.bin;
                turn = ends (if closed then none else some not_closed);
                world_state = w;
              })
          else s)
      else s

  -- The loop that starts goroutines has ended once the function has returned; goroutines go on.
  unfoldable pub chunk_event : ChunkEvent → ChunkSource W → ChunkSource W
  chunk_event (steps i) s = step_goroutine i s
  chunk_event starts s = elim s.turn [ goes_on ↦ start_goroutine s | ends e ↦ s ]
  chunk_event cancels s = elim s.turn [ goes_on ↦ cancel_chunks s | ends e ↦ s ]
  chunk_event finishes s = elim s.turn [ goes_on ↦ finish_chunks s | ends e ↦ s ]

  unfoldable pub run_chunks : List ChunkEvent → ChunkSource W → ChunkSource W
  run_chunks [] s = s
  run_chunks (e ∷ es) s = run_chunks es (chunk_event e s)

  -- `startChunkSource`.
  unfoldable pub start_chunk_source : List ChunkEvent → DataBin → W → ChunkSource W
  start_chunk_source es d w =
      if d.has_wc
      then run_chunks es (record { bin = d; goroutines = []; turn = goes_on; world_state = w })
      else record { bin = d; goroutines = []; turn = ends (some no_sink); world_state = w }
