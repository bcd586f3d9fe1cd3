-- ===== src/Data/Run.antt =====
-- `Run` of data/source.go.
use mrtp.Prelude.{ℕ, List, some, if◌then◌else◌}
use mrtp.Prelude.Int.{pos, ltb_ℤ}
use mrtp.Data.Bin.{cancelled, World, DataBin}
use mrtp.Data.Source.{Turn, ends, start_source}
use mrtp.Data.Chunks.{ChunkEvent, ChunkSource, start_chunk_source}

module _ {W : Type 0} (world : World W) where
  open world use {sleep}

  -- How the chunk source leaves the data source.
  abbrev pub end_of_chunks : ChunkSource W → (DataBin × W) × Turn
  end_of_chunks s = ((s.bin, s.world_state), s.turn)

  -- `Run`: the chunk source with its events, or, after the delay, one of the two others on fuel. The time
  -- of a `sleep` runs out, or the context is done.
  unfoldable pub run_source : ℕ → List ChunkEvent → DataBin → W → (DataBin × W) × Turn
  run_source fuel es d w =
      if d.use_chunk_src
      then end_of_chunks (start_chunk_source world es d w)
      else if ltb_ℤ (pos 0) d.start_delay
      then (let (w', slept) = sleep d.start_delay w in
          if slept then start_source world fuel d w' else ((d, w'), ends (some cancelled)))
      else start_source world fuel d w
