-- ===== src/Data/Sink.antt =====
-- data/sink.go.
use mrtp.Prelude.{ℕ, zero, suc, ◌+◌, List, [], ◌∷◌, ◌++◌, Bool, ltb, length, ◌==◌, if◌then◌else◌}
use mrtp.Prelude.Int.{pos, ltb_ℤ, to_int64}
use mrtp.Data.Bytes.{uint64_of}

-- How `Run` returns: with the error of a `Read`, or with `io.ErrUnexpectedEOF`. With `no_fuel` it has not.
pub data SinkEnd : Type 0 where
  read_error : SinkEnd
  unexpected_eof : SinkEnd
  no_fuel : SinkEnd

-- The chunks that are finished, as the numbers of bytes that were read for them.
abbrev pub Finished : Type 0
Finished = List ℕ

-- `read n r` is `d.rc.Read` of a buffer of `n` bytes: the bytes read, and whether there was an error.
module _ {R : Type 0} (read : ℕ → R → R × (List ℕ × Bool)) where
  -- The reads after a size of 0, which only an error ends.
  unfoldable pub read_on : ℕ → R → R × SinkEnd
  read_on zero r = (r, no_fuel)
  read_on (suc fuel) r =
      let (r', (bs, failed)) = read 2048 r in
      let rest = read_on fuel r' in if failed then (r', read_error) else rest

  -- How the loop over the bytes of a chunk ends.
  pub data ChunkEnd : Type 0 where
    finished : ℕ → ChunkEnd
    stopped : SinkEnd → ChunkEnd

  unfoldable pub read_chunk : ℕ → ℕ → ℕ → R → R × ChunkEnd
  read_chunk zero size n r = (r, stopped no_fuel)
  read_chunk (suc fuel) size n r =
      let (r', (bs, failed)) = read 2048 r in
      let rest = read_chunk fuel size (n + length bs) r' in
      if ltb_ℤ (pos n) (to_int64 size)
      then (if failed then (r', stopped read_error) else rest)
      else (r, finished n)

  -- `Run`, from a header on; each loop has fuel of its own.
  unfoldable pub run_sink : ℕ → ℕ → Finished → R → R × (Finished × SinkEnd)
  run_sink inner zero chunks r = (r, (chunks, no_fuel))
  run_sink inner (suc fuel) chunks r =
      let (r1, (header, failed)) = read 8 r in
      let chunk_size = uint64_of header in
      let (r2, end) = read_chunk inner chunk_size 0 r1 in
      let rest = (λ (n : ℕ). run_sink inner fuel (chunks ++ n ∷ []) r2) in
      if failed
      then (r1, (chunks, read_error))
      else if ltb (length header) 8
      then (r1, (chunks, unexpected_eof))
      else if chunk_size == 0
      then (let (r3, e) = read_on inner r1 in (r3, (chunks, e)))
      else elim end [ finished n ↦ rest n | stopped e ↦ (r2, (chunks, e)) ]
