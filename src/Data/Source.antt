-- ===== src/Data/Source.antt =====
-- The file source and the random source of data/source.go.
use mrtp.Prelude.{
  ℕ, zero, suc, List, [], ◌∷◌, true, false, Option, none, some, not, if◌then◌else◌, ◌%◌, ◌^◌,
}
use mrtp.Data.Bytes.{put_uint64}
use mrtp.Data.Bin.{
  SourceError, no_sink, not_opened, no_info, not_written, not_read, not_closed, wait_failed,
  cancelled, ReadEnd, read_ok, read_eof, read_failed, World, DataBin,
}

-- How a turn of a loop ends, with the error that is returned.
pub data Turn : Type 0 where
  goes_on : Turn
  ends : Option SourceError → Turn

abbrev pub stopped : DataBin → DataBin
stopped d = record d { running = false }

module _ {W : Type 0} (world : World W) where
  open world use {write, close, is_done, sleep, wait_n, open_file, file_size, read_file, rand_read}

  -- Closes the writer and only logs the error.
  abbrev pub close_logged : W → W
  close_logged w = (close w).0

  -- The context and then the limiter, if there is one: `true` goes on.
  abbrev pub check_context : DataBin → W → W × Turn
  check_context d w =
      let (w', done) = is_done w in
      if done then (close_logged w', ends (some cancelled)) else (w', goes_on)

  abbrev pub wait_limiter : DataBin → ℕ → W → W × Turn
  wait_limiter d n w = elim d.rate_limiter [
    | none ↦ (w, goes_on)
    | some l ↦
        let (w', waited) = wait_n n w in (w', if waited then goes_on else ends (some wait_failed))
  ]

  -- What follows a `Read` of the file.
  unfoldable pub after_read : ReadEnd → W → W × Turn
  after_read read_eof w =
      let (w', closed) = close w in (w', ends (if closed then none else some not_closed))
  after_read read_failed w = (w, ends (some not_read))
  after_read read_ok w = (w, goes_on)

  unfoldable pub send_read : List ℕ → ReadEnd → W → W × Turn
  send_read [] end w = after_read end w
  send_read (b ∷ bs) end w =
      let (w', written) = write (b ∷ bs) w in
      if written then after_read end w' else (close_logged w', ends (some not_written))

  -- A turn of the loop of `startFileSource`.
  unfoldable pub file_turn : DataBin → W → W × Turn
  file_turn d w =
      let (w1, t) = check_context d w in
      elim t [
        | ends e ↦ (w1, ends e)
        | goes_on ↦
            let (w2, u) = wait_limiter d 1024 w1 in
            elim u [
              | ends e ↦ (w2, ends e)
              | goes_on ↦ let (w3, (bs, end)) = read_file 1024 w2 in send_read bs end w3
            ]
      ]

  -- A turn of the loop of `startRandomSource`.
  unfoldable pub random_turn : DataBin → W → W × Turn
  random_turn d w =
      let (w1, t) = check_context d w in
      elim t [
        | ends e ↦ (w1, ends e)
        | goes_on ↦
            let (w2, u) = wait_limiter d 1024 w1 in
            elim u [
              | ends e ↦ (close_logged w2, ends e)
              | goes_on ↦
                  let (w3, buf) = rand_read 1024 w2 in
                  let (w4, written) = write buf w3 in
                  (w4, if written then goes_on else ends (some not_written))
            ]
      ]

  -- A loop of such turns, on fuel; every end of a turn stores `false` in `running`.
  unfoldable pub loop : (DataBin → W → W × Turn) → ℕ → DataBin → W → (DataBin × W) × Turn
  loop turn zero d w = ((d, w), goes_on)
  loop turn (suc fuel) d w =
      let (w', t) = turn d w in
      let rest = loop turn fuel d w' in
      elim t [ goes_on ↦ rest | ends e ↦ ((stopped d, w'), ends e) ]

  -- The size first, as eight bytes.
  unfoldable pub send_size : ℕ → ℕ → (DataBin → W → W × Turn) → DataBin → W → (DataBin × W) × Turn
  send_size size fuel turn d w =
      let (w', written) = write (put_uint64 (size % 2 ^ 64)) w in
      if written then loop turn fuel d w' else ((d, w'), ends (some not_written))

  unfoldable pub start_file_source : ℕ → DataBin → W → (DataBin × W) × Turn
  start_file_source fuel d w =
      if not d.has_wc
      then ((d, w), ends (some no_sink))
      else let (w1, opened) = open_file d.filepath w in
        if not opened
        then ((d, w1), ends (some not_opened))
        else let (w2, size) = file_size w1 in
          elim size [
            | none ↦ ((d, w2), ends (some no_info))
            | some n ↦ send_size n fuel file_turn d w2
          ]

  unfoldable pub start_random_source : ℕ → DataBin → W → (DataBin × W) × Turn
  start_random_source fuel d w =
      if not d.has_wc then ((d, w), ends (some no_sink)) else send_size 0 fuel random_turn d w

  -- The file or random source of `Run`, after its delay.
  unfoldable pub start_source : ℕ → DataBin → W → (DataBin × W) × Turn
  start_source fuel d w =
      let d' = record d { running = true } in
      if d.use_file_src then start_file_source fuel d' w else start_random_source fuel d' w
