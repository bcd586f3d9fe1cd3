-- ===== src/Gopipe/Y4mSource.antt =====
-- gopipe/y4m_source.go. The reader of Y4M streams is third-party code and a parameter here.
pub mod Frames
mod Tests
use mrtp.Prelude.{
  ℕ, List, [], ◌∷◌, Bool, true, false, Option, none, some, ◌/◌, ◌%◌, ◌^◌, if◌then◌else◌,
}
use mrtp.Prelude.Int.{ℤ, pos, to_uint64, ◌+ℤ◌, ltb_ℤ}
use mrtp.Gopipe.Attributes.{
  Ratio, ratio444, ratio422, ratio420, ratio411, Attributes, no_attributes, set_attribute,
  chroma_subsampling, pts, frame_duration, ratio, int64, duration, Error, Result, ok, error, panic,
  cancelled, not_read,
}
use mrtp.Gopipe.Pipeline.{Info, Sink}
use mrtp.Gopipe.FakeSource.{div_ℤ}

-- `y4m.ChromaSubsamplingType`; `other_cst` is any further one.
pub data ChromaSubsampling : Type 0 where
  cst411 : ChromaSubsampling
  cst420 : ChromaSubsampling
  cst420jpeg : ChromaSubsampling
  cst420mpeg2 : ChromaSubsampling
  cst420paldv : ChromaSubsampling
  cst422 : ChromaSubsampling
  cst444 : ChromaSubsampling
  cst444_alpha : ChromaSubsampling
  other_cst : ChromaSubsampling

-- `y4m.StreamHeader`.
pub record StreamHeader : Type 0 where
  pub width : ℤ
  pub height : ℤ
  pub numerator : ℤ
  pub denominator : ℤ
  pub chroma : ChromaSubsampling

pub data FrameRead : Type 0 where
  got_frame : List ℕ → FrameRead
  end_of_file : FrameRead
  bad_frame : FrameRead

-- `GetInfo`.
unfoldable pub y4m_info : StreamHeader → Info
y4m_info h = record {
  width = to_uint64 h.width;
  height = to_uint64 h.height;
  timebase_num = h.numerator;
  timebase_den = h.denominator;
}

unfoldable pub convert_subsample_ratio : ChromaSubsampling → Result Ratio
convert_subsample_ratio cst411 = ok ratio411
convert_subsample_ratio cst420 = ok ratio420
convert_subsample_ratio cst420jpeg = ok ratio420
convert_subsample_ratio cst420mpeg2 = ok ratio420
convert_subsample_ratio cst420paldv = ok ratio420
convert_subsample_ratio cst422 = ok ratio422
convert_subsample_ratio cst444 = ok ratio444
convert_subsample_ratio cst444_alpha = ok ratio444
convert_subsample_ratio other_cst = panic

-- How `StartLive` goes on after a tick.
pub data Turn : Type 0 where
  goes_on : Turn
  returns : Result (Unit {0}) → Turn

abbrev pub turn_of : Result (Unit {0}) → Turn
turn_of (ok x) = goes_on
turn_of (error e) = returns (error e)
turn_of panic = returns panic

abbrev pub live_attributes : Attributes → ℤ → ℤ → Attributes
live_attributes attr now d =
    set_attribute (set_attribute attr pts (int64 now)) frame_duration (duration d)

-- `read_next` is `ReadNextFrame`, `frame_duration_of n d` is `time.Duration(float64(time.Second) / fps)` for
-- the rate `n / d`.
module _ {R : Type 0} (read_next : R → R × FrameRead) (frame_duration_of : ℤ → ℤ → ℤ) where
  -- `getFrame`: the frame with its attributes; `none` is the end of the file.
  unfoldable pub get_frame : StreamHeader → R → R × Result (Option (List ℕ × Attributes))
  get_frame h r =
      let (r', f) = read_next r in
      (
        r',
        elim f [
          | end_of_file ↦ ok none
          | bad_frame ↦ error not_read
          | got_frame b ↦ elim (convert_subsample_ratio h.chroma) [
            | ok csr ↦ ok (some (b, set_attribute no_attributes chroma_subsampling (ratio csr)))
            | error e ↦ error e
            | panic ↦ panic
          ]
        ],
      )

  -- What the loop does at a tick; `over` says that the context is done.
  unfoldable pub y4m_tick :
      {W : Type 0} → Sink W → StreamHeader → ℤ → ℤ → Bool → R → W → (R × W) × Turn
  y4m_tick write h d now over r w =
      if over
      then ((r, w), returns (error cancelled))
      else let (r', f) = get_frame h r in
        elim f [
          | error e ↦ ((r', w), returns (error e))
          | panic ↦ ((r', w), returns panic)
          | ok o ↦ elim o [
            | none ↦ ((r', w), returns (ok tt))
            | some (frame, attr) ↦
                let (w', q) = write frame (live_attributes attr now d) w in ((r', w'), turn_of q)
          ]
        ]

  -- The loop of `StartLive` over the ticks, each with whether the context is done.
  unfoldable pub y4m_ticks :
      {W : Type 0} → Sink W → StreamHeader → ℤ → List Bool → ℤ → R → W → (R × W) × Turn
  y4m_ticks write h d [] now r w = ((r, w), goes_on)
  y4m_ticks write h d (over ∷ ticks) now r w =
      let ((r', w'), t) = y4m_tick write h d now over r w in
      let rest = y4m_ticks write h d ticks (now +ℤ div_ℤ d 1000) r' w' in
      elim t [ goes_on ↦ rest | returns q ↦ ((r', w'), returns q) ]

  -- `StartLive`; a ticker of no positive period panics.
  unfoldable pub start_y4m :
      {W : Type 0} → Sink W → StreamHeader → List Bool → R → W → (R × W) × Turn
  start_y4m write h ticks r w =
      let d = frame_duration_of h.numerator h.denominator in
      if ltb_ℤ (pos 0) d then y4m_ticks write h d ticks (pos 0) r w else ((r, w), returns panic)
