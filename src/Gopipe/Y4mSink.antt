-- ===== src/Gopipe/Y4mSink.antt =====
-- gopipe/y4m_sink.go. The file is kept as the strings and slices that are written to it: the text that
-- `Sprintf` makes of a header is a `Line` with the header's parts.
pub mod Layout
pub mod Files
mod Tests
use mrtp.Prelude.{ℕ, List, [], ◌∷◌, Bool, true, false, Option, none, some, if◌then◌else◌}
use mrtp.Prelude.Int.{ℤ}
use mrtp.Gopipe.Attributes.{
  Ratio, ratio444, ratio422, ratio420, ratio440, ratio411, ratio410, Attributes, Result, ok, error,
  panic, ◌>>=◌, unsupported_subsampling, not_written, get_width, get_height, get_chroma_subsampling,
}
use mrtp.Gopipe.Pipeline.{Sink}

-- `C444`, `C422`, `C420jpeg` and `C411` of a header.
pub data ChromaFormat : Type 0 where
  c444 : ChromaFormat
  c422 : ChromaFormat
  c420jpeg : ChromaFormat
  c411 : ChromaFormat

pub data Line : Type 0 where
  header : ℤ → ℤ → ℤ → ℤ → ChromaFormat → Line
  frame_line : Line
  frame_data : List ℕ → Line

pub record Y4mSink : Type 0 where
  pub header_written : Bool
  pub fps_num : ℤ
  pub fps_den : ℤ

abbrev pub fresh_sink : ℤ → ℤ → Y4mSink
fresh_sink fps_num fps_den = record { header_written = false; fps_num = fps_num; fps_den = fps_den }

-- `NewY4MSink`; `created` says that the file was.
abbrev pub new_y4m_sink : Bool → ℤ → ℤ → Option Y4mSink
new_y4m_sink created fps_num fps_den = if created then some (fresh_sink fps_num fps_den) else none

unfoldable pub chroma_format : Ratio → Option ChromaFormat
chroma_format ratio444 = some c444
chroma_format ratio422 = some c422
chroma_format ratio420 = some c420jpeg
chroma_format ratio411 = some c411
chroma_format _ = none

pub record FrameInfo : Type 0 where
  pub width : ℤ
  pub height : ℤ
  pub subsample_ratio : Ratio

unfoldable pub frame_info : Attributes → Result FrameInfo
frame_info attrs = do
  width ← get_width attrs
  height ← get_height attrs
  subsample_ratio ← get_chroma_subsampling attrs
  ok (record { width = width; height = height; subsample_ratio = subsample_ratio })

-- `put l w` is a call of `WriteString` or `Write` of the file; `false` is an error.
module _ {W : Type 0} (put : Line → W → W × Bool) where
  abbrev pub put_line : Line → W → W × Result (Unit {0})
  put_line l w = (let (w', written) = put l w in (w', if written then ok tt else error not_written))

  abbrev pub save_header : Y4mSink → ℤ → ℤ → Ratio → W → (Y4mSink × W) × Result (Unit {0})
  save_header s width height subsampling w = elim (chroma_format subsampling) [
    | none ↦ ((s, w), error unsupported_subsampling)
    | some c ↦
        let (w', written) = put (header width height s.fps_num s.fps_den c) w in
        if written
        then ((record s { header_written = true }, w'), ok tt)
        else ((s, w'), error not_written)
  ]

  -- The header of a frame and its data.
  abbrev pub save_data : List ℕ → W → W × Result (Unit {0})
  save_data b w =
      let (w1, r) = put_line frame_line w in
      let (w2, q) = put_line (frame_data b) w1 in
      elim r [ ok x ↦ (w2, q) | error e ↦ (w1, error e) | panic ↦ (w1, panic) ]

  unfoldable pub save_frame :
      List ℕ → ℤ → ℤ → Ratio → Y4mSink × W → (Y4mSink × W) × Result (Unit {0})
  save_frame b width height subsampling (s, w) =
      let ((s1, w1), r) =
        if s.header_written then ((s, w), ok tt) else save_header s width height subsampling w in
      let (w2, q) = save_data b w1 in
      elim r [ ok x ↦ ((s1, w2), q) | error e ↦ ((s1, w1), error e) | panic ↦ ((s1, w1), panic) ]

  -- `Write`.
  unfoldable pub write_y4m : Sink (Y4mSink × W)
  write_y4m b attrs s = elim (frame_info attrs) [
    | error e ↦ (s, error e)
    | panic ↦ (s, panic)
    | ok i ↦ save_frame b i.width i.height i.subsample_ratio s
  ]
