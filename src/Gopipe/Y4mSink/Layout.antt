-- ===== src/Gopipe/Y4mSink/Layout.antt =====
-- What a Y4M file of gopipe/y4m_sink.go is to hold, from the attributes of the frames.
use mrtp.Prelude.{
  ℕ, ◌≡◌, refl, ap, ◌∙◌, List, [], ◌∷◌, ◌&&◌, Option, none, some, ◌==◌, if◌then◌else◌,
}
use mrtp.Prelude.Int.{ℤ}
use mrtp.Gopipe.Attributes.{
  Ratio, ratio444, ratio422, ratio420, ratio440, ratio411, ratio410, AttributeKey, width, height,
  chroma_subsampling, Value, int64, int, duration, ratio, bool, Attributes, Error, Result, ◌>>=◌,
  ok, error, panic, attribute, as_int, as_ratio, get_width, get_height, get_chroma_subsampling,
}
use mrtp.Gopipe.Spacer.{Sent}
use mrtp.Gopipe.Y4mSink.{
  ChromaFormat, c444, c422, c420jpeg, c411, Line, header, frame_line, frame_data, chroma_format,
  FrameInfo, frame_info,
}

-- How many pixels share a sample of chroma, across and down.
abbrev sharing : Ratio → ℕ × ℕ
sharing ratio444 = (1, 1)
sharing ratio422 = (2, 1)
sharing ratio420 = (2, 2)
sharing ratio440 = (1, 2)
sharing ratio411 = (4, 1)
sharing ratio410 = (4, 2)

abbrev format_sharing : ChromaFormat → ℕ × ℕ
format_sharing c444 = (1, 1)
format_sharing c422 = (2, 1)
format_sharing c420jpeg = (2, 2)
format_sharing c411 = (4, 1)

abbrev first_with : ℕ × ℕ → List ChromaFormat → Option ChromaFormat
first_with s [] = none
first_with s (c ∷ cs) =
    let rest = first_with s cs in
    if (s.0 == (format_sharing c).0) && (s.1 == (format_sharing c).1) then some c else rest

-- The format of a header that shares chroma as the ratio does.
abbrev pub format_of : Ratio → Option ChromaFormat
format_of r = first_with (sharing r) (c444 ∷ c422 ∷ c420jpeg ∷ c411 ∷ [])

abbrev int_in : Option Value → Option ℤ
int_in (some (int n)) = some n
int_in _ = none

abbrev ratio_in : Option Value → Option Ratio
ratio_in (some (ratio r)) = some r
ratio_in _ = none

-- The width, the height and the ratio, where the attributes have all three.
abbrev together : Option ℤ → Option ℤ → Option Ratio → Option (ℤ × (ℤ × Ratio))
together (some w) (some h) (some r) = some (w, (h, r))
together _ _ _ = none

abbrev pub picture : Attributes → Option (ℤ × (ℤ × Ratio))
picture a = together (int_in (a width)) (int_in (a height)) (ratio_in (a chroma_subsampling))

-- The frames of the writes with all three attributes.
abbrev pub frames_of : List Sent → List Line
frames_of [] = []
frames_of ((b, a) ∷ fs) = elim (picture a) [
  | some i ↦ frame_line ∷ frame_data b ∷ frames_of fs
  | none ↦ frames_of fs
]

-- The file: a header for the first frame that has one, that frame, and the frames after it.
abbrev pub file_of : ℤ → ℤ → List Sent → List Line
file_of num den [] = []
file_of num den ((b, a) ∷ fs) = elim (picture a) [
  | some i ↦ elim (format_of i.1.1) [
    | some c ↦ header i.0 i.1.0 num den c ∷ frame_line ∷ frame_data b ∷ frames_of fs
    | none ↦ file_of num den fs
  ]
  | none ↦ file_of num den fs
]

pub format_of-chroma_format : (r : Ratio) → format_of r ≡ chroma_format r
unfolding chroma_format
format_of-chroma_format ratio444 = refl
format_of-chroma_format ratio422 = refl
format_of-chroma_format ratio420 = refl
format_of-chroma_format ratio440 = refl
format_of-chroma_format ratio411 = refl
format_of-chroma_format ratio410 = refl

abbrev found {ℓ} : {A : Type ℓ} → Result A → Option A
found (ok a) = some a
found _ = none

int_in-found :
    (a : Attributes) (key : AttributeKey) (o : Option Value)
    → a key ≡ o
    → int_in (a key) ≡ found (attribute as_int key a)
int_in-found a key none e = simp (attribute, e)
int_in-found a key (some (int n)) e = simp (attribute, e)
int_in-found a key (some (int64 n)) e = simp (attribute, e)
int_in-found a key (some (duration n)) e = simp (attribute, e)
int_in-found a key (some (ratio n)) e = simp (attribute, e)
int_in-found a key (some (bool n)) e = simp (attribute, e)

ratio_in-found :
    (a : Attributes) (key : AttributeKey) (o : Option Value)
    → a key ≡ o
    → ratio_in (a key) ≡ found (attribute as_ratio key a)
ratio_in-found a key none e = simp (attribute, e)
ratio_in-found a key (some (int n)) e = simp (attribute, e)
ratio_in-found a key (some (int64 n)) e = simp (attribute, e)
ratio_in-found a key (some (duration n)) e = simp (attribute, e)
ratio_in-found a key (some (ratio n)) e = simp (attribute, e)
ratio_in-found a key (some (bool n)) e = simp (attribute, e)

abbrev pub parts : FrameInfo → ℤ × (ℤ × Ratio)
parts i = (i.width, (i.height, i.subsample_ratio))

abbrev parts_of : Result FrameInfo → Option (ℤ × (ℤ × Ratio))
parts_of (ok i) = some (parts i)
parts_of _ = none

picture-frame_info : (a : Attributes) → picture a ≡ parts_of (frame_info a)
unfolding frame_info get_width get_height get_chroma_subsampling
picture-frame_info a =
    rw
      (
        int_in-found a width (a width) refl,
        int_in-found a height (a height) refl,
        ratio_in-found a chroma_subsampling (a chroma_subsampling) refl,
      )
      (by_results (attribute as_int width a) (attribute as_int height a)
        (attribute as_ratio chroma_subsampling a))
  where
    by_results :
        (w h : Result ℤ) (r : Result Ratio)
        → together (found w) (found h) (found r)
          ≡ parts_of
              (do x ← w; y ← h; z ← r; ok (record { width = x; height = y; subsample_ratio = z }))
    by_results (ok w) (ok h) (ok r) = refl
    by_results (ok w) (ok h) (error e) = refl
    by_results (ok w) (ok h) panic = refl
    by_results (ok w) (error e) r = refl
    by_results (ok w) panic r = refl
    by_results (error e) h r = refl
    by_results panic h r = refl

pub picture_ok : (a : Attributes) (i : FrameInfo) → frame_info a ≡ ok i → picture a ≡ some (parts i)
picture_ok a i e = picture-frame_info a ∙ ap parts_of e

pub picture_error : (a : Attributes) (x : Error) → frame_info a ≡ error x → picture a ≡ none
picture_error a x e = picture-frame_info a ∙ ap parts_of e

pub picture_panic : (a : Attributes) → frame_info a ≡ panic → picture a ≡ none
picture_panic a e = picture-frame_info a ∙ ap parts_of e
