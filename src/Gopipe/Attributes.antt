-- ===== src/Gopipe/Attributes.antt =====
-- gopipe/attribute.go, and `getFrameDuration` of gopipe/encoder.go: what goes with the data from one
-- element of a pipeline to the next.
use mrtp.Prelude.{◌≡◌, ◌⊎◌, inl, inr, refl, ℕ, Bool, Option, none, some, ◌==◌, if◌then◌else◌}
use mrtp.Prelude.Int.{ℤ}

-- Go's `image.YCbCrSubsampleRatio`.
pub data Ratio : Type 0 where
  ratio444 ratio422 ratio420 ratio440 ratio411 ratio410 : Ratio

pub data AttributeKey : Type 0 where
  chroma_subsampling is_key_frame sample_duration width height pts frame_duration : AttributeKey

-- The values of type `any` that the elements put in, by their dynamic type.
pub data Value : Type 0 where
  int64 : ℤ → Value
  int : ℤ → Value
  duration : ℤ → Value
  ratio : Ratio → Value
  bool : Bool → Value

abbrev pub Attributes : Type 0
Attributes = AttributeKey → Option Value

abbrev pub no_attributes : Attributes
no_attributes key = none

abbrev pub iota : AttributeKey → ℕ
iota chroma_subsampling = 0
iota is_key_frame = 1
iota sample_duration = 2
iota width = 3
iota height = 4
iota pts = 5
iota frame_duration = 6

abbrev pub set_attribute : Attributes → AttributeKey → Value → Attributes
set_attribute a key v other = if iota key == iota other then some v else a other

-- The errors of a pipeline; each stands for one of its texts.
pub data Error : Type 0 where
  attribute_not_found : AttributeKey → Error
  wrong_attribute_type : AttributeKey → Error
  unsupported_codec : Error
  codec_failed : Error
  no_decoder : Error
  unsupported_subsampling : Error
  not_marshaled : Error
  not_written : Error
  not_read : Error
  cancelled : Error

pub data Result {ℓ} (A : Type ℓ) : Type ℓ where
  ok : A → Result A
  error : Error → Result A
  panic : Result A

pub Result-cases {ℓ} :
    {A : Type ℓ} (r : Result A)
    → ((a : A) × (r ≡ ok a)) ⊎ (((e : Error) × (r ≡ error e)) ⊎ (r ≡ panic))
Result-cases (ok a) = inl (a, refl)
Result-cases (error e) = inr (inl (e, refl))
Result-cases panic = inr (inr refl)

infixl 5 ◌>>=◌
abbrev pub ◌>>=◌ {ℓ κ} : {A : Type ℓ} {B : Type κ} → Result A → (A → Result B) → Result B
ok a >>= f = f a
error e >>= f = error e
panic >>= f = panic

-- An attribute of one dynamic type: its presence first, then its type.
abbrev pub attribute {ℓ} : {A : Type ℓ} → (Value → Option A) → AttributeKey → Attributes → Result A
attribute typed key a = elim (a key) [
  | none ↦ error (attribute_not_found key)
  | some v ↦ elim (typed v) [ none ↦ error (wrong_attribute_type key) | some x ↦ ok x ]
]

abbrev pub as_int64 : Value → Option ℤ
as_int64 (int64 n) = some n
as_int64 _ = none

abbrev pub as_int : Value → Option ℤ
as_int (int n) = some n
as_int _ = none

abbrev pub as_duration : Value → Option ℤ
as_duration (duration n) = some n
as_duration _ = none

abbrev pub as_ratio : Value → Option Ratio
as_ratio (ratio r) = some r
as_ratio _ = none

unfoldable pub get_pts : Attributes → Result ℤ
get_pts a = attribute as_int64 pts a

unfoldable pub get_chroma_subsampling : Attributes → Result Ratio
get_chroma_subsampling a = attribute as_ratio chroma_subsampling a

unfoldable pub get_width : Attributes → Result ℤ
get_width a = attribute as_int width a

unfoldable pub get_height : Attributes → Result ℤ
get_height a = attribute as_int height a

unfoldable pub get_frame_duration : Attributes → Result ℤ
get_frame_duration a = attribute as_duration frame_duration a
