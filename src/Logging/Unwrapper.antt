-- ===== src/Logging/Unwrapper.antt =====
-- internal/logging/unwrapper.go: 16-bit sequence numbers unwrapped to 64-bit ones.
pub mod Steps
pub mod Streams
use mrtp.Prelude.{
  ℕ, ◌+◌, ◌-◌, ◌%◌, List, [], ◌∷◌, Bool, true, false, ◌&&◌, not, ltb, ◌==◌, if◌then◌else◌,
}
use mrtp.Prelude.Int.{ℤ, pos, negsuc, ◌+ℤ◌, ◌-ℤ◌, ltb_ℤ, leb_ℤ}

abbrev pub max_sequence_number_plus_one : ℕ
max_sequence_number_plus_one = 65536

abbrev pub breakpoint : ℕ
breakpoint = 32768

pub record Unwrapper : Type 0 where
  pub init : Bool
  pub last_unwrapped : ℤ

abbrev pub new_unwrapper : Unwrapper
new_unwrapper = record { init = false; last_unwrapped = pos 0 }

-- `a - b` and the conversion of an `int64`, on `uint16`.
abbrev pub sub16 : ℕ → ℕ → ℕ
sub16 a b = (a + 65536 - b) % 65536

abbrev pub to_uint16 : ℤ → ℕ
to_uint16 (pos n) = n % 65536
to_uint16 (negsuc n) = 65535 - n % 65536

unfoldable pub is_newer : ℕ → ℕ → Bool
is_newer value previous =
    if sub16 value previous == breakpoint
    then ltb previous value
    else not (value == previous) && ltb (sub16 value previous) breakpoint

-- The change of `lastUnwrapped`, for the last wrapped number.
unfoldable pub delta_of : ℤ → ℕ → ℕ → ℤ
unfolding is_newer
delta_of last_unwrapped last_wrapped i =
    let delta = pos (sub16 i last_wrapped) in
    let back = delta -ℤ pos max_sequence_number_plus_one in
    if is_newer i last_wrapped
    then if ltb_ℤ delta (pos 0) then delta +ℤ pos max_sequence_number_plus_one else delta
    else if ltb_ℤ (pos 0) delta && leb_ℤ (pos 0) (last_unwrapped +ℤ back)
    then back
    else delta

unfoldable pub unwrap : Unwrapper → ℕ → Unwrapper × ℤ
unfolding delta_of
unwrap u i =
    let first = pos i in
    let next = u.last_unwrapped +ℤ delta_of u.last_unwrapped (to_uint16 u.last_unwrapped) i in
    if u.init
    then (record u { last_unwrapped = next }, next)
    else (record { init = true; last_unwrapped = first }, first)

-- A stream of numbers, one call after another.
unfoldable pub unwrap_all : Unwrapper → List ℕ → List ℤ
unwrap_all u [] = []
unwrap_all u (i ∷ is) = (unwrap u i).1 ∷ unwrap_all (unwrap u i).0 is
