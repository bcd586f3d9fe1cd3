-- ===== src/Gopipe/Codec.antt =====
-- gopipe/codec/codec_type.go. A `CodecType` is any `int`; the constants are 0 to 3. A string is the list of its
-- bytes, and of the letters those between A and Z have a lower case.
use mrtp.Prelude.{
  ℕ, ◌+◌, ◌≡◌, refl, List, [], ◌∷◌, map, Bool, true, false, ◌&&◌, ◌==◌, leb, if◌then◌else◌,
}

pub data CodecType : Type 0 where
  vp8 vp9 h264 fake unknown_codec : CodecType

abbrev vp8_name : List ℕ
vp8_name = 118 ∷ 112 ∷ 56 ∷ []

abbrev vp9_name : List ℕ
vp9_name = 118 ∷ 112 ∷ 57 ∷ []

abbrev h264_name : List ℕ
h264_name = 104 ∷ 50 ∷ 54 ∷ 52 ∷ []

-- "unknown"
abbrev unknown_name : List ℕ
unknown_name = 117 ∷ 110 ∷ 107 ∷ 110 ∷ 111 ∷ 119 ∷ 110 ∷ []

-- `CodecType.String`.
unfoldable pub codec_name : CodecType → List ℕ
codec_name vp8 = vp8_name
codec_name vp9 = vp9_name
codec_name h264 = h264_name
codec_name _ = unknown_name

abbrev lower_byte : ℕ → ℕ
lower_byte c = if leb 65 c && leb c 90 then c + 32 else c

abbrev same_name : List ℕ → List ℕ → Bool
same_name [] [] = true
same_name [] (d ∷ ds) = false
same_name (c ∷ cs) [] = false
same_name (c ∷ cs) (d ∷ ds) = c == d && same_name cs ds

-- `CodecTypeFromString`: the codec, and whether there is no error.
unfoldable pub codec_type_from_string : List ℕ → CodecType × Bool
codec_type_from_string s =
    let name = map lower_byte s in
    if same_name name vp8_name
    then (vp8, true)
    else (if same_name name vp9_name
        then (vp9, true)
        else (if same_name name h264_name then (h264, true) else (vp8, false)))

codec_type_from_string-codec_name :
    (codec_type_from_string (codec_name vp8) ≡ (vp8, true))
    × ((codec_type_from_string (codec_name vp9) ≡ (vp9, true))
        × ((codec_type_from_string (codec_name h264) ≡ (h264, true))
            × (codec_type_from_string (codec_name fake) ≡ (vp8, false))))
unfolding codec_type_from_string codec_name
codec_type_from_string-codec_name = (refl, (refl, (refl, refl)))
