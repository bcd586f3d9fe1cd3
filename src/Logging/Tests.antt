-- ===== src/Logging/Tests.antt =====
-- The unwrapper at concrete numbers.
use mrtp.Prelude.{◌≡◌, refl, [], ◌∷◌, map, arith}
use mrtp.Prelude.Int.{pos, ◌+ℤ◌, ◌-ℤ◌}
use mrtp.Logging.Unwrapper.{new_unwrapper, unwrap, unwrap_all}
use mrtp.Logging.Unwrapper.Streams.{wrap, unwrap_all-wrap}

wraps_around :
    unwrap_all new_unwrapper (65534 ∷ 65535 ∷ 0 ∷ 65535 ∷ 2 ∷ [])
    ≡ pos 65534 ∷ pos 65535 ∷ pos 65536 ∷ pos 65535 ∷ pos 65538 ∷ []
unfolding unwrap_all unwrap ◌+ℤ◌ ◌-ℤ◌
wraps_around = refl

unwrap_all-wrap_example :
    unwrap_all new_unwrapper (map wrap (65534 ∷ 65537 ∷ 70000 ∷ []))
    ≡ map pos (65534 ∷ 65537 ∷ 70000 ∷ [])
unwrap_all-wrap_example = unwrap_all-wrap 65534 (65537 ∷ 70000 ∷ []) (omega arith) (omega arith)
