-- ===== src/Core/Metadata/Tests.antt =====
-- Runs of the constructors, and the theorems at concrete inputs.
use postproject.Base.{◌<◌, ◌↔◌, ◌⊎◌, ◌^◌, ◌≡◌, refl, arith, ok, [], ◌∷◌, fail, invalid_argument}
use postproject.Base.Int.{pos, negsuc, ◌*ℤ◌}
use postproject.Core.Metadata.Numbers.{
  RationalValue, decimal_value, normalized, rational_value, IsRational,
}
use postproject.Core.Metadata.Rationals.{rational_value-zero, rational_value-quotient}
use postproject.Core.Metadata.New.{validate_language_tag}

decimal_value-trimmed : decimal_value (pos 1500) 4 ≡ ok (record { coefficient = pos 15; scale = 2 })
unfolding decimal_value normalized
decimal_value-trimmed = refl

-- `de-`.
validate_language_tag-empty :
    validate_language_tag (100 ∷ 101 ∷ 45 ∷ [])
    ≡ fail invalid_argument
        "metadata language tag must be 1-64 ASCII letters, digits, or separated '-' characters"
unfolding validate_language_tag
validate_language_tag-empty = refl

rational_value-quotient_example :
    (r : RationalValue) × (rational_value (negsuc 5) 4 ≡ ok r)
    × IsRational r
    × ((r.numerator *ℤ pos 4 ≡ negsuc 5 *ℤ pos r.denominator) ↔ ((0 < 6) ⊎ (4 < 2 ^ 63)))
rational_value-quotient_example =
    rational_value-quotient (negsuc 5) 4 refl (omega arith) (omega arith)

-- Zero over 2^63 is read as -1 over 1.
rational_value-wide :
    rational_value (pos 0) (2 ^ 63) ≡ ok (record { numerator = negsuc 0; denominator = 1 })
rational_value-wide = rational_value-zero (2 ^ 63) (omega arith)
