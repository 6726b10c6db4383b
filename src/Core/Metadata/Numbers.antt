-- ===== src/Core/Metadata/Numbers.antt =====
-- `DecimalValue` and `RationalValue` of crates/postproject-core/src/metadata.rs. The file's
-- `greatest_common_divisor` is that of crates/postproject-core/src/time.rs, on u64.
use native.Mathlib.Nat
use postproject.Base.{
  ℕ, zero, suc, ◌/◌, ◌^◌, ◌≤◌, ◌<◌, ◌≡◌, ◌≢◌, refl, ap, subst, ◌⊎◌, inl, inr, true, false, arith,
  ltb, ◌==◌, if◌then◌else◌, Result, ok, err, Error, invalid_argument, Bool-cases, ok_injective,
  ltb→lt,
}
use postproject.Base.Int.{ℤ, pos, negsuc}
use postproject.Base.Machine.{quot, rem, nat_abs, signed, fits, i64_bound}
use postproject.Core.Time.Gcd.{greatest_common_divisor}

abbrev pub max_metadata_decimal_scale : ℕ
max_metadata_decimal_scale = 1024

abbrev pub limit_error : Error
limit_error = record { kind = invalid_argument; message = "metadata exceeds the supported limit" }

pub record DecimalValue : Type 0 where
  pub coefficient : ℤ
  pub scale : ℕ

-- The loop of `DecimalValue::new`, which ends since the scale falls.
unfoldable pub normalized : ℕ → ℤ → DecimalValue
normalized zero coefficient = record { coefficient = coefficient; scale = 0 }
normalized (suc scale) coefficient =
    let rest = normalized scale (quot coefficient (pos 10)) in
    if nat_abs (rem coefficient (pos 10)) == 0
    then rest
    else record { coefficient = coefficient; scale = suc scale }

-- `DecimalValue::new`.
unfoldable pub decimal_value : ℤ → ℕ → Result DecimalValue
decimal_value coefficient scale =
    let d = normalized scale coefficient in
    if ltb max_metadata_decimal_scale d.scale then err limit_error else ok d

pub record RationalValue : Type 0 where
  pub numerator : ℤ
  pub denominator : ℕ

-- The normalised numerator, -1 where the divisor is outside i64.
abbrev pub reduced_numerator : ℤ → ℕ → ℤ
reduced_numerator numerator divisor =
    if ltb divisor i64_bound then quot numerator (pos divisor) else negsuc 0

abbrev pub zero_denominator : Error
zero_denominator = record {
  kind = invalid_argument;
  message = "metadata rational denominator must not be zero";
}

-- `RationalValue::new`.
unfoldable pub rational_value : ℤ → ℕ → Result RationalValue
rational_value numerator denominator =
    if denominator == 0
    then err zero_denominator
    else (let divisor = greatest_common_divisor (nat_abs numerator) denominator in
        ok (record {
          numerator = reduced_numerator numerator divisor;
          denominator = denominator / divisor;
        }))

-- Without insignificant zeros, and in range.
pub record IsDecimal (d : DecimalValue) : Type 0 where
  pub in_range : fits (2 ^ 127) d.coefficient ≡ true
  pub significant : (d.scale ≡ 0) ⊎ (nat_abs (rem d.coefficient (pos 10)) ≢ 0)
  pub bounded : d.scale ≤ max_metadata_decimal_scale

pub record IsRational (r : RationalValue) : Type 0 where
  pub in_range : fits i64_bound r.numerator ≡ true
  pub positive : 0 < r.denominator
  pub in_u64 : r.denominator < 2 ^ 64
  pub lowest : greatest_common_divisor (nat_abs r.numerator) r.denominator ≡ 1

normalized_fixed :
    (scale : ℕ) (coefficient : ℤ)
    → (scale ≡ 0) ⊎ (nat_abs (rem coefficient (pos 10)) ≢ 0)
    → normalized scale coefficient ≡ record { coefficient = coefficient; scale = scale }
unfolding normalized
normalized_fixed zero coefficient h = refl
normalized_fixed (suc scale) coefficient h = ground arith

-- What is already normalised is kept.
pub decimal_value_fixed :
    (d : DecimalValue) → IsDecimal d → decimal_value d.coefficient d.scale ≡ ok d
unfolding decimal_value
decimal_value_fixed d v =
    let small : ltb max_metadata_decimal_scale d.scale ≡ false = ground (arith, v.bounded) in
    rw (normalized_fixed d.scale d.coefficient v.significant, small) refl

quot-one : (a : ℤ) → quot a (pos 1) ≡ a
quot-one (pos n) = ap pos (Nat.div-one n)
quot-one (negsuc n) = ap (signed true) (Nat.div-one (suc n))

pub rational_value_fixed :
    (r : RationalValue) → IsRational r → rational_value r.numerator r.denominator ≡ ok r
unfolding rational_value
rational_value_fixed r v =
    let nonzero : (r.denominator == 0) ≡ false = ground (arith, v.positive) in
    rw (nonzero, v.lowest, quot-one r.numerator, Nat.div-one r.denominator) refl

pub fits-signed : (bound m : ℕ) → 0 < bound → m < suc bound → fits bound (signed true m) ≡ true
fits-signed bound zero z h = ground arith
fits-signed bound (suc m) z h = ground arith

-- The scale that the loop returns is not larger, and its coefficient significant and in range.
fits-quot_ten : (bound : ℕ) (c : ℤ) → fits bound c ≡ true → fits bound (quot c (pos 10)) ≡ true
fits-quot_ten bound (pos n) h = ground arith
fits-quot_ten bound (negsuc n) h =
    fits-signed bound (suc n / 10) (omega (arith, ltb→lt n bound h))
      (omega (arith, ltb→lt n bound h))

normalized-significant :
    (scale : ℕ) (c : ℤ) (bound : ℕ)
    → fits bound c ≡ true
    → (fits bound (normalized scale c).coefficient ≡ true)
      × (((normalized scale c).scale ≡ 0)
          ⊎ (nat_abs (rem (normalized scale c).coefficient (pos 10)) ≢ 0))
unfolding normalized
normalized-significant zero c bound h = (h, inl refl)
normalized-significant (suc scale) c bound h =
    ground (arith, normalized-significant scale (quot c (pos 10)) bound (fits-quot_ten bound c h))

-- A decimal that is accepted is normalised.
pub decimal_value-IsDecimal :
    (c : ℤ) (scale : ℕ) (d : DecimalValue)
    → fits (2 ^ 127) c ≡ true
    → decimal_value c scale ≡ ok d
    → IsDecimal d
unfolding decimal_value
decimal_value-IsDecimal c scale d h e =
    let (range, sig) = normalized-significant scale c (2 ^ 127) h in
    elim (Bool-cases (ltb max_metadata_decimal_scale (normalized scale c).scale)) [
      | inl y ↦ absurd (ground arith)
      | inr n ↦
          let same : normalized scale c ≡ d = ok_injective (rw n at e) in
          subst IsDecimal same
            (record { in_range = range; significant = sig; bounded = ground arith })
    ]
