-- ===== src/Core/Time/Instant.antt =====
-- `RationalTime` of crates/postproject-core/src/time.rs: an i64 count of ticks at a rate.
use postproject.Base.{
  ℕ, ◌≡◌, Bool, true, ◌==◌, if◌then◌else◌, Result, ok, err, Error, invalid_argument, none, some,
  ◌>>=◌, not, Ordering,
}
use postproject.Base.Int.{ℤ, pos, ◌*ℤ◌}
use postproject.Base.Machine.{fits, i64_bound, i128_bound, checked_mul, quot, rem, nat_abs, cmp_ℤ}
use postproject.Core.Time.Rate
use postproject.Core.Time.Rate.{RationalRate}

pub record RationalTime : Type 0 where
  pub value : ℤ
  pub rate : RationalRate

abbrev pub new : ℤ → RationalRate → RationalTime
new value rate = record { value = value; rate = rate }

-- The i64 range and a rate as its constructor makes it.
pub record IsValid (t : RationalTime) : Type 0 where
  pub value_i64 : fits i64_bound t.value ≡ true
  pub rate_IsValid : Rate.IsValid t.rate

abbrev pub arithmetic_overflow : Error
arithmetic_overflow = record {
  kind = invalid_argument;
  message = "rational time arithmetic overflow";
}

abbrev pub not_representable : Error
not_representable = record {
  kind = invalid_argument;
  message = "rational time is not exactly representable at the target rate";
}

-- Two `checked_mul` in a row, in i128.
unfoldable pub checked_mul_twice : ℤ → ℕ → ℕ → Result ℤ
checked_mul_twice value a b = elim (checked_mul i128_bound value (pos a)) [
  | none ↦ err arithmetic_overflow
  | some product ↦ elim (checked_mul i128_bound product (pos b)) [
    | none ↦ err arithmetic_overflow
    | some total ↦ ok total
  ]
]

unfoldable pub comparison_product : ℤ → ℕ → ℕ → Result ℤ
unfolding checked_mul_twice
comparison_product value denominator other_numerator =
    checked_mul_twice value denominator other_numerator

unfoldable pub checked_cmp : RationalTime → RationalTime → Result Ordering
checked_cmp a b = do
  left ← comparison_product a.value a.rate.denominator b.rate.numerator
  right ← comparison_product b.value b.rate.denominator a.rate.numerator
  ok (cmp_ℤ left right)

abbrev is_eq : Ordering → Bool
is_eq Ordering.eq = Bool.true
is_eq _ = Bool.false

unfoldable pub equivalent : RationalTime → RationalTime → Result Bool
equivalent a b = do order ← checked_cmp a b; ok (is_eq order)

-- `i64::try_from`.
abbrev pub try_i64 : ℤ → RationalRate → Result RationalTime
try_i64 value rate = if fits i64_bound value then ok (new value rate) else err arithmetic_overflow

-- The tail of `rescaled_to`: the test of the remainder, then the quotient in i64.
unfoldable pub conclude_at : ℕ → ℤ → RationalRate → Result RationalTime
conclude_at remainder quotient rate =
    if not (remainder == 0) then err not_representable else try_i64 quotient rate

abbrev pub divide_at : ℤ → ℤ → RationalRate → Result RationalTime
divide_at numerator denominator rate =
    conclude_at (nat_abs (rem numerator denominator)) (quot numerator denominator) rate

unfoldable pub rescaled_to : RationalTime → RationalRate → Result RationalTime
unfolding checked_mul_twice
rescaled_to t rate = do
  numerator ← checked_mul_twice t.value rate.numerator t.rate.denominator
  denominator ← elim (checked_mul i128_bound (pos t.rate.numerator) (pos rate.denominator)) [
    | none ↦ err arithmetic_overflow
    | some product ↦ ok product
  ]
  divide_at numerator denominator rate

-- The product without a range.
abbrev pub scaled : ℤ → ℕ → ℕ → ℤ
scaled value a b = value *ℤ pos a *ℤ pos b
