-- ===== src/Core/Time/Range.antt =====
-- `TimeRange` of crates/postproject-core/src/time.rs: a half-open range of one rate.
use postproject.Base.{
  ◌≡◌, ◌↔◌, Bool, arith, Result, ok, err, Error, invalid_argument, if◌then◌else◌, ◌==◌, ◌&&◌, not,
  some, none,
}
use postproject.Base.Int.{+ℤ_parts, pos, ◌+ℤ◌, ◌≤ℤ◌}
use postproject.Base.Machine.{fits, i64_bound, checked_add, is_neg}
use postproject.Core.Time.Rate.{RationalRate}
use postproject.Core.Time.Instant
use postproject.Core.Time.Instant.{RationalTime, arithmetic_overflow}

pub record TimeRange : Type 0 where
  pub start : RationalTime
  pub duration : RationalTime

-- `==` on rates, derived.
abbrev pub rate_eq : RationalRate → RationalRate → Bool
rate_eq r s = r.numerator == s.numerator && r.denominator == s.denominator

abbrev pub negative_duration : Error
negative_duration = record {
  kind = invalid_argument;
  message = "time range duration must not be negative";
}

abbrev pub mixed_rates : Error
mixed_rates = record {
  kind = invalid_argument;
  message = "time range start and duration must use the same rate";
}

unfoldable pub new : RationalTime → RationalTime → Result TimeRange
new start duration =
    if is_neg duration.value
    then err negative_duration
    else if not (rate_eq start.rate duration.rate)
    then err mixed_rates
    else ok (record { start = start; duration = duration })

unfoldable pub end_exclusive : TimeRange → Result RationalTime
end_exclusive r = elim (checked_add i64_bound r.start.value r.duration.value) [
  | none ↦ err arithmetic_overflow
  | some value ↦ ok (Instant.new value r.start.rate)
]

-- `new` accepts exactly the durations that are not negative and have the start's rate.
new_iff :
    (start duration : RationalTime) (r : TimeRange)
    → (new start duration ≡ ok r) ↔ (
        (pos 0 ≤ℤ duration.value)
        × (start.rate ≡ duration.rate)
        × (r ≡ record { start = start; duration = duration }))
unfolding new
new_iff start duration r = (λ h. (ground arith, ground arith, ground arith), λ h. ground arith)

-- The end of an accepted range is its start plus its duration, at the same rate; it is not before
-- the start, and there is none exactly when that sum is outside i64.
pub end_exclusive-new :
    (start duration : RationalTime) (r : TimeRange)
    → new start duration ≡ ok r
    → (start.value ≤ℤ start.value +ℤ duration.value)
      × (end_exclusive r ≡ (
          if fits i64_bound (start.value +ℤ duration.value)
          then ok (Instant.new (start.value +ℤ duration.value) start.rate)
          else err arithmetic_overflow))
unfolding end_exclusive checked_add
end_exclusive-new start duration r h =
    let (nonneg, _, e) = (new_iff start duration r).0 h in
    (omega (arith, +ℤ_parts start.value duration.value), rw e (ground arith))
