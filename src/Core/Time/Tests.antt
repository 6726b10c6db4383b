-- ===== src/Core/Time/Tests.antt =====
-- Runs of the rational times, and the theorems at concrete inputs.
use postproject.Base.{◌*◌, ◌≡◌, ◌↔◌, refl, ok, err, arith, Ordering, if◌then◌else◌}
use postproject.Base.Int.{pos, ◌+ℤ◌, ◌*ℤ◌, ◌≤ℤ◌}
use postproject.Base.Machine.{fits, i64_bound, cmp_ℤ, checked_mul}
use postproject.Core.Time.Gcd.{greatest_common_divisor}
use postproject.Core.Time.Rate
use postproject.Core.Time.Rate.{RationalRate, zero_component, new-IsValid, new-eq_iff}
use postproject.Core.Time.Instant
use postproject.Core.Time.Instant.{
  RationalTime, checked_cmp, rescaled_to, arithmetic_overflow, checked_mul_twice, conclude_at,
}
use postproject.Core.Time.Compare.{
  cross, reversed, checked_cmp-eq_ok, checked_cmp-swap, checked_cmp_trans,
}
use postproject.Core.Time.Rescale.{rescaled_to_iff, rescaled_to-rescaled_to}
use postproject.Core.Time.Range
use postproject.Core.Time.Range.{TimeRange, end_exclusive, end_exclusive-new}

abbrev film : RationalRate
film = record { numerator = 24; denominator = 1 }

abbrev double : RationalRate
double = record { numerator = 48; denominator = 1 }

film-IsValid : Rate.IsValid film
unfolding greatest_common_divisor
film-IsValid = record {
  numerator_pos = omega arith;
  denominator_pos = omega arith;
  lowest = refl;
  numerator_u32 = omega arith;
  denominator_u32 = omega arith;
}

double-IsValid : Rate.IsValid double
unfolding greatest_common_divisor
double-IsValid = record {
  numerator_pos = omega arith;
  denominator_pos = omega arith;
  lowest = refl;
  numerator_u32 = omega arith;
  denominator_u32 = omega arith;
}

abbrev second : RationalTime
second = record { value = pos 24; rate = film }

abbrev later : RationalTime
later = record { value = pos 50; rate = double }

abbrev last : RationalTime
last = record { value = pos 100; rate = film }

second-IsValid : Instant.IsValid second
second-IsValid = record { value_i64 = refl; rate_IsValid = film-IsValid }

later-IsValid : Instant.IsValid later
later-IsValid = record { value_i64 = refl; rate_IsValid = double-IsValid }

last-IsValid : Instant.IsValid last
last-IsValid = record { value_i64 = refl; rate_IsValid = film-IsValid }

second_before_later : checked_cmp second later ≡ ok Ordering.lt
unfolding ◌*ℤ◌
second_before_later = checked_cmp-eq_ok second later second-IsValid later-IsValid

later_before_last : checked_cmp later last ≡ ok Ordering.lt
unfolding ◌*ℤ◌
later_before_last = checked_cmp-eq_ok later last later-IsValid last-IsValid

rescaled_test : rescaled_to second double ≡ ok (record { value = pos 48; rate = double })
unfolding rescaled_to checked_mul_twice conclude_at checked_mul ◌*ℤ◌
rescaled_test = refl

range_test : Range.new second second ≡ ok (record { start = second; duration = second })
unfolding Range.new
range_test = refl

new-IsValid_example :
    (r : RationalRate) × (Rate.new 60000 2002 ≡ ok r)
    × Rate.IsValid r
    × (r.numerator * 2002 ≡ 60000 * r.denominator)
new-IsValid_example = new-IsValid 60000 2002 (omega arith) (omega arith) (omega arith) (omega arith)

new-eq_iff_example : (Rate.new 60000 2002 ≡ Rate.new 30000 1001) ↔ (60000 * 1001 ≡ 30000 * 2002)
new-eq_iff_example =
    new-eq_iff 60000 2002 30000 1001 (omega arith) (omega arith) (omega arith) (omega arith)

checked_cmp-eq_ok_example :
    checked_cmp second later ≡ ok (cmp_ℤ (cross second later) (cross later second))
checked_cmp-eq_ok_example = checked_cmp-eq_ok second later second-IsValid later-IsValid

checked_cmp-swap_example : checked_cmp later second ≡ ok (reversed Ordering.lt)
checked_cmp-swap_example =
    checked_cmp-swap second later Ordering.lt second-IsValid later-IsValid second_before_later

checked_cmp_trans_example : checked_cmp second last ≡ ok Ordering.lt
checked_cmp_trans_example =
    checked_cmp_trans second later last second-IsValid later-IsValid last-IsValid
      second_before_later later_before_last

rescaled_to_iff_example :
    (rescaled_to second double ≡ ok (record { value = pos 48; rate = double })) ↔ (
      (double ≡ double)
      × Instant.IsValid (record { value = pos 48; rate = double })
      × (checked_cmp second (record { value = pos 48; rate = double }) ≡ ok Ordering.eq))
rescaled_to_iff_example =
    rescaled_to_iff second double (record { value = pos 48; rate = double }) second-IsValid
      double-IsValid

rescaled_to-rescaled_to_example :
    rescaled_to (record { value = pos 48; rate = double }) film ≡ ok second
rescaled_to-rescaled_to_example =
    rescaled_to-rescaled_to second double (record { value = pos 48; rate = double }) second-IsValid
      double-IsValid rescaled_test

end_exclusive-new_example :
    (second.value ≤ℤ second.value +ℤ second.value)
    × (end_exclusive (record { start = second; duration = second }) ≡ (
        if fits i64_bound (second.value +ℤ second.value)
        then ok (Instant.new (second.value +ℤ second.value) film)
        else err arithmetic_overflow))
end_exclusive-new_example =
    end_exclusive-new second second (record { start = second; duration = second }) range_test
