-- ===== src/Core/Time/Rate.antt =====
-- `RationalRate` of crates/postproject-core/src/time.rs: a positive rate in lowest terms. The u32
-- components are numbers; their range is part of `IsValid`.
use native.Mathlib.Nat
use postproject.Base.{
  ℕ, zero, suc, ◌*◌, ◌/◌, ◌^◌, ◌<◌, ◌≡◌, refl, sym, ap, ap₂, ◌∙◌, ◌↔◌, ◌||◌, arith, ◌==◌,
  if◌then◌else◌, Result, ok, err, Error, invalid_argument,
}
use postproject.Core.Time.Gcd.{greatest_common_divisor, gcd-dvd, gcd-pos, gcd-mul}

pub record RationalRate : Type 0 where
  pub numerator : ℕ
  pub denominator : ℕ

abbrev pub zero_component : Error
zero_component = record {
  kind = invalid_argument;
  message = "rational rate components must be greater than zero";
}

-- Both components over their greatest common divisor.
pub reduce : ℕ → ℕ → RationalRate
reduce numerator denominator =
    let divisor = greatest_common_divisor numerator denominator in
    record { numerator = numerator / divisor; denominator = denominator / divisor }

unfoldable pub new : ℕ → ℕ → Result RationalRate
unfolding reduce
new numerator denominator =
    if numerator == 0 || denominator == 0
    then err zero_component
    else ok (reduce numerator denominator)

-- What every rate that `new` returns satisfies.
pub record IsValid (r : RationalRate) : Type 0 where
  pub numerator_pos : 0 < r.numerator
  pub denominator_pos : 0 < r.denominator
  pub lowest : greatest_common_divisor r.numerator r.denominator ≡ 1
  pub numerator_u32 : r.numerator < 2 ^ 32
  pub denominator_u32 : r.denominator < 2 ^ 32

pos_of_factor : (x g n : ℕ) → n ≡ x * g → 0 < n → 0 < x
pos_of_factor zero g n e h = absurd (omega (arith, Nat.zero-mul g))
pos_of_factor (suc x) g n e h = omega arith

cancel_factors :
    (x g x' g' n n' : ℕ) → 0 < g → 0 < g' → n ≡ x * g → n' ≡ x' * g' → g * n' ≡ g' * n → x ≡ x'
cancel_factors x g x' g' n n' hg hg' e e' h =
    Nat.eq_of_mul-eq-mul_right (g * g') (Nat.mul-pos hg hg') x x'
      (omega (arith, ap (λ t. t * g') e, ap (λ t. t * g) e'))

module _ (n d : ℕ) (hn : 0 < n) (hd : 0 < d) where
  new-eq_ok : new n d ≡ ok (reduce n d)
  unfolding new
  new-eq_ok = ground arith

  reduce_numerator : n ≡ (reduce n d).numerator * greatest_common_divisor n d
  unfolding reduce
  reduce_numerator = sym (Nat.div-mul_cancel _ (gcd-dvd n d).0)

  reduce_denominator : d ≡ (reduce n d).denominator * greatest_common_divisor n d
  unfolding reduce
  reduce_denominator = sym (Nat.div-mul_cancel _ (gcd-dvd n d).1)

  reduce-lowest : greatest_common_divisor (reduce n d).numerator (reduce n d).denominator ≡ 1
  reduce-lowest = Nat.eq_of_mul-eq-mul_right (greatest_common_divisor n d) (gcd-pos n d hn) _ 1 (
      sym (gcd-mul (reduce n d).numerator (reduce n d).denominator (greatest_common_divisor n d))
      ∙ ap₂ greatest_common_divisor (sym reduce_numerator) (sym reduce_denominator)
      ∙ sym (Nat.one-mul _))

  reduce-IsValid : n < 2 ^ 32 → d < 2 ^ 32 → IsValid (reduce n d)
  unfolding reduce
  reduce-IsValid bn bd = record {
    numerator_pos = pos_of_factor _ _ n reduce_numerator hn;
    denominator_pos = pos_of_factor _ _ d reduce_denominator hd;
    lowest = reduce-lowest;
    numerator_u32 = Nat.lt_of_le_of_lt (Nat.div-le_self n _) bn;
    denominator_u32 = Nat.lt_of_le_of_lt (Nat.div-le_self d _) bd;
  }

  -- The quotient of the components is that of the arguments.
  reduce-cross : (reduce n d).numerator * d ≡ n * (reduce n d).denominator
  reduce-cross =
      ap (λ t. (reduce n d).numerator * t) reduce_denominator
      ∙ Nat.mul_left_comm _ _ _
      ∙ Nat.mul_comm _ _
      ∙ grind (arith, reduce_numerator)

-- Equal quotients have equal lowest terms.
module _ (n d n' d' : ℕ) (hn : 0 < n) (hd : 0 < d) (hn' : 0 < n') (hd' : 0 < d')
    (same : n * d' ≡ n' * d) where
  gcd_numerators : greatest_common_divisor n d * n' ≡ greatest_common_divisor n' d' * n
  gcd_numerators =
      sym (gcd-mul n d n')
      ∙ ap₂ greatest_common_divisor (Nat.mul_comm n n')
          (Nat.mul_comm d n' ∙ sym same ∙ Nat.mul_comm n d')
      ∙ gcd-mul n' d' n

  gcd_denominators : greatest_common_divisor n d * d' ≡ greatest_common_divisor n' d' * d
  gcd_denominators =
      sym (gcd-mul n d d') ∙ ap₂ greatest_common_divisor same (Nat.mul_comm d d') ∙ gcd-mul n' d' d

  reduce-canonical : reduce n d ≡ reduce n' d'
  reduce-canonical = λ i. record {
    numerator =
        cancel_factors _ _ _ _ n n' (gcd-pos n d hn) (gcd-pos n' d' hn')
          (reduce_numerator n d hn hd) (reduce_numerator n' d' hn' hd') gcd_numerators i;
    denominator =
        cancel_factors _ _ _ _ d d' (gcd-pos n d hn) (gcd-pos n' d' hn')
          (reduce_denominator n d hn hd) (reduce_denominator n' d' hn' hd') gcd_denominators i;
  }

cross_cancel : (x y n d n' d' : ℕ) → 0 < y → x * d ≡ n * y → x * d' ≡ n' * y → n * d' ≡ n' * d
cross_cancel x y n d n' d' h e e' =
    Nat.eq_of_mul-eq-mul_right y h (n * d') (n' * d)
      (omega (arith, ap (λ t. t * d') e, ap (λ t. t * d) e'))

-- For u32 components that are not zero, `new` returns a valid rate (positive components in lowest
-- terms, each again a u32) whose quotient is that of the components.
pub new-IsValid :
    (n d : ℕ)
    → 0 < n
    → 0 < d
    → n < 2 ^ 32
    → d < 2 ^ 32
    → (r : RationalRate) × (new n d ≡ ok r) × IsValid r × (r.numerator * d ≡ n * r.denominator)
new-IsValid n d hn hd bn bd =
    (reduce n d, new-eq_ok n d hn hd, reduce-IsValid n d hn hd bn bd, reduce-cross n d hn hd)

-- Two pairs of positive components give the same rate exactly when they have the same quotient.
pub new-eq_iff :
    (n d n' d' : ℕ) → 0 < n → 0 < d → 0 < n' → 0 < d' → (new n d ≡ new n' d') ↔ (n * d' ≡ n' * d)
new-eq_iff n d n' d' hn hd hn' hd' = (
  (λ h. same_quotient (ok_injective (sym (new-eq_ok n d hn hd) ∙ h ∙ new-eq_ok n' d' hn' hd'))),
  λ same.
      new-eq_ok n d hn hd
      ∙ ap ok (reduce-canonical n d n' d' hn hd hn' hd' same)
      ∙ sym (new-eq_ok n' d' hn' hd'),
)
  where
    ok_injective : ok (reduce n d) ≡ ok (reduce n' d') → reduce n d ≡ reduce n' d'
    ok_injective e = cc

    same_quotient : reduce n d ≡ reduce n' d' → n * d' ≡ n' * d
    same_quotient e =
        cross_cancel (reduce n d).numerator (reduce n d).denominator n d n' d'
          (pos_of_factor _ _ d (reduce_denominator n d hn hd) hd) (reduce-cross n d hn hd)
          (rw e (reduce-cross n' d' hn' hd'))

new_test : new 60000 2002 ≡ ok (record { numerator = 30000; denominator = 1001 })
unfolding new greatest_common_divisor
new_test = refl
