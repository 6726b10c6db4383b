-- ===== src/Core/Time/Compare.antt =====
-- `checked_cmp` and `equivalent` of crates/postproject-core/src/time.rs: what they return for the
-- values that the constructors make.
use native.Mathlib.Nat
use postproject.Base.{ℕ, ◌+◌, ◌-◌, ◌*◌, ◌^◌, ◌≤◌, ◌<◌, ◌≡◌, sym, ap, ◌∙◌, true, arith, ok, Ordering}
use postproject.Base.Int.{ℤ, pos, pos_part, neg_part, ◌*ℤ◌}
use postproject.Base.Machine.{
  fits, i64_bound, i128_bound, *ℤ-pos_part, *ℤ-neg_part, fits_of_parts, parts_of_fits,
  checked_mul-eq_some, cmp_ℤ,
}
use postproject.Core.Time.Instant.{
  RationalTime, IsValid, checked_mul_twice, comparison_product, checked_cmp, scaled,
}

product-le :
    (p a b : ℕ) → p ≤ 2 ^ 63 → a < 2 ^ 32 → b < 2 ^ 32 → (p * a < 2 ^ 127) × (p * a * b < 2 ^ 127)
product-le p a b hp ha hb =
    let ha' : a ≤ 2 ^ 32 - 1 = omega arith in
    let hb' : b ≤ 2 ^ 32 - 1 = omega arith in
    (
      omega (arith, Nat.mul-le-mul hp ha'),
      omega (arith, Nat.mul-le-mul (Nat.mul-le-mul hp ha') hb'),
    )

pub scaled-pos_part : (v : ℤ) (a b : ℕ) → pos_part (scaled v a b) ≡ pos_part v * a * b
scaled-pos_part v a b = *ℤ-pos_part (v *ℤ pos a) b ∙ ap (λ t. t * b) (*ℤ-pos_part v a)

pub scaled-neg_part : (v : ℤ) (a b : ℕ) → neg_part (scaled v a b) ≡ neg_part v * a * b
scaled-neg_part v a b = *ℤ-neg_part (v *ℤ pos a) b ∙ ap (λ t. t * b) (*ℤ-neg_part v a)

-- In i128 the two products of an i64 and two u32 never overflow.
module _ (v : ℤ) (a b : ℕ) (hv : fits i64_bound v ≡ true) (ha : a < 2 ^ 32) (hb : b < 2 ^ 32) where
  first_product_fits : fits i128_bound (v *ℤ pos a) ≡ true
  first_product_fits =
      let (p, n) = parts_of_fits i64_bound v (omega arith) hv in
      fits_of_parts i128_bound (v *ℤ pos a)
        (omega (arith, *ℤ-pos_part v a, product-le (pos_part v) a b (omega arith) ha hb))
        (omega (arith, *ℤ-neg_part v a, product-le (neg_part v) a b n ha hb))

  second_product_fits : fits i128_bound (scaled v a b) ≡ true
  second_product_fits =
      let (p, n) = parts_of_fits i64_bound v (omega arith) hv in
      fits_of_parts i128_bound (scaled v a b)
        (omega (arith, scaled-pos_part v a b, product-le (pos_part v) a b (omega arith) ha hb))
        (omega (arith, scaled-neg_part v a b, product-le (neg_part v) a b n ha hb))

  pub checked_mul_twice-eq_ok : checked_mul_twice v a b ≡ ok (scaled v a b)
  unfolding checked_mul_twice
  checked_mul_twice-eq_ok = rw (
    checked_mul-eq_some i128_bound v (pos a) first_product_fits,
    checked_mul-eq_some i128_bound (v *ℤ pos a) (pos b) second_product_fits,
    checked_mul_twice,
  )

-- The left product of the comparison of `a` with `b`.
abbrev pub cross : RationalTime → RationalTime → ℤ
cross a b = scaled a.value a.rate.denominator b.rate.numerator

module _ (a b : RationalTime) (ha : IsValid a) (hb : IsValid b) where
  -- In i128 the comparison of valid times never overflows, and is that of the exact cross products.
  pub checked_cmp-eq_ok : checked_cmp a b ≡ ok (cmp_ℤ (cross a b) (cross b a))
  unfolding checked_cmp comparison_product
  checked_cmp-eq_ok = rw (
    checked_mul_twice-eq_ok a.value a.rate.denominator b.rate.numerator ha.value_i64
        ha.rate_IsValid.denominator_u32 hb.rate_IsValid.numerator_u32,
    checked_mul_twice-eq_ok b.value b.rate.denominator a.rate.numerator hb.value_i64
        hb.rate_IsValid.denominator_u32 ha.rate_IsValid.numerator_u32,
  )

abbrev pub reversed : Ordering → Ordering
reversed Ordering.lt = Ordering.gt
reversed Ordering.eq = Ordering.eq
reversed Ordering.gt = Ordering.lt

cmp_ℤ-swap : (x y : ℤ) → cmp_ℤ y x ≡ reversed (cmp_ℤ x y)
cmp_ℤ-swap x y = ground arith

pub cmp_ℤ-eq :
    (x y : ℤ) → cmp_ℤ x y ≡ Ordering.eq → pos_part x + neg_part y ≡ pos_part y + neg_part x
cmp_ℤ-eq x y h = ground arith

cmp_ℤ-lt : (x y : ℤ) → cmp_ℤ x y ≡ Ordering.lt → pos_part x + neg_part y < pos_part y + neg_part x
cmp_ℤ-lt x y h = ground arith

pub eq-cmp_ℤ :
    (x y : ℤ) → pos_part x + neg_part y ≡ pos_part y + neg_part x → cmp_ℤ x y ≡ Ordering.eq
eq-cmp_ℤ x y h = ground arith

lt-cmp_ℤ : (x y : ℤ) → pos_part x + neg_part y < pos_part y + neg_part x → cmp_ℤ x y ≡ Ordering.lt
lt-cmp_ℤ x y h = ground arith

pub ok_injective : {x y : Ordering} → ok x ≡ ok y → x ≡ y
ok_injective e = cc

-- Where the comparison of two valid times succeeds, that of the exchanged times succeeds with the
-- reversed result.
pub checked_cmp-swap :
    (a b : RationalTime) (o : Ordering)
    → IsValid a
    → IsValid b
    → checked_cmp a b ≡ ok o
    → checked_cmp b a ≡ ok (reversed o)
checked_cmp-swap a b o ha hb h =
    checked_cmp-eq_ok b a hb ha
    ∙ ap ok (cmp_ℤ-swap (cross a b) (cross b a))
    ∙ ap ok (ap reversed (ok_injective (sym (checked_cmp-eq_ok a b ha hb) ∙ h)))

-- The inequality that the comparison decides, over the parts of the two values.
abbrev Before : RationalTime → RationalTime → Type 0
Before a b =
    pos_part a.value * a.rate.denominator * b.rate.numerator
      + neg_part b.value * b.rate.denominator * a.rate.numerator
    < pos_part b.value * b.rate.denominator * a.rate.numerator
      + neg_part a.value * a.rate.denominator * b.rate.numerator

module _ (a b : RationalTime) (ha : IsValid a) (hb : IsValid b) where
  pub cross_parts :
      (pos_part (cross a b) ≡ pos_part a.value * a.rate.denominator * b.rate.numerator)
      × (neg_part (cross a b) ≡ neg_part a.value * a.rate.denominator * b.rate.numerator)
  cross_parts = (
    scaled-pos_part a.value a.rate.denominator b.rate.numerator,
    scaled-neg_part a.value a.rate.denominator b.rate.numerator,
  )

  cross_parts' :
      (pos_part (cross b a) ≡ pos_part b.value * b.rate.denominator * a.rate.numerator)
      × (neg_part (cross b a) ≡ neg_part b.value * b.rate.denominator * a.rate.numerator)
  cross_parts' = (
    scaled-pos_part b.value b.rate.denominator a.rate.numerator,
    scaled-neg_part b.value b.rate.denominator a.rate.numerator,
  )

  Before-of_checked_cmp : checked_cmp a b ≡ ok Ordering.lt → Before a b
  Before-of_checked_cmp h = omega (
    arith,
    cross_parts,
    cross_parts',
    cmp_ℤ-lt (cross a b) (cross b a) (ok_injective (sym (checked_cmp-eq_ok a b ha hb) ∙ h)),
  )

  checked_cmp_of_Before : Before a b → checked_cmp a b ≡ ok Ordering.lt
  checked_cmp_of_Before h =
      checked_cmp-eq_ok a b ha hb
      ∙ ap ok (lt-cmp_ℤ (cross a b) (cross b a) (omega (arith, cross_parts, cross_parts')))

-- With the products named: multiply by the third numerator, by the first, and cancel the second.
Before_parts :
    (pa ma da na pb mb db nb pc mc dc nc : ℕ)
    → 0 < nc
    → pa * da * nb + mb * db * na < pb * db * na + ma * da * nb
    → pb * db * nc + mc * dc * nb < pc * dc * nb + mb * db * nc
    → pa * da * nc + mc * dc * na < pc * dc * na + ma * da * nc
Before_parts pa ma da na pb mb db nb pc mc dc nc h p q =
    Nat.lt_of_mul-lt-mul_right nb
      (omega (arith, Nat.mul-lt-mul_of_pos_right p h, Nat.mul-le-mul_right na (Nat.le_of_lt q)))

-- The order of valid rational times is transitive, whatever their rates are.
pub checked_cmp_trans :
    (a b c : RationalTime)
    → IsValid a
    → IsValid b
    → IsValid c
    → checked_cmp a b ≡ ok Ordering.lt
    → checked_cmp b c ≡ ok Ordering.lt
    → checked_cmp a c ≡ ok Ordering.lt
checked_cmp_trans a b c ha hb hc p q = checked_cmp_of_Before a c ha hc (
    Before_parts (pos_part a.value) (neg_part a.value) a.rate.denominator a.rate.numerator
      (pos_part b.value) (neg_part b.value) b.rate.denominator b.rate.numerator (pos_part c.value)
      (neg_part c.value) c.rate.denominator c.rate.numerator hc.rate_IsValid.numerator_pos
      (Before-of_checked_cmp a b ha hb p) (Before-of_checked_cmp b c hb hc q))
