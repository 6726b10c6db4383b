-- ===== src/Core/Time/Rescale.antt =====
-- `rescaled_to` of crates/postproject-core/src/time.rs.
use native.Mathlib.Nat
use postproject.Base.{
  ℕ, ◌-◌, ◌*◌, ◌^◌, ◌≤◌, ◌<◌, ◌≡◌, refl, sym, ap, ap₂, subst, ◌∙◌, ◌↔◌, true, arith, Ordering, ok,
  some, false, lt→ltb,
}
use postproject.Base.Int.{ℤ, pos, pos_part, neg_part, ◌*ℤ◌, eq_of_parts}
use postproject.Base.Machine.{
  fits, i64_bound, i128_bound, *ℤ-pos_part, *ℤ-neg_part, checked_mul, checked_mul-eq_some,
  signed-mul, quot, cmp_ℤ, quot-mul, rem-mul, mul-quot,
}
use postproject.Core.Time.Rate
use postproject.Core.Time.Rate.{RationalRate}
use postproject.Core.Time.Instant.{
  RationalTime, IsValid, new, conclude_at, divide_at, rescaled_to, checked_cmp, scaled,
}
use postproject.Core.Time.Compare.{
  checked_mul_twice-eq_ok, checked_cmp-eq_ok, cross, scaled-pos_part, scaled-neg_part, cmp_ℤ-eq,
  eq-cmp_ℤ, ok_injective, checked_cmp-swap,
}

denominator-lt : (a b : ℕ) → a < 2 ^ 32 → b < 2 ^ 32 → a * b < 2 ^ 127
denominator-lt a b ha hb =
    let ha' : a ≤ 2 ^ 32 - 1 = omega arith in
    let hb' : b ≤ 2 ^ 32 - 1 = omega arith in omega (arith, Nat.mul-le-mul ha' hb')

denominator-eq_some :
    (a b : ℕ)
    → a < 2 ^ 32
    → b < 2 ^ 32
    → checked_mul i128_bound (pos a) (pos b) ≡ some (pos (a * b))
denominator-eq_some a b ha hb =
    checked_mul-eq_some i128_bound (pos a) (pos b)
      (ap (fits i128_bound) (signed-mul false a b) ∙ lt→ltb _ _ (denominator-lt a b ha hb))
    ∙ ap some (signed-mul false a b)

-- What a result of the tail says, and what makes it succeed.
conclude_at-eq_ok :
    (r : ℕ) (q : ℤ) (rate : RationalRate) (t : RationalTime)
    → conclude_at r q rate ≡ ok t
    → (r ≡ 0) × (fits i64_bound q ≡ true) × (t ≡ new q rate)
unfolding conclude_at
conclude_at-eq_ok r q rate t h = ground arith

conclude_at_exact :
    (r : ℕ) (q : ℤ) (rate : RationalRate)
    → r ≡ 0
    → fits i64_bound q ≡ true
    → conclude_at r q rate ≡ ok (new q rate)
unfolding conclude_at
conclude_at_exact r q rate e f = ground arith

module _ (t : RationalTime) (rate : RationalRate) (ht : IsValid t) (hr : Rate.IsValid rate) where
  pub rescaled_to-divide_at :
      rescaled_to t rate
      ≡ divide_at
          (scaled t.value rate.numerator t.rate.denominator)
          (pos (t.rate.numerator * rate.denominator))
          rate
  unfolding rescaled_to
  rescaled_to-divide_at = rw (
    checked_mul_twice-eq_ok t.value rate.numerator t.rate.denominator ht.value_i64 hr.numerator_u32
        ht.rate_IsValid.denominator_u32,
    denominator-eq_some t.rate.numerator rate.denominator ht.rate_IsValid.numerator_u32
        hr.denominator_u32,
  )

  -- The equation between the products is that between the two quotients.
  module _ (w : ℤ) where
    products_eq :
        cmp_ℤ (cross t (new w rate)) (cross (new w rate) t) ≡ Ordering.eq
        → scaled t.value rate.numerator t.rate.denominator
          ≡ w *ℤ pos (t.rate.numerator * rate.denominator)
    products_eq h = eq_of_parts _ _ (
        omega (
          arith,
          scaled-pos_part t.value t.rate.denominator rate.numerator,
          scaled-neg_part t.value t.rate.denominator rate.numerator,
          scaled-pos_part w rate.denominator t.rate.numerator,
          scaled-neg_part w rate.denominator t.rate.numerator,
          scaled-pos_part t.value rate.numerator t.rate.denominator,
          scaled-neg_part t.value rate.numerator t.rate.denominator,
          *ℤ-pos_part w (t.rate.numerator * rate.denominator),
          *ℤ-neg_part w (t.rate.numerator * rate.denominator),
          cmp_ℤ-eq (cross t (new w rate)) (cross (new w rate) t) h,
        ))

    eq_products :
        scaled t.value rate.numerator t.rate.denominator
          ≡ w *ℤ pos (t.rate.numerator * rate.denominator)
        → cmp_ℤ (cross t (new w rate)) (cross (new w rate) t) ≡ Ordering.eq
    eq_products h = eq-cmp_ℤ (cross t (new w rate)) (cross (new w rate) t) (
        omega (
          arith,
          scaled-pos_part t.value t.rate.denominator rate.numerator,
          scaled-neg_part t.value t.rate.denominator rate.numerator,
          scaled-pos_part w rate.denominator t.rate.numerator,
          scaled-neg_part w rate.denominator t.rate.numerator,
          scaled-pos_part t.value rate.numerator t.rate.denominator,
          scaled-neg_part t.value rate.numerator t.rate.denominator,
          *ℤ-pos_part w (t.rate.numerator * rate.denominator),
          *ℤ-neg_part w (t.rate.numerator * rate.denominator),
          ap pos_part h,
          ap neg_part h,
        ))

  rescaled_to_complete :
      (w : ℤ)
      → IsValid (new w rate)
      → checked_cmp t (new w rate) ≡ ok Ordering.eq
      → rescaled_to t rate ≡ ok (new w rate)
  rescaled_to_complete w v h =
      let k : ℕ = t.rate.numerator * rate.denominator in
      rescaled_to-divide_at
      ∙ ap (λ n. divide_at n (pos k) rate)
          (products_eq w (ok_injective (sym (checked_cmp-eq_ok t (new w rate) ht v) ∙ h)))
      ∙ ap₂ (λ r q. conclude_at r q rate) (rem-mul w k)
          (mul-quot w k (Nat.mul-pos ht.rate_IsValid.numerator_pos hr.denominator_pos))
      ∙ conclude_at_exact 0 w rate refl v.value_i64

-- For a valid time and rate, `rescaled_to` returns exactly the valid times of that rate which the
-- comparison finds equal.
pub rescaled_to_iff :
    (t : RationalTime) (rate : RationalRate) (t' : RationalTime)
    → IsValid t
    → Rate.IsValid rate
    → (rescaled_to t rate ≡ ok t')
      ↔ ((t'.rate ≡ rate) × IsValid t' × (checked_cmp t t' ≡ ok Ordering.eq))
rescaled_to_iff t rate t' ht hr = (sound, λ h. complete h.0 h.1 h.2)
  where
    sound :
        rescaled_to t rate ≡ ok t'
        → (t'.rate ≡ rate) × IsValid t' × (checked_cmp t t' ≡ ok Ordering.eq)
    sound h =
        let (r, f, e) =
          conclude_at-eq_ok _ _ rate t' (sym (rescaled_to-divide_at t rate ht hr) ∙ h) in
        let q : ℤ =
          quot (scaled t.value rate.numerator t.rate.denominator)
            (pos (t.rate.numerator * rate.denominator)) in
        let v : IsValid (new q rate) = record { value_i64 = f; rate_IsValid = hr } in
        subst (λ z. (z.rate ≡ rate) × IsValid z × (checked_cmp t z ≡ ok Ordering.eq)) (sym e)
          (
            refl,
            v,
            checked_cmp-eq_ok t (new q rate) ht v
                ∙ ap ok (eq_products t rate ht hr q (quot-mul _ q _ r refl)),
          )

    complete :
        t'.rate ≡ rate → IsValid t' → checked_cmp t t' ≡ ok Ordering.eq → rescaled_to t rate ≡ ok t'
    complete same v h =
        let e : t' ≡ new t'.value rate = λ i. new t'.value (same i) in
        subst (λ z. rescaled_to t rate ≡ ok z) (sym e)
          (rescaled_to_complete t rate ht hr t'.value (subst IsValid e v)
            (subst (λ z. checked_cmp t z ≡ ok Ordering.eq) e h))

-- Rescaling a valid time to a valid rate, where that succeeds, and back returns the time that one
-- started from.
pub rescaled_to-rescaled_to :
    (t : RationalTime) (rate : RationalRate) (t' : RationalTime)
    → IsValid t
    → Rate.IsValid rate
    → rescaled_to t rate ≡ ok t'
    → rescaled_to t' t.rate ≡ ok t
rescaled_to-rescaled_to t rate t' ht hr h =
    let (same, v, e) = (rescaled_to_iff t rate t' ht hr).0 h in
    (rescaled_to_iff t' t.rate t v ht.rate_IsValid).1
      (refl, ht, checked_cmp-swap t t' Ordering.eq ht v e)
