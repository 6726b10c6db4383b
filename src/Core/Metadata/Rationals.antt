-- ===== src/Core/Metadata/Rationals.antt =====
-- `RationalValue::new` of crates/postproject-core/src/metadata.rs.
use native.Mathlib.Nat
use postproject.Base.{
  ℕ, zero, suc, ◌-◌, ◌*◌, ◌/◌, ◌^◌, ◌≤◌, ◌<◌, ◌≡◌, refl, sym, ap, ◌∙◌, ◌⊎◌, inl, inr, true, false,
  arith, ltb, ◌==◌, ok, Bool-cases, ltb→lt, lt→ltb, ◌↔◌,
}
use postproject.Base.Int.{ℤ, pos, negsuc, ◌*ℤ◌, pos_part, neg_part, eq_of_parts}
use postproject.Base.Machine.{
  quot, nat_abs, is_neg, fits, i64_bound, quot-mul, *ℤ-pos_part, *ℤ-neg_part, nat_abs-signed,
}
use postproject.Core.Time.Gcd.{greatest_common_divisor, gcd-dvd, gcd-mul}
use postproject.Core.Metadata.Numbers.{
  RationalValue, rational_value, reduced_numerator, IsRational, fits-signed,
}

factor_pos : (x g n : ℕ) → x * g ≡ n → 0 < n → 0 < x
factor_pos zero g n e h = absurd (omega (arith, Nat.zero-mul g))
factor_pos (suc x) g n e h = omega arith

nat_abs-quot : (n : ℤ) (g : ℕ) → nat_abs (quot n (pos g)) ≡ nat_abs n / g
nat_abs-quot (pos n) g = refl
nat_abs-quot (negsuc n) g = nat_abs-signed true (suc n / g)

fits-quot : (n : ℤ) (g : ℕ) → fits i64_bound n ≡ true → fits i64_bound (quot n (pos g)) ≡ true
fits-quot (pos n) g h =
    lt→ltb (n / g) i64_bound (omega (arith, ltb→lt n i64_bound h, Nat.div-le_self n g))
fits-quot (negsuc n) g h =
    fits-signed i64_bound (suc n / g) (omega arith)
      (omega (arith, ltb→lt n i64_bound h, Nat.div-le_self (suc n) g))

mul_through : (w n : ℤ) (d d' g : ℕ) → n ≡ w *ℤ pos g → d' * g ≡ d → w *ℤ pos d ≡ n *ℤ pos d'
mul_through w n d d' g e f = eq_of_parts _ _ (
    omega (
      arith,
      *ℤ-pos_part w d,
      *ℤ-neg_part w d,
      *ℤ-pos_part n d',
      *ℤ-neg_part n d',
      ap (λ (t : ℕ). t * d') (ap pos_part e ∙ *ℤ-pos_part w g),
      ap (λ (t : ℕ). t * d') (ap neg_part e ∙ *ℤ-neg_part w g),
      ap (λ (t : ℕ). pos_part w * t) f,
      ap (λ (t : ℕ). neg_part w * t) f,
    ))

-- Both components over their greatest common divisor, with what is left of them.
module _ (n : ℤ) (d : ℕ) (nonzero : 0 < d) where
  abbrev divisor : ℕ
  divisor = greatest_common_divisor (nat_abs n) d

  divisor_pos : 0 < divisor
  divisor_pos = Nat.pos_of_dvd_of_pos (gcd-dvd (nat_abs n) d).1 nonzero

  numerator_factor : nat_abs n / divisor * divisor ≡ nat_abs n
  numerator_factor = Nat.div-mul_cancel _ (gcd-dvd (nat_abs n) d).0

  denominator_factor : d / divisor * divisor ≡ d
  denominator_factor = Nat.div-mul_cancel _ (gcd-dvd (nat_abs n) d).1

  lowest : greatest_common_divisor (nat_abs n / divisor) (d / divisor) ≡ 1
  lowest = Nat.eq_of_mul-eq-mul_right divisor divisor_pos _ _ (
      sym (gcd-mul (nat_abs n / divisor) (d / divisor) divisor)
      ∙ ap (λ t. greatest_common_divisor t (d / divisor * divisor)) numerator_factor
      ∙ ap (greatest_common_divisor (nat_abs n)) denominator_factor
      ∙ sym (Nat.one-mul divisor))

  denominator_pos : 0 < d / divisor
  denominator_pos = factor_pos (d / divisor) divisor d denominator_factor nonzero

  exact : n ≡ quot n (pos divisor) *ℤ pos divisor
  exact =
      quot-mul n (quot n (pos divisor)) divisor
        (nat_abs-signed (is_neg n) _ ∙ Nat.mod-eq-zero_of_dvd _ (gcd-dvd (nat_abs n) d).0) refl

  same_quotient : quot n (pos divisor) *ℤ pos d ≡ n *ℤ pos (d / divisor)
  same_quotient =
      mul_through (quot n (pos divisor)) n d (d / divisor) divisor exact denominator_factor

  -- Where the numerator is divided, the result is in lowest terms and has the same quotient.
  rational_value-divided :
      fits i64_bound n ≡ true
      → d < 2 ^ 64
      → reduced_numerator n divisor ≡ quot n (pos divisor)
      → (r : RationalValue) × (rational_value n d ≡ ok r)
        × IsRational r
        × (r.numerator *ℤ pos d ≡ n *ℤ pos r.denominator)
  unfolding rational_value
  rational_value-divided f u divided =
      let some : (d == 0) ≡ false = ground (arith, nonzero) in
      (
        record { numerator = quot n (pos divisor); denominator = d / divisor },
        rw (some, divided) refl,
        record {
          in_range = fits-quot n divisor f;
          positive = denominator_pos;
          in_u64 = omega (arith, u, Nat.div-le_self d divisor);
          lowest =
              ap (λ t. greatest_common_divisor t (d / divisor)) (nat_abs-quot n divisor) ∙ lowest;
        },
        same_quotient,
      )

-- The divisor of a numerator that is not zero is outside i64 only at the least i64.
ltb-false→le : (a b : ℕ) → ltb a b ≡ false → b ≤ a
ltb-false→le a b h = ground arith

divisor-large :
    (n : ℤ) (d : ℕ)
    → 0 < d
    → 0 < nat_abs n
    → fits i64_bound n ≡ true
    → i64_bound ≤ greatest_common_divisor (nat_abs n) d
    → (n ≡ negsuc (i64_bound - 1)) × (greatest_common_divisor (nat_abs n) d ≡ i64_bound)
divisor-large (pos m) d p q f h =
    absurd (omega (arith, ltb→lt m i64_bound f, Nat.le_of_dvd q (gcd-dvd m d).0, h))
divisor-large (negsuc m) d p q f h =
    let low : greatest_common_divisor (suc m) d ≤ suc m = Nat.le_of_dvd q (gcd-dvd (suc m) d).0 in
    let at : m ≡ i64_bound - 1 = omega (arith, ltb→lt m i64_bound f, low, h) in
    (ap negsuc at, omega (arith, low, h, at))

pub rational_value-IsRational :
    (n : ℤ) (d : ℕ)
    → fits i64_bound n ≡ true
    → 0 < d
    → d < 2 ^ 64
    → (0 < nat_abs n) ⊎ (d < 2 ^ 63)
    → (r : RationalValue) × (rational_value n d ≡ ok r)
      × IsRational r
      × (r.numerator *ℤ pos d ≡ n *ℤ pos r.denominator)
rational_value-IsRational n d f p u h =
    rational_value-divided n d p f u (elim (Bool-cases (ltb g i64_bound)) [
      | inl y ↦ rw y refl
      | inr m ↦
          let (least, at) = divisor-large n d p (numerator_pos m) f (ltb-false→le g i64_bound m) in
          rw (at, least) refl
    ])
  where
    g : ℕ
    g = greatest_common_divisor (nat_abs n) d

    below : g ≤ d
    below = Nat.le_of_dvd p (gcd-dvd (nat_abs n) d).1

    numerator_pos : ltb g i64_bound ≡ false → 0 < nat_abs n
    numerator_pos m = elim h [ inl q ↦ q | inr q ↦ absurd (ground (arith, below)) ]

gcd-zero : (d : ℕ) → greatest_common_divisor 0 d ≡ d
unfolding greatest_common_divisor
gcd-zero d =
    ap (λ t. greatest_common_divisor t d) (sym (Nat.zero-mul d))
    ∙ ap (greatest_common_divisor (0 * d)) (sym (Nat.one-mul d))
    ∙ gcd-mul 0 1 d
    ∙ Nat.one-mul d

pub rational_value-zero :
    (d : ℕ)
    → 2 ^ 63 ≤ d
    → rational_value (pos 0) d ≡ ok (record { numerator = negsuc 0; denominator = 1 })
unfolding rational_value
rational_value-zero d h =
    let some : (d == 0) ≡ false = ground (arith, h) in
    let large : ltb d i64_bound ≡ false = ground (arith, h) in
    rw (some, gcd-zero d, large, Nat.div_self {n = d} (omega (arith, h))) refl

pub minus_one-IsRational : IsRational (record { numerator = negsuc 0; denominator = 1 })
unfolding greatest_common_divisor
minus_one-IsRational = record {
  in_range = refl;
  positive = omega arith;
  in_u64 = omega arith;
  lowest = refl;
}

not_zero : (d : ℕ) → 0 < d → ¬ (negsuc 0 *ℤ pos d ≡ pos 0 *ℤ pos 1)
not_zero d h e =
    absurd (omega (arith, h, ap neg_part e, *ℤ-neg_part (negsuc 0) d, *ℤ-neg_part (pos 0) 1))

-- For a numerator in i64 and a denominator in u64 that is not zero, new returns a value in lowest
-- terms, in i64 and u64; it has the quotient of the arguments exactly where the numerator is not
-- zero or the denominator is below 2^63.
pub rational_value-quotient :
    (n : ℤ) (d : ℕ)
    → fits i64_bound n ≡ true
    → 0 < d
    → d < 2 ^ 64
    → (r : RationalValue) × (rational_value n d ≡ ok r)
      × IsRational r
      × ((r.numerator *ℤ pos d ≡ n *ℤ pos r.denominator) ↔ ((0 < nat_abs n) ⊎ (d < 2 ^ 63)))
rational_value-quotient (negsuc m) d f p u =
    let (r, e, valid, same) = rational_value-IsRational (negsuc m) d f p u (inl (omega arith)) in
    (r, e, valid, ((λ _. inl (omega arith)), (λ _. same)))
rational_value-quotient (pos (suc m)) d f p u =
    let (r, e, valid, same) = rational_value-IsRational (pos (suc m)) d f p u (inl (omega arith)) in
    (r, e, valid, ((λ _. inl (omega arith)), (λ _. same)))
rational_value-quotient (pos zero) d f p u = elim (Bool-cases (ltb d i64_bound)) [
  | inl y ↦
      let small : d < 2 ^ 63 = ltb→lt d i64_bound y in
      let (r, e, valid, same) = rational_value-IsRational (pos 0) d f p u (inr small) in
      (r, e, valid, ((λ _. inr small), (λ _. same)))
  | inr large ↦
      let wide : 2 ^ 63 ≤ d = ltb-false→le d i64_bound large in
      (
        record { numerator = negsuc 0; denominator = 1 },
        rational_value-zero d wide,
        minus_one-IsRational,
        (
          (λ e. absurd (not_zero d p e)),
          (λ q. elim q [
            | inl z ↦ absurd (omega (arith, z))
            | inr s ↦ absurd (omega (arith, wide, s))
          ]),
        ),
      )
]
