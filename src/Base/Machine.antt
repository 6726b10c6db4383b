-- ===== src/Base/Machine.antt =====
-- Fixed-width signed integers of the Rust standard library: a value is an integer, an operation
-- tests the range of the exact result.
use postproject.Base.{
  ℕ, zero, suc, ◌+◌, ◌*◌, ◌/◌, ◌%◌, ◌^◌, ◌≤◌, ◌<◌, ◌≡◌, refl, sym, ap, ap₂, subst, ◌∙◌, Bool, true,
  false, Option, none, some, arith, ltb, if◌then◌else◌, compare, Ordering,
}
use postproject.Base.Int.{ℤ, pos, negsuc, pos_part, neg_part, ◌+ℤ◌, ◌*ℤ◌, eq_of_parts}
use native.Mathlib.Nat

-- The integers from -bound to bound - 1: a width of w bits has the bound 2 ^ (w - 1).
abbrev pub fits : ℕ → ℤ → Bool
fits bound (pos n) = ltb n bound
fits bound (negsuc n) = ltb n bound

abbrev pub i64_bound : ℕ
i64_bound = 2 ^ 63

abbrev pub i128_bound : ℕ
i128_bound = 2 ^ 127

-- `checked_add` and `checked_mul`.
unfoldable pub checked_add : ℕ → ℤ → ℤ → Option ℤ
checked_add bound a b = let c = a +ℤ b in if fits bound c then some c else none

unfoldable pub checked_mul : ℕ → ℤ → ℤ → Option ℤ
checked_mul bound a b = let c = a *ℤ b in if fits bound c then some c else none

abbrev pub is_neg : ℤ → Bool
is_neg (pos n) = false
is_neg (negsuc n) = true

abbrev pub nat_abs : ℤ → ℕ
nat_abs (pos n) = n
nat_abs (negsuc n) = suc n

abbrev pub differ : Bool → Bool → Bool
differ false s = s
differ true false = true
differ true true = false

abbrev pub signed : Bool → ℕ → ℤ
signed false n = pos n
signed true zero = pos 0
signed true (suc n) = negsuc n

-- `/` and `%` truncate towards zero; the callers' divisors are positive.
abbrev pub quot : ℤ → ℤ → ℤ
quot a b = signed (differ (is_neg a) (is_neg b)) (nat_abs a / nat_abs b)

abbrev pub rem : ℤ → ℤ → ℤ
rem a b = signed (is_neg a) (nat_abs a % nat_abs b)

-- `cmp`.
abbrev pub cmp_ℤ : ℤ → ℤ → Ordering
cmp_ℤ a b = compare (pos_part a + neg_part b) (pos_part b + neg_part a)

-- A product with a number, part by part.
pub *ℤ-pos_part : (a : ℤ) (n : ℕ) → pos_part (a *ℤ pos n) ≡ pos_part a * n
unfolding ◌*ℤ◌
*ℤ-pos_part (pos m) n = ground arith
*ℤ-pos_part (negsuc m) n = ground arith

pub *ℤ-neg_part : (a : ℤ) (n : ℕ) → neg_part (a *ℤ pos n) ≡ neg_part a * n
unfolding ◌*ℤ◌
*ℤ-neg_part (pos m) n = ground arith
*ℤ-neg_part (negsuc m) n = ground arith

pub fits_of_parts :
    (bound : ℕ) (a : ℤ) → pos_part a < bound → neg_part a ≤ bound → fits bound a ≡ true
fits_of_parts bound (pos m) h k = ground arith
fits_of_parts bound (negsuc m) h k = ground arith

pub parts_of_fits :
    (bound : ℕ) (a : ℤ)
    → 0 < bound
    → fits bound a ≡ true
    → (pos_part a < bound) × (neg_part a ≤ bound)
parts_of_fits bound (pos m) z h = ground arith
parts_of_fits bound (negsuc m) z h = ground arith

pub checked_mul-eq_some :
    (bound : ℕ) (a b : ℤ) → fits bound (a *ℤ b) ≡ true → checked_mul bound a b ≡ some (a *ℤ b)
unfolding checked_mul
checked_mul-eq_some bound a b h = rw h

signed_parts :
    (s : Bool) (n : ℕ)
    → (pos_part (signed s n) ≡ (if s then 0 else n))
      × (neg_part (signed s n) ≡ (if s then n else 0))
signed_parts false n = (refl, refl)
signed_parts true zero = (refl, refl)
signed_parts true (suc n) = (refl, refl)

pub nat_abs-signed : (s : Bool) (n : ℕ) → nat_abs (signed s n) ≡ n
nat_abs-signed false n = refl
nat_abs-signed true zero = refl
nat_abs-signed true (suc n) = refl

signed-nat_abs : (a : ℤ) → signed (is_neg a) (nat_abs a) ≡ a
signed-nat_abs (pos n) = refl
signed-nat_abs (negsuc n) = refl

pub signed-mul : (s : Bool) (m k : ℕ) → signed s m *ℤ pos k ≡ signed s (m * k)
signed-mul false m k =
    eq_of_parts _ _ (omega (arith, *ℤ-pos_part (pos m) k, *ℤ-neg_part (pos m) k, Nat.zero-mul k))
signed-mul true m k = eq_of_parts _ _ (
    omega (
      arith,
      *ℤ-pos_part (signed true m) k,
      *ℤ-neg_part (signed true m) k,
      signed_parts true m,
      signed_parts true (m * k),
      Nat.zero-mul k,
      ap (λ t. t * k) (signed_parts true m).0,
      ap (λ t. t * k) (signed_parts true m).1,
    ))

is_neg-signed : (s : Bool) (n : ℕ) → 0 < n → is_neg (signed s n) ≡ s
is_neg-signed false n h = refl
is_neg-signed true zero h = elim h [ ]
is_neg-signed true (suc n) h = refl

quot_pos : (a : ℤ) (k : ℕ) → quot a (pos k) ≡ signed (is_neg a) (nat_abs a / k)
quot_pos (pos n) k = refl
quot_pos (negsuc n) k = refl

signed-mul_nat_abs : (w : ℤ) (k : ℕ) → w *ℤ pos k ≡ signed (is_neg w) (nat_abs w * k)
signed-mul_nat_abs w k =
    subst (λ z. z *ℤ pos k ≡ signed (is_neg w) (nat_abs w * k)) (signed-nat_abs w)
      (signed-mul (is_neg w) (nat_abs w) k)

quot-signed-mul : (w : ℤ) (k : ℕ) → 0 < k → quot (signed (is_neg w) (nat_abs w * k)) (pos k) ≡ w
quot-signed-mul (pos n) k h = ap pos (Nat.mul-div_cancel n h)
quot-signed-mul (negsuc n) k h =
    quot_pos (signed true (suc n * k)) k
    ∙ ap₂ signed (is_neg-signed true (suc n * k) (Nat.mul-pos (omega arith) h))
        (ap (λ t. t / k) (nat_abs-signed true (suc n * k)) ∙ Nat.mul-div_cancel (suc n) h)

-- Exact division by a positive number.
pub quot-mul : (a w : ℤ) (k : ℕ) → nat_abs (rem a (pos k)) ≡ 0 → quot a (pos k) ≡ w → a ≡ w *ℤ pos k
quot-mul a w k r q =
    sym (signed-nat_abs a)
    ∙ ap (signed (is_neg a)) (
        sym
          (Nat.div-mul_cancel k (Nat.dvd_of_mod-eq-zero k (sym (nat_abs-signed (is_neg a) _) ∙ r))))
    ∙ sym (signed-mul (is_neg a) (nat_abs a / k) k)
    ∙ ap (λ z. z *ℤ pos k) (sym (quot_pos a k) ∙ q)

pub rem-mul : (w : ℤ) (k : ℕ) → nat_abs (rem (w *ℤ pos k) (pos k)) ≡ 0
rem-mul w k =
    nat_abs-signed (is_neg (w *ℤ pos k)) _
    ∙ ap (λ z. nat_abs z % k) (signed-mul_nat_abs w k)
    ∙ ap (λ t. t % k) (nat_abs-signed (is_neg w) (nat_abs w * k))
    ∙ Nat.mul-mod_left (nat_abs w) k

pub mul-quot : (w : ℤ) (k : ℕ) → 0 < k → quot (w *ℤ pos k) (pos k) ≡ w
mul-quot w k h = ap (λ z. quot z (pos k)) (signed-mul_nat_abs w k) ∙ quot-signed-mul w k h
