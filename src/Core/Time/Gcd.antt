-- ===== src/Core/Time/Gcd.antt =====
-- `greatest_common_divisor` of crates/postproject-core/src/time.rs.
use Prim.Native.Nat.{◌∣◌}
use mathlib.Core.WellFounded.{Acc}
use native.Mathlib.Nat
use postproject.Base.{ℕ, zero, suc, ◌+◌, ◌*◌, ◌/◌, ◌%◌, ◌<◌, ◌≡◌, refl, subst, arith}
use postproject.Base.Order.{lt_wf}

mod-lt_suc : (a b : ℕ) → a % suc b < suc b
mod-lt_suc a b = omega arith

-- The `while` loop: it ends since `right` falls.
gcd_loop : (left right : ℕ) → Acc ◌<◌ right → ℕ
gcd_loop left right (Acc.intro zero _) = left
gcd_loop left right (Acc.intro (suc r) smaller) =
    gcd_loop (suc r) (left % suc r) (smaller (left % suc r) (mod-lt_suc left r))

unfoldable pub greatest_common_divisor : ℕ → ℕ → ℕ
unfolding gcd_loop mod-lt_suc lt_wf
greatest_common_divisor left right = gcd_loop left right (lt_wf.apply right)

-- What holds at `right == 0` and is kept by an iteration holds of the result.
module _ (P : ℕ → ℕ → ℕ → Type 0) (done : (a : ℕ) → P a 0 a)
    (iterate : (a b g : ℕ) → 0 < b → P b (a % b) g → P a b g) where
  gcd_loop_rule : (a b : ℕ) (w : Acc ◌<◌ b) → P a b (gcd_loop a b w)
  unfolding gcd_loop
  gcd_loop_rule a b (Acc.intro zero _) = done a
  gcd_loop_rule a b (Acc.intro (suc r) smaller) =
      iterate a (suc r) _ (omega arith)
        (gcd_loop_rule (suc r) (a % suc r) (smaller (a % suc r) (mod-lt_suc a r)))

  gcd_rule : (a b : ℕ) → P a b (greatest_common_divisor a b)
  unfolding greatest_common_divisor
  gcd_rule a b = gcd_loop_rule a b (lt_wf.apply b)

pub gcd-dvd : (a b : ℕ) → (greatest_common_divisor a b ∣ a) × (greatest_common_divisor a b ∣ b)
gcd-dvd =
    gcd_rule (λ a b g. (g ∣ a) × (g ∣ b)) (λ a. (Nat.dvd_refl a, Nat.dvd-zero a))
      (λ a b g pos h. ((Nat.dvd-mod_iff g h.0).0 h.1, h.0))

mod-mul : (a b c : ℕ) → a * c ≡ b * c * (a / b) + a % b * c
mod-mul a b c = rw (Nat.mul_right_comm b c, ← Nat.add-mul, Nat.div-add-mod)

-- A number that divides both arguments, each scaled by `c`, divides the scaled result.
pub dvd-gcd_scaled : (k c a b : ℕ) → k ∣ a * c → k ∣ b * c → k ∣ greatest_common_divisor a b * c
dvd-gcd_scaled k c =
    gcd_rule (λ a b g. k ∣ a * c → k ∣ b * c → k ∣ g * c) (λ a ha hb. ha)
      (λ a b g pos ih ha hb. ih hb (
        (Nat.dvd-add_iff_right k (Nat.dvd-mul_right_of_dvd k hb (a / b))).1
          (subst (◌∣◌ k) (mod-mul a b c) ha)))

pub gcd-pos : (a b : ℕ) → 0 < a → 0 < greatest_common_divisor a b
gcd-pos a b h = Nat.pos_of_dvd_of_pos (gcd-dvd a b).0 h

-- A common factor comes out.
pub gcd-mul :
    (a b c : ℕ) → greatest_common_divisor (a * c) (b * c) ≡ greatest_common_divisor a b * c
gcd-mul a b c =
    Nat.dvd_antisymm
      (dvd-gcd_scaled _ c a b (gcd-dvd (a * c) (b * c)).0 (gcd-dvd (a * c) (b * c)).1)
      (subst (◌∣◌ (greatest_common_divisor a b * c)) (Nat.mul-one _)
        (dvd-gcd_scaled _ 1 (a * c) (b * c) (scaled a (gcd-dvd a b).0) (scaled b (gcd-dvd a b).1)))
  where
    scaled : (n : ℕ) → greatest_common_divisor a b ∣ n → greatest_common_divisor a b * c ∣ n * c * 1
    scaled n h = rw Nat.mul-one (Nat.mul-dvd-mul_right _ h c)

gcd_test : greatest_common_divisor 60000 2002 ≡ 2
unfolding greatest_common_divisor
gcd_test = refl
