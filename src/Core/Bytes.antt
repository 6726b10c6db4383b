-- ===== src/Core/Bytes.antt =====
-- Numbers as the bytes of their big-endian form, as `to_be_bytes` and `from_be_bytes` have them.
-- An identity has 16 of them; a signed integer is the number of its two's complement.
use native.Mathlib.Nat
use postproject.Base.{
  ℕ, zero, suc, ◌+◌, ◌-◌, ◌*◌, ◌/◌, ◌%◌, ◌^◌, ◌<◌, ◌≡◌, refl, sym, ap, ◌∙◌, [], ◌∷◌, arith, length,
  true, ltb, if◌then◌else◌, All,
}
use postproject.Base.Int.{ℤ, pos, negsuc}
use postproject.Base.Machine.{fits}
use postproject.Core.Text.{Bytes}

-- The `k` low bytes of a number, the highest first.
unfoldable pub be_bytes : ℕ → ℕ → Bytes
be_bytes zero n = []
be_bytes (suc k) n = ((n / 256 ^ k) % 256) ∷ be_bytes k n

-- The number that bytes spell.
unfoldable pub number_of : Bytes → ℕ
number_of [] = 0
number_of (b ∷ bs) = b * 256 ^ length bs + number_of bs

pub length-be_bytes : (k n : ℕ) → length (be_bytes k n) ≡ k
unfolding be_bytes
length-be_bytes zero n = refl
length-be_bytes (suc k) n = ap suc (length-be_bytes k n)

-- `n` in three parts: above `P * 256`, its byte at `P`, and below `P`.
mod_split : (n P : ℕ) → n % (P * 256) ≡ (n / P) % 256 * P + n % P
mod_split n P = omega (
  arith,
  Nat.div-add-mod n (P * 256),
  Nat.div-add-mod n P,
  ap (λ (t : ℕ). P * t) (Nat.div-add-mod (n / P) 256),
  ap (λ (t : ℕ). P * 256 * t) (Nat.div-div-eq-div-mul n P 256),
)

pow_suc : (k : ℕ) → 256 ^ suc k ≡ 256 ^ k * 256
pow_suc k = omega (arith, Nat.pow-succ' 256 k)

number_of-be_bytes_mod : (k n : ℕ) → number_of (be_bytes k n) ≡ n % 256 ^ k
unfolding number_of be_bytes
number_of-be_bytes_mod zero n = omega arith
number_of-be_bytes_mod (suc k) n =
    rw (length-be_bytes k n, number_of-be_bytes_mod k n)
      (sym (mod_split n (256 ^ k)) ∙ ap (λ (t : ℕ). n % t) (sym (pow_suc k)))

pub number_of-be_bytes : (k n : ℕ) → n < 256 ^ k → number_of (be_bytes k n) ≡ n
number_of-be_bytes k n h = number_of-be_bytes_mod k n ∙ Nat.mod-eq_of_lt h

-- Two's complement with 2 * H values, and back.
abbrev pub unsigned_of : ℕ → ℤ → ℕ
unsigned_of H (pos n) = n
unsigned_of H (negsuc n) = H + H - 1 - n

abbrev pub signed_of : ℕ → ℕ → ℤ
signed_of H u = if ltb u H then pos u else negsuc (H + H - 1 - u)

pub signed_of-unsigned_of : (H : ℕ) (z : ℤ) → fits H z ≡ true → signed_of H (unsigned_of H z) ≡ z
signed_of-unsigned_of H (pos n) h = ground arith
signed_of-unsigned_of H (negsuc n) h = ground arith

pub unsigned_of_lt : (H : ℕ) (z : ℤ) → fits H z ≡ true → unsigned_of H z < H + H
unsigned_of_lt H (pos n) h = ground arith
unsigned_of_lt H (negsuc n) h = ground arith

pub fits-signed_of : (H u : ℕ) → u < H + H → fits H (signed_of H u) ≡ true
fits-signed_of H u h = ground arith

-- Bytes below 256 spell a number of as many bytes.
pub number_of_lt : (bs : Bytes) → All (λ b. b < 256) bs → number_of bs < 256 ^ length bs
unfolding number_of
number_of_lt [] h = omega arith
number_of_lt (b ∷ bs) h =
    omega
      (arith, pow_suc (length bs), number_of_lt bs h.1, Nat.mul-le-mul_right (256 ^ length bs) h.0)
