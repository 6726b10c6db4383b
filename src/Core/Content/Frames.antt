-- ===== src/Core/Content/Frames.antt =====
-- `FrameRange` of crates/postproject-core/src/content.rs: an inclusive, regularly stepped domain.
-- The distance is computed in `i128`, where no difference of two `i64` overflows.
use postproject.Base.{
  ℕ, zero, suc, ◌+◌, ◌*◌, ◌/◌, ◌%◌, ◌≤◌, ◌<◌, ◌≡◌, refl, sym, ap, ◌∙◌, ◌↔◌, ◌||◌, Bool, true, false,
  not, arith, Result, ok, err, Error, invalid_argument, if◌then◌else◌, ◌==◌,
}
use postproject.Base.Int.{
  ℤ, pos, negsuc, pos_part, neg_part, ◌+ℤ◌, ◌-ℤ◌, ◌≤ℤ◌, ltb_ℤ, eq_of_parts, +ℤ_parts,
}
use postproject.Base.Machine.{rem, nat_abs, signed}
use native.Mathlib.Nat

pub record FrameRange : Type 0 where
  pub start : ℤ
  pub end : ℤ
  pub step : ℕ

abbrev pub unordered : Error
unordered = record {
  kind = invalid_argument;
  message = "frame range must be ascending with a non-zero step";
}

abbrev pub unaligned : Error
unaligned = record {
  kind = invalid_argument;
  message = "frame range end must be aligned to its step";
}

unfoldable pub new : ℤ → ℤ → ℕ → Result FrameRange
new start end step =
    if step == 0 || ltb_ℤ end start
    then err unordered
    else if not (nat_abs (rem (end -ℤ start) (pos step)) == 0)
    then err unaligned
    else ok (record { start = start; end = end; step = step })

unfoldable pub frame_count : FrameRange → ℕ
frame_count r = nat_abs (r.end -ℤ r.start) / r.step + 1

unfoldable pub contains : FrameRange → ℤ → Bool
contains r frame =
    if ltb_ℤ frame r.start || ltb_ℤ r.end frame
    then false
    else nat_abs (rem (frame -ℤ r.start) (pos r.step)) == 0

-- The range is one that `new` returns.
pub record IsValid (r : FrameRange) : Type 0 where
  pub has_step : 0 < r.step
  pub ascending : r.start ≤ℤ r.end
  pub aligned : nat_abs (r.end -ℤ r.start) % r.step ≡ 0

nat_abs-rem : (a : ℤ) (k : ℕ) → nat_abs (rem a (pos k)) ≡ nat_abs a % k
nat_abs-rem (pos n) k = refl
nat_abs-rem (negsuc n) k = go (suc n % k)
  where
    go : (m : ℕ) → nat_abs (signed true m) ≡ m
    go zero = refl
    go (suc m) = refl

pub new-IsValid :
    (start end : ℤ) (step : ℕ) (r : FrameRange) → new start end step ≡ ok r → IsValid r
unfolding new
new-IsValid start end step r h =
    let distance = nat_abs-rem (end -ℤ start) step in
    let facts : (0 < r.step)
        × (r.start ≤ℤ r.end)
        × (nat_abs (rem (r.end -ℤ r.start) (pos r.step)) ≡ 0) =
      ground (arith, distance) in
    record {
      has_step = facts.0;
      ascending = facts.1;
      aligned = sym (nat_abs-rem (r.end -ℤ r.start) r.step) ∙ facts.2;
    }

-- How far a frame is above the start.
above : (a b : ℤ) → a ≤ℤ b → pos_part b + neg_part a ≡ pos_part a + neg_part b + nat_abs (b -ℤ a)
unfolding ◌-ℤ◌
above a b h = ground arith

multiple : (m k : ℕ) → m % k ≡ 0 → m / k * k ≡ m
multiple m k h = Nat.div-mul_cancel k (Nat.dvd_of_mod-eq-zero k h)

quotient_lt : (m d k : ℕ) → 0 < k → m ≤ d → m / k < d / k + 1
quotient_lt m d k h le =
    let below = (Nat.le-div_iff_mul-le h).1 (Nat.le_trans (Nat.div-mul-le_self m k) le) in
    omega (arith, below)

quotient_le : (m d k : ℕ) → 0 < k → d % k ≡ 0 → m < d / k + 1 → m * k ≤ d
quotient_le m d k h al lt = (Nat.le-div_iff_mul-le h).0 (omega (arith, lt))

-- In a valid frame range, exactly the frames `start`, `start + step`, … are contained, as
-- many as `frame_count` says.
pub contains_iff :
    (r : FrameRange) (frame : ℤ)
    → IsValid r
    → (contains r frame ≡ true)
      ↔ ((k : ℕ) × (k < frame_count r) × (frame ≡ r.start +ℤ pos (k * r.step)))
unfolding contains frame_count
contains_iff r frame v = (there, back)
  where
    there :
        contains r frame ≡ true
        → (k : ℕ) × (k < frame_count r) × (frame ≡ r.start +ℤ pos (k * r.step))
    there h =
        let from_start : r.start ≤ℤ frame = ground arith in
        let to_end : frame ≤ℤ r.end = ground arith in
        let distance = nat_abs (frame -ℤ r.start) in
        let whole : distance % r.step ≡ 0 = ground (arith, nat_abs-rem (frame -ℤ r.start) r.step) in
        let total = above r.start r.end v.ascending in
        let near = above r.start frame from_start in
        (
          distance / r.step,
          quotient_lt distance (nat_abs (r.end -ℤ r.start)) r.step v.has_step
              (omega (arith, total, near)),
          eq_of_parts _ _ (
              omega (
                arith,
                multiple distance r.step whole,
                near,
                +ℤ_parts r.start (pos (distance / r.step * r.step)),
              )),
        )

    back :
        ((k : ℕ) × (k < frame_count r) × (frame ≡ r.start +ℤ pos (k * r.step)))
        → contains r frame ≡ true
    back (k, lt, e) =
        let reach = quotient_le k (nat_abs (r.end -ℤ r.start)) r.step v.has_step v.aligned lt in
        let total = above r.start r.end v.ascending in
        let parts = +ℤ_parts r.start (pos (k * r.step)) in
        let placed : pos_part frame + neg_part r.start
            ≡ neg_part frame + pos_part r.start + k * r.step =
          rw e (omega (arith, parts)) in
        let near = above r.start frame (omega (arith, placed)) in
        let distance : nat_abs (frame -ℤ r.start) ≡ k * r.step = omega (arith, placed, near) in
        let whole =
          nat_abs-rem (frame -ℤ r.start) r.step
          ∙ ap (λ m. m % r.step) distance
          ∙ Nat.mul-mod_left k r.step in
        ground (arith, whole, placed, reach, total)
