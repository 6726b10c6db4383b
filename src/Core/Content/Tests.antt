-- ===== src/Core/Content/Tests.antt =====
-- Runs of the content values, and the theorems at concrete inputs.
use postproject.Base.{
  ℕ, ◌*◌, ◌≤◌, ◌<◌, ◌≡◌, refl, ◌↔◌, true, false, not, List, [], ◌∷◌, arith, ok, err, any, all, In,
}
use postproject.Base.Int.{ℤ, pos, negsuc, ◌+ℤ◌, ◌-ℤ◌}
use postproject.Base.Sorting.{canonical, sort, insert, dedup, Ascending}
use postproject.Core.Text.{Bytes, is_identifier_byte, IsNamespaced}
use postproject.Core.Time.Rate.{RationalRate}
use postproject.Core.Content.Frames
use postproject.Core.Content.Frames.{FrameRange, contains, frame_count, contains_iff}
use postproject.Core.Content.Pattern.{
  ImageSequencePattern, filename, padded, decimal_of, zeros, resource_role, max_resource_role_bytes,
}
use postproject.Core.Content.Sequence
use postproject.Core.Content.Sequence.{ImageSequenceDescriptor, is_known_missing}
use postproject.Core.Content.Structure.{
  ResourceMember, of_ordered_parts, of_package, validate_members, ordered_parts, content_package,
}
use postproject.Core.Content.Laws.{
  Acceptable, validate_members_iff, ordered_parts_iff, content_package_iff, known_missing-new,
  resource_role_iff,
}

-- The frames -2, 0, 2 and 4.
abbrev evens : FrameRange
evens = record { start = negsuc 1; end = pos 4; step = 2 }

evens-IsValid : Frames.IsValid evens
unfolding ◌-ℤ◌
evens-IsValid = record { has_step = omega arith; ascending = omega arith; aligned = refl }

evens_runs :
    (frame_count evens ≡ 4)
    × (contains evens (negsuc 1) ≡ true)
    × (contains evens (pos 4) ≡ true)
    × (contains evens (pos 1) ≡ false)
    × (Frames.new (pos 1) (pos 0) 1 ≡ err Frames.unordered)
    × (Frames.new (pos 0) (pos 5) 2 ≡ err Frames.unaligned)
unfolding frame_count contains Frames.new ◌-ℤ◌
evens_runs = (refl, refl, refl, refl, refl, refl)

contains_iff_example :
    (contains evens (pos 2) ≡ true)
    ↔ ((k : ℕ) × (k < frame_count evens) × (pos 2 ≡ negsuc 1 +ℤ pos (k * 2)))
contains_iff_example = contains_iff evens (pos 2) evens-IsValid

-- The pattern `s.` … `.e` with four digits.
abbrev shot : ImageSequencePattern
shot = record { prefix = 115 ∷ 46 ∷ []; suffix = 46 ∷ 101 ∷ []; padding = 4 }

shot_runs :
    (filename shot (pos 12) ≡ 115 ∷ 46 ∷ 48 ∷ 48 ∷ 49 ∷ 50 ∷ 46 ∷ 101 ∷ [])
    × (filename shot (negsuc 1) ≡ 115 ∷ 46 ∷ 45 ∷ 48 ∷ 48 ∷ 50 ∷ 46 ∷ 101 ∷ [])
unfolding filename padded decimal_of zeros
shot_runs = (refl, refl)

abbrev film : RationalRate
film = record { numerator = 24; denominator = 1 }

abbrev gaps : ImageSequenceDescriptor
gaps = record {
  resource_id = 5;
  pattern = shot;
  frames = evens;
  rate = film;
  known_missing_frames = pos 0 ∷ pos 4 ∷ [];
}

gaps-new : Sequence.new 5 shot evens film (pos 4 ∷ pos 0 ∷ pos 4 ∷ []) ≡ ok gaps
unfolding Sequence.new contains ◌-ℤ◌ canonical sort insert dedup
gaps-new = refl

known_missing-new_example :
    Ascending gaps.known_missing_frames
    × ((f : ℤ) → (is_known_missing gaps f ≡ true) ↔ In f (pos 4 ∷ pos 0 ∷ pos 4 ∷ []))
    × ((f : ℤ) → In f (pos 4 ∷ pos 0 ∷ pos 4 ∷ []) → contains gaps.frames f ≡ true)
known_missing-new_example =
    known_missing-new 5 shot evens film (pos 4 ∷ pos 0 ∷ pos 4 ∷ []) gaps gaps-new

abbrev essence : ResourceMember
essence = record { resource_id = 1; role = 97 ∷ 58 ∷ 98 ∷ []; required = true }

abbrev thumbnail : ResourceMember
thumbnail = record { resource_id = 2; role = 97 ∷ 58 ∷ 99 ∷ []; required = false }

abbrev card : List ResourceMember
card = essence ∷ thumbnail ∷ []

validate_members_iff_example : (validate_members card ≡ ok tt) ↔ Acceptable card
validate_members_iff_example = validate_members_iff card

ordered_parts_iff_example : (ordered_parts card ≡ ok (of_ordered_parts card)) ↔ (
    (of_ordered_parts card ≡ of_ordered_parts card)
    × Acceptable card
    × (any (λ (m : ResourceMember). not m.required) card ≡ false))
ordered_parts_iff_example = ordered_parts_iff card (of_ordered_parts card)

content_package_iff_example : (content_package card ≡ ok (of_package card)) ↔ (
    (of_package card ≡ of_package card)
    × Acceptable card
    × (any (λ (m : ResourceMember). m.required) card ≡ true))
content_package_iff_example = content_package_iff card (of_package card)

resource_role_iff_example : (resource_role (97 ∷ 58 ∷ 98 ∷ []) ≡ ok (97 ∷ 58 ∷ 98 ∷ [])) ↔ (
    (◌≡◌ {A = Bytes} (97 ∷ 58 ∷ 98 ∷ []) (97 ∷ 58 ∷ 98 ∷ []))
    × (3 ≤ max_resource_role_bytes)
    × (all is_identifier_byte (97 ∷ 58 ∷ 98 ∷ []) ≡ true)
    × IsNamespaced (97 ∷ 58 ∷ 98 ∷ []))
resource_role_iff_example = resource_role_iff (97 ∷ 58 ∷ 98 ∷ []) (97 ∷ 58 ∷ 98 ∷ [])
