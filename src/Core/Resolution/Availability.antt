-- ===== src/Core/Resolution/Availability.antt =====
-- The availability of a representation as what its resources say of it, without the counters.
use mathlib.Core.Bool.{true≢false}
use postproject.Base.{
  ℕ, ◌≡◌, refl, sym, ap, ◌∙◌, Bool, true, false, not, ◌&&◌, ◌||◌, Option, none, some, List, [], ◌∷◌,
  ◌++◌, arith, if◌then◌else◌, ltb, ◌==◌, any, is_empty,
}
use postproject.Core.Content.Structure.{
  ContentStructure, image_sequence_descriptor, members, image_sequence, single_resource,
  of_ordered_parts, of_package,
}
use postproject.Core.Content.Sequence.{ImageSequenceDescriptor}
use postproject.Core.Resolution.Resources.{
  ResourceResolution, ResourceResolutionState, online_at_known_locator, resolved_exact,
  resolved_probable, offline, ambiguous, error,
}
use postproject.Core.Resolution.Aggregate.{
  RepresentationAvailability, is_online, is_partial, is_offline, is_ambiguous, is_error, Inspection,
  availability, inspect_all, inspect_resource, count_state, add_issue, inspect_availability,
  add_missing_frames, all_missing_frames, no_counts, resource_is_required,
}

abbrev pub resolves : ResourceResolutionState → Bool
resolves online_at_known_locator = true
resolves resolved_exact = true
resolves resolved_probable = true
resolves _ = false

abbrev pub fails_offline : ResourceResolutionState → Bool
fails_offline offline = true
fails_offline _ = false

abbrev pub fails_ambiguous : ResourceResolutionState → Bool
fails_ambiguous ambiguous = true
fails_ambiguous _ = false

abbrev pub fails_error : ResourceResolutionState → Bool
fails_error error = true
fails_error _ = false

-- A required resource has a state of that kind.
unfoldable pub some_required :
    (ResourceResolutionState → Bool) → ContentStructure → List ResourceResolution → Bool
some_required kind structure rs =
    any (λ r. resource_is_required structure r.resource_id && kind r.state) rs

-- The availability that the documentation promises.
unfoldable pub promised : ContentStructure → List ResourceResolution → RepresentationAvailability
promised structure rs =
    if some_required fails_error structure rs
    then is_error
    else if some_required fails_ambiguous structure rs
    then is_ambiguous
    else if not (some_required resolves structure rs)
    then is_offline
    else if some_required fails_offline structure rs
        || not (is_empty (all_missing_frames (image_sequence_descriptor structure) rs))
    then is_partial
    else is_online

-- What the counters hold after the loop.
record Counted (structure : ContentStructure) (rs : List ResourceResolution) (i j : Inspection)
    : Type 0 where
  online :
      (j.counts.online_required == 0)
      ≡ (i.counts.online_required == 0 && not (some_required resolves structure rs))
  offline :
      ltb 0 j.counts.offline_required
      ≡ (ltb 0 i.counts.offline_required || some_required fails_offline structure rs)
  ambiguous :
      j.counts.ambiguous_required
      ≡ (i.counts.ambiguous_required || some_required fails_ambiguous structure rs)
  error :
      j.counts.error_required ≡ (i.counts.error_required || some_required fails_error structure rs)
  missing : j.counts.has_missing_frames ≡ i.counts.has_missing_frames

inspect_resource-Counted :
    (structure : ContentStructure) (r : ResourceResolution) (i : Inspection)
    → Counted structure (r ∷ []) i (inspect_resource structure r i)
unfolding inspect_resource count_state add_issue some_required
inspect_resource-Counted structure r i = record {
  online = ground arith;
  offline = ground arith;
  ambiguous = ground arith;
  error = ground arith;
  missing = ground arith;
}

inspect_all-Counted :
    (structure : ContentStructure) (rs : List ResourceResolution) (i : Inspection)
    → Counted structure rs i (inspect_all structure rs i)
unfolding inspect_all some_required
inspect_all-Counted structure [] i = record {
  online = ground arith;
  offline = ground arith;
  ambiguous = ground arith;
  error = ground arith;
  missing = refl;
}
inspect_all-Counted structure (r ∷ rs) i =
    let one = inspect_resource-Counted structure r i in
    let rest = inspect_all-Counted structure rs (inspect_resource structure r i) in
    record {
      online = ground (arith, one.online, rest.online);
      offline = ground (arith, one.offline, rest.offline);
      ambiguous = ground (arith, one.ambiguous, rest.ambiguous);
      error = ground (arith, one.error, rest.error);
      missing = rest.missing ∙ one.missing;
    }

add_missing_frames-availability :
    (o : Option ImageSequenceDescriptor) (rs : List ResourceResolution) (i : Inspection)
    → i.counts.has_missing_frames ≡ false
    → (add_missing_frames o (all_missing_frames o rs) i).counts
      ≡ record (i.counts) { has_missing_frames = not (is_empty (all_missing_frames o rs)) }
unfolding add_missing_frames all_missing_frames
add_missing_frames-availability none rs i h = ground (arith, h)
add_missing_frames-availability (some d) rs i h = ground (arith, h)

-- The loop with its counters computes the promised availability: an error of a required resource
-- first, then an ambiguous one; else offline where no required resource resolves; else partial
-- where a required resource is offline or a frame is missing; else online.
pub inspect_availability-promised :
    (structure : ContentStructure) (rs : List ResourceResolution)
    → (inspect_availability structure rs).0 ≡ promised structure rs
unfolding inspect_availability promised availability
inspect_availability-promised structure rs =
    let counted = inspect_all-Counted structure rs no_counts in
    let missing =
      add_missing_frames-availability (image_sequence_descriptor structure) rs
        (inspect_all structure rs no_counts) counted.missing in
    ap availability missing
    ∙ ground (arith, counted.online, counted.offline, counted.ambiguous, counted.error)

some_required-optional :
    (kind : ResourceResolutionState → Bool) (structure : ContentStructure)
    (xs ys : List ResourceResolution) (r : ResourceResolution)
    → resource_is_required structure r.resource_id ≡ false
    → some_required kind structure (xs ++ r ∷ ys) ≡ some_required kind structure (xs ++ ys)
unfolding some_required
some_required-optional kind structure [] ys r h = rw h refl
some_required-optional kind structure (x ∷ xs) ys r h =
    ap (λ b. resource_is_required structure x.resource_id && kind x.state || b)
      (some_required-optional kind structure xs ys r h)

-- All that a structure without members consists of is required.
optional-descriptor :
    (structure : ContentStructure) (id : ℕ)
    → resource_is_required structure id ≡ false
    → image_sequence_descriptor structure ≡ none
unfolding resource_is_required members image_sequence_descriptor
optional-descriptor (single_resource i) id h = refl
optional-descriptor (image_sequence d) id h = absurd (true≢false h)
optional-descriptor (of_ordered_parts ms) id h = refl
optional-descriptor (of_package ms) id h = refl

-- A resource that is not required could as well be absent.
promised-optional :
    (structure : ContentStructure) (xs ys : List ResourceResolution) (r : ResourceResolution)
    → resource_is_required structure r.resource_id ≡ false
    → promised structure (xs ++ r ∷ ys) ≡ promised structure (xs ++ ys)
unfolding promised all_missing_frames
promised-optional structure xs ys r h = rw (optional-descriptor structure r.resource_id h) (
    rw (some_required-optional fails_error structure xs ys r h) (
      rw (some_required-optional fails_ambiguous structure xs ys r h) (
        rw (some_required-optional resolves structure xs ys r h)
          (rw (some_required-optional fails_offline structure xs ys r h) refl))))

-- Whatever becomes of a resource that is not required, the availability stays the same.
pub inspect_availability-optional :
    (structure : ContentStructure) (xs ys : List ResourceResolution) (r r' : ResourceResolution)
    → r'.resource_id ≡ r.resource_id
    → resource_is_required structure r.resource_id ≡ false
    → (inspect_availability structure (xs ++ r ∷ ys)).0
      ≡ (inspect_availability structure (xs ++ r' ∷ ys)).0
inspect_availability-optional structure xs ys r r' same optional =
    inspect_availability-promised structure (xs ++ r ∷ ys)
    ∙ promised-optional structure xs ys r optional
    ∙ sym
        (promised-optional structure xs ys r' (ap (resource_is_required structure) same ∙ optional))
    ∙ sym (inspect_availability-promised structure (xs ++ r' ∷ ys))
