-- ===== src/Core/Resolution/Tests.antt =====
-- Runs of the aggregation, and the theorems at concrete inputs.
use postproject.Base.{ℕ, ◌≡◌, refl, true, false, List, [], ◌∷◌, ok, length, In}
use postproject.Core.Content.Structure.{
  ContentStructure, of_package, resource_ids, members, image_sequence_descriptor,
}
use postproject.Core.Content.Laws.{Distinct}
use postproject.Core.Resolution.Resources.{
  ResourceResolution, ResourceResolutionState, online_at_known_locator, offline, ambiguous,
}
use postproject.Core.Resolution.Aggregate.{
  RepresentationResolution, is_online, offline_resource, inspect_availability, aggregate,
  order_resource_resolutions, insert_all, remove_each, remove, inspect_all, inspect_resource,
  resource_is_required, count_state, add_issue, add_missing_frames, all_missing_frames,
  availability,
}
use postproject.Core.Resolution.Availability.{
  promised, inspect_availability-promised, inspect_availability-optional,
}
use postproject.Core.Resolution.Matching.{aggregate-ordered, aggregate-total}
use postproject.Core.Resolution.Keyed.{ids_of}

abbrev result : ℕ → ResourceResolutionState → ResourceResolution
result id state = record {
  resource_id = id;
  state = state;
  candidates = [];
  evidence = [];
  missing_frames = [];
}

-- Resource 1 is required, resource 2 is not.
abbrev card : ContentStructure
card = of_package (
    record { resource_id = 1; role = 97 ∷ 58 ∷ 98 ∷ []; required = true }
    ∷ record { resource_id = 2; role = 97 ∷ 58 ∷ 99 ∷ []; required = false }
    ∷ [])

abbrev given : List ResourceResolution
given = result 2 offline ∷ result 1 online_at_known_locator ∷ []

abbrev combined : RepresentationResolution
combined = record {
  representation_id = 9;
  availability = is_online;
  resources = result 1 online_at_known_locator ∷ result 2 offline ∷ [];
  issues = record { resource_id = 2; required = false; kind = offline_resource; frames = [] } ∷ [];
}

combined_run : aggregate 9 card given ≡ ok combined
unfolding aggregate order_resource_resolutions insert_all remove_each remove inspect_availability
    inspect_all inspect_resource resource_is_required count_state add_issue add_missing_frames
    all_missing_frames availability resource_ids members image_sequence_descriptor
combined_run = refl

aggregate-ordered_example :
    (ids_of combined.resources ≡ resource_ids card)
    × ((r : ResourceResolution) → In r combined.resources → In r given)
    × (length given ≡ length (resource_ids card))
aggregate-ordered_example = aggregate-ordered 9 card given combined combined_run

card-Distinct : Distinct (resource_ids card)
unfolding resource_ids
card-Distinct = (refl, (refl, tt))

aggregate-total_example : (res : RepresentationResolution) × (aggregate 9 card given ≡ ok res)
unfolding resource_ids
aggregate-total_example =
    aggregate-total 9 card given card-Distinct (refl, (refl, tt)) refl (refl, (refl, tt))

inspect_availability-promised_example : (inspect_availability card given).0 ≡ promised card given
inspect_availability-promised_example = inspect_availability-promised card given

inspect_availability-optional_example :
    (inspect_availability card (result 1 online_at_known_locator ∷ result 2 offline ∷ [])).0
    ≡ (inspect_availability card (result 1 online_at_known_locator ∷ result 2 ambiguous ∷ [])).0
unfolding resource_is_required members
inspect_availability-optional_example =
    inspect_availability-optional card (result 1 online_at_known_locator ∷ []) [] (result 2 offline)
      (result 2 ambiguous) refl refl
