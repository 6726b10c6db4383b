-- ===== src/Core/Resolution/Aggregate.antt =====
-- `RepresentationResolution::aggregate` of crates/postproject-core/src/resolution.rs.
use postproject.Base.{
  ℕ, ◌+◌, Bool, true, false, not, ◌||◌, Option, none, some, List, [], ◌∷◌, ◌++◌, Result, ok, err,
  Error, invalid_argument, if◌then◌else◌, ltb, ◌==◌, length, any, find?, is_empty, ◌>>=◌, ok_or,
}
use postproject.Base.Int.{ℤ}
use postproject.Base.Sorting.{canonical}
use postproject.Core.Content.Structure.{
  ContentStructure, ResourceMember, members, image_sequence_descriptor, resource_ids,
}
use postproject.Core.Content.Sequence.{ImageSequenceDescriptor}
use postproject.Core.Resolution.Resources.{
  ResourceResolution, ResourceResolutionState, offline, ambiguous, error,
}

pub data RepresentationAvailability : Type 0 where
  is_online is_partial is_offline is_ambiguous is_error : RepresentationAvailability

pub data AvailabilityIssueKind : Type 0 where
  offline_resource ambiguous_resource resource_error missing_frames : AvailabilityIssueKind

pub record AvailabilityIssue : Type 0 where
  pub resource_id : ℕ
  pub required : Bool
  pub kind : AvailabilityIssueKind
  pub frames : List ℤ

pub record RepresentationResolution : Type 0 where
  pub representation_id : ℕ
  pub availability : RepresentationAvailability
  pub resources : List ResourceResolution
  pub issues : List AvailabilityIssue

pub record AvailabilityCounts : Type 0 where
  pub online_required : ℕ
  pub offline_required : ℕ
  pub ambiguous_required : Bool
  pub error_required : Bool
  pub has_missing_frames : Bool

unfoldable pub availability : AvailabilityCounts → RepresentationAvailability
availability c =
    if c.error_required
    then is_error
    else if c.ambiguous_required
    then is_ambiguous
    else if c.online_required == 0
    then is_offline
    else if ltb 0 c.offline_required || c.has_missing_frames
    then is_partial
    else is_online

abbrev pub is_some_and : {A : Type 0} → (A → Bool) → Option A → Bool
is_some_and p none = false
is_some_and p (some a) = p a

abbrev pub required_among : ℕ → Option (List ResourceMember) → Bool
required_among resource_id none = true
required_among resource_id (some ms) =
    is_some_and (λ m. m.required) (find? (λ m. m.resource_id == resource_id) ms)

unfoldable pub resource_is_required : ContentStructure → ℕ → Bool
resource_is_required structure resource_id = required_among resource_id (members structure)

-- What the loop over the resources changes.
pub record Inspection : Type 0 where
  pub counts : AvailabilityCounts
  pub issues : List AvailabilityIssue

abbrev pub from_bool : Bool → ℕ
from_bool true = 1
from_bool false = 0

unfoldable pub add_issue :
    ResourceResolution → Bool → AvailabilityIssueKind → Inspection → Inspection
add_issue r required kind i = record i {
  issues =
      i.issues
      ++ record { resource_id = r.resource_id; required = required; kind = kind; frames = [] } ∷ [];
}

-- The arms of the `match` of `inspect_resource`.
unfoldable pub count_state :
    ResourceResolutionState → ResourceResolution → Bool → Inspection → Inspection
count_state offline r required i = add_issue r required offline_resource (record i {
  counts = record (i.counts) { offline_required = i.counts.offline_required + from_bool required };
})
count_state ambiguous r required i = add_issue r required ambiguous_resource (record i {
  counts = record (i.counts) { ambiguous_required = i.counts.ambiguous_required || required };
})
count_state error r required i = add_issue r required resource_error (record i {
  counts = record (i.counts) { error_required = i.counts.error_required || required };
})
count_state _ r required i = record i {
  counts = record (i.counts) { online_required = i.counts.online_required + from_bool required };
}

unfoldable pub inspect_resource : ContentStructure → ResourceResolution → Inspection → Inspection
inspect_resource structure r i =
    count_state r.state r (resource_is_required structure r.resource_id) i

unfoldable pub inspect_all : ContentStructure → List ResourceResolution → Inspection → Inspection
inspect_all structure [] i = i
inspect_all structure (r ∷ rs) i = inspect_all structure rs (inspect_resource structure r i)

abbrev pub frames_of : Option ResourceResolution → List ℤ
frames_of none = []
frames_of (some r) = r.missing_frames

-- The frames that the descriptor or its resource reports missing.
unfoldable pub all_missing_frames :
    Option ImageSequenceDescriptor → List ResourceResolution → List ℤ
all_missing_frames none rs = []
all_missing_frames (some d) rs =
    canonical (d.known_missing_frames ++ frames_of (find? (λ r. r.resource_id == d.resource_id) rs))

unfoldable pub add_missing_frames :
    Option ImageSequenceDescriptor → List ℤ → Inspection → Inspection
add_missing_frames none frames i = i
add_missing_frames (some d) frames i = if is_empty frames then i else record {
  counts = record (i.counts) { has_missing_frames = true };
  issues =
      i.issues
      ++ record {
        resource_id = d.resource_id;
        required = true;
        kind = missing_frames;
        frames = frames;
      }
        ∷ [];
}

abbrev pub no_counts : Inspection
no_counts = record {
  counts = record {
    online_required = 0;
    offline_required = 0;
    ambiguous_required = false;
    error_required = false;
    has_missing_frames = false;
  };
  issues = [];
}

unfoldable pub inspect_availability :
    ContentStructure → List ResourceResolution → RepresentationAvailability × List AvailabilityIssue
inspect_availability structure rs =
    let descriptor = image_sequence_descriptor structure in
    let i =
      add_missing_frames descriptor (all_missing_frames descriptor rs)
        (inspect_all structure rs no_counts) in
    (availability i.counts, i.issues)

abbrev pub resource_set_error : Error
resource_set_error = record {
  kind = invalid_argument;
  message = "resource resolutions do not match the content structure";
}

abbrev pub duplicated : Error
duplicated = record { kind = invalid_argument; message = "resource resolution is duplicated" }

-- The map from identities to results is an association list.
unfoldable pub insert_all :
    List ResourceResolution → List ResourceResolution → Result (List ResourceResolution)
insert_all [] by_id = ok by_id
insert_all (r ∷ rs) by_id =
    let rest = insert_all rs (r ∷ by_id) in
    if any (λ x. x.resource_id == r.resource_id) by_id then err duplicated else rest

-- `remove`: the entry and the map without it.
unfoldable pub remove :
    ℕ → List ResourceResolution → Option (ResourceResolution × List ResourceResolution)
remove id [] = none
remove id (r ∷ rs) =
    let rest = remove id rs in
    if r.resource_id == id
    then some (r, rs)
    else elim rest [ none ↦ none | some (x, left) ↦ some (x, r ∷ left) ]

unfoldable pub remove_each : List ℕ → List ResourceResolution → Result (List ResourceResolution)
remove_each [] by_id = ok []
remove_each (id ∷ ids) by_id =
    ok_or (remove id by_id) (resource_set_error.kind) (resource_set_error.message) >>= λ (r, left).
    remove_each ids left >>= λ rest. ok (r ∷ rest)

unfoldable pub order_resource_resolutions :
    ContentStructure → List ResourceResolution → Result (List ResourceResolution)
order_resource_resolutions structure resources =
    if not (length resources == length (resource_ids structure))
    then err resource_set_error
    else (insert_all resources [] >>= remove_each (resource_ids structure))

unfoldable pub aggregate :
    ℕ → ContentStructure → List ResourceResolution → Result RepresentationResolution
aggregate representation_id structure resources =
    order_resource_resolutions structure resources >>= λ ordered.
    (let (available, issues) = inspect_availability structure ordered in
      ok (record {
        representation_id = representation_id;
        availability = available;
        resources = ordered;
        issues = issues;
      }))
