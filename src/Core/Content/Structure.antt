-- ===== src/Core/Content/Structure.antt =====
-- `ResourceMember` and `ContentStructure` of crates/postproject-core/src/content.rs.
use postproject.Base.{
  ℕ, Bool, not, ◌||◌, Option, none, some, List, [], ◌∷◌, map, Result, ok, invalid_argument,
  if◌then◌else◌, ltb, ◌==◌, length, any, is_empty, ◌>>◌, reject_if,
}
use postproject.Core.Text.{Bytes}
use postproject.Core.Content.Sequence.{ImageSequenceDescriptor}

abbrev pub max_content_members : ℕ
max_content_members = 100000

pub record ResourceMember : Type 0 where
  pub resource_id : ℕ
  pub role : Bytes
  pub required : Bool

-- `ContentStructureData`, which `ContentStructure` wraps.
pub data ContentStructure : Type 0 where
  single_resource : ℕ → ContentStructure
  image_sequence : ImageSequenceDescriptor → ContentStructure
  of_ordered_parts : List ResourceMember → ContentStructure
  of_package : List ResourceMember → ContentStructure

pub data ContentStructureKind : Type 0 where
  single image ordered packaged : ContentStructureKind

-- The set of the identities, and its size.
unfoldable pub to_set : List ℕ → List ℕ
to_set [] = []
to_set (i ∷ is) = let rest = to_set is in if any (λ j. j == i) rest then rest else i ∷ rest

unfoldable pub validate_members : List ResourceMember → Result (Unit {0})
validate_members members = do
  reject_if (is_empty members || ltb max_content_members (length members)) invalid_argument
      "content structure must have a bounded number of members"
  reject_if (not (length (to_set (map (λ m. m.resource_id) members)) == length members))
      invalid_argument "content structure contains a duplicate resource"

unfoldable pub ordered_parts : List ResourceMember → Result ContentStructure
ordered_parts members = do
  validate_members members
  reject_if (any (λ m. not m.required) members) invalid_argument
      "ordered content parts must all be required"
  ok (of_ordered_parts members)

unfoldable pub content_package : List ResourceMember → Result ContentStructure
content_package members = do
  validate_members members
  reject_if (not (any (λ m. m.required) members)) invalid_argument
      "a content package must have at least one required member"
  ok (of_package members)

unfoldable pub kind : ContentStructure → ContentStructureKind
kind (single_resource i) = single
kind (image_sequence d) = image
kind (of_ordered_parts ms) = ordered
kind (of_package ms) = packaged

unfoldable pub single_resource_id : ContentStructure → Option ℕ
single_resource_id (single_resource i) = some i
single_resource_id _ = none

unfoldable pub image_sequence_descriptor : ContentStructure → Option ImageSequenceDescriptor
image_sequence_descriptor (image_sequence d) = some d
image_sequence_descriptor _ = none

unfoldable pub members : ContentStructure → Option (List ResourceMember)
members (of_ordered_parts ms) = some ms
members (of_package ms) = some ms
members _ = none

unfoldable pub resource_ids : ContentStructure → List ℕ
resource_ids (single_resource i) = i ∷ []
resource_ids (image_sequence d) = d.resource_id ∷ []
resource_ids (of_ordered_parts ms) = map (λ m. m.resource_id) ms
resource_ids (of_package ms) = map (λ m. m.resource_id) ms
