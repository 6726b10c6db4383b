-- ===== src/Core/Metadata/New.antt =====
-- The constructors of metadata values in crates/postproject-core/src/metadata.rs, with their limits.
-- Texts are lists of bytes. What the source asks of the standard library and of a third-party
-- parser about a text is a parameter: whether bytes are UTF-8, whether a text is a URI, and whether
-- it has a whitespace or control character.
use postproject.Base.{
  ℕ, ◌+◌, ◌*◌, ◌^◌, Bool, false, not, ◌&&◌, ◌||◌, List, [], ◌∷◌, Result, ok, err, invalid_argument,
  if◌then◌else◌, ltb, ◌==◌, length, any, is_empty, ◌>>◌, ◌>>=◌, reject_if,
}
use postproject.Core.Text.{Bytes, has_nul, is_alphanumeric, split_on}
use postproject.Core.Metadata.Numbers.{limit_error}
use postproject.Core.Metadata.Value
use postproject.Core.Metadata.Value.{
  MetadataValue, Values, Fields, nil, cons, end, field, count_values, count_fields, nesting_depth,
  depth_of_values, depth_of_fields, payload_bytes, payload_of_values, payload_of_fields,
}

abbrev pub max_property_id_bytes : ℕ
max_property_id_bytes = 255

abbrev pub max_metadata_text_bytes : ℕ
max_metadata_text_bytes = 1024 * 1024

abbrev pub max_metadata_uri_bytes : ℕ
max_metadata_uri_bytes = 4096

abbrev pub max_metadata_binary_bytes : ℕ
max_metadata_binary_bytes = 15 * 1024 * 1024

abbrev pub max_language_tag_bytes : ℕ
max_language_tag_bytes = 64

abbrev pub max_metadata_collection_items : ℕ
max_metadata_collection_items = 4096

abbrev pub max_metadata_nesting_depth : ℕ
max_metadata_nesting_depth = 32

abbrev pub max_metadata_total_bytes : ℕ
max_metadata_total_bytes = 15 * 1024 * 1024

pub record TextTests : Type 0 where
  pub is_utf8 : Bytes → Bool
  pub is_uri : Bytes → Bool
  pub has_space_or_control : Bytes → Bool

abbrev pub dash : ℕ
dash = 45

abbrev pub starts_with : ℕ → Bytes → Bool
starts_with c [] = false
starts_with c (b ∷ bs) = b == c

abbrev pub ends_with : ℕ → Bytes → Bool
ends_with c [] = false
ends_with c (b ∷ []) = b == c
ends_with c (b ∷ d ∷ bs) = ends_with c (d ∷ bs)

unfoldable pub validate_text : Bytes → ℕ → Result (Unit {0})
validate_text value maximum =
    reject_if (ltb maximum (length value) || has_nul value) invalid_argument
      "metadata text must contain a bounded number of UTF-8 bytes without NUL"

unfoldable pub validate_language_tag : Bytes → Result (Unit {0})
validate_language_tag value = do
  reject_if
      (is_empty value
        || (ltb max_language_tag_bytes (length value)
            || (any (λ b. not (ltb b 128)) value
                || (starts_with dash value
                    || (ends_with dash value
                        || any (λ b. not (is_alphanumeric b) && not (b == dash)) value)))))
      invalid_argument
      "metadata language tag must be 1-64 ASCII letters, digits, or separated '-' characters"
  reject_if (any is_empty (split_on dash value)) invalid_argument
      "metadata language tag must not contain empty subtags"

-- `checked_add` of usize, then the limit.
unfoldable pub add_payload : ℕ → ℕ → Result ℕ
add_payload total value =
    if not (ltb (total + value) (2 ^ 64)) || ltb max_metadata_total_bytes (total + value)
    then err limit_error
    else ok (total + value)

-- `checked_payload_sum` of the payloads, from a total on.
unfoldable pub checked_payload_sum : ℕ → List ℕ → Result ℕ
checked_payload_sum total [] = ok total
checked_payload_sum total (v ∷ vs) = add_payload total v >>= λ next. checked_payload_sum next vs

abbrev pub payloads : Values → List ℕ
payloads nil = []
payloads (cons v vs) = payload_bytes v ∷ payloads vs

abbrev pub field_payloads : Fields → List ℕ
field_payloads end = []
field_payloads (field name v fs) = length name ∷ payload_bytes v ∷ field_payloads fs

-- `composite_depth` of the largest depth of the children.
unfoldable pub composite_depth : ℕ → Result ℕ
composite_depth deepest =
    if ltb max_metadata_nesting_depth (deepest + 1) then err limit_error else ok (deepest + 1)

unfoldable pub bytes : Bytes → Result MetadataValue
bytes value =
    if ltb max_metadata_binary_bytes (length value) then err limit_error else ok (Value.bytes value)

unfoldable pub string : Bytes → Result MetadataValue
string value = validate_text value max_metadata_text_bytes >> ok (Value.string value)

unfoldable pub language_string : Bytes → Bytes → Result MetadataValue
language_string value language = do
  validate_text value max_metadata_text_bytes
  validate_language_tag language
  total ← checked_payload_sum 0 (length value ∷ length language ∷ [])
  ok (Value.lang_string value language)

unfoldable pub list : Values → Result MetadataValue
list values =
    if ltb max_metadata_collection_items (count_values values)
    then err limit_error
    else (composite_depth (depth_of_values values) >>= λ depth.
        checked_payload_sum 0 (payloads values) >>= λ total. ok (Value.list values))

unfoldable pub structure : Fields → Result MetadataValue
structure fields =
    if ltb max_metadata_collection_items (count_fields fields)
    then err limit_error
    else (composite_depth (depth_of_fields fields) >>= λ depth.
        checked_payload_sum 0 (field_payloads fields) >>= λ total. ok (Value.struct fields))

module _ (tests : TextTests) where
  unfoldable pub uri : Bytes → Result MetadataValue
  uri value = do
    validate_text value max_metadata_uri_bytes
    reject_if (not (tests.is_uri value)) invalid_argument "metadata URI is invalid"
    ok (Value.uri value)

  -- `validate_identifier`.
  unfoldable pub validate_identifier : Bytes → ℕ → Result (Unit {0})
  validate_identifier value maximum = do
    reject_if (is_empty value || ltb maximum (length value)) invalid_argument
        "metadata identifier must contain a bounded number of UTF-8 bytes"
    reject_if (tests.has_space_or_control value) invalid_argument
        "metadata identifier must not contain whitespace or control characters"

  -- `PropertyId::new`; an identifier is its text.
  unfoldable pub property_id : Bytes → Result Bytes
  property_id value = validate_identifier value max_property_id_bytes >> ok value
