-- ===== src/Core/Metadata/Valid.antt =====
-- The values that the constructors of crates/postproject-core/src/metadata.rs give.
use postproject.Base.{ℕ, ◌+◌, ◌^◌, ◌≤◌, ◌<◌, ◌≡◌, true, false, ok, length}
use postproject.Base.Machine.{fits, i64_bound}
use postproject.Core.Text.{Bytes, has_nul}
use postproject.Core.Metadata.Numbers.{IsDecimal, IsRational}
use postproject.Core.Metadata.Value.{
  ObjectRef, MetadataValue, Values, Fields, string, lang_string, i64, u64, decimal, bool, timestamp,
  uri, bytes, rational, list, struct, reference, nil, cons, end, field, count_values, count_fields,
  depth_of_values, depth_of_fields, payload_of_values, payload_of_fields, production, asset,
  representation, resource, activity, job,
}
use postproject.Core.Metadata.New.{
  TextTests, max_property_id_bytes, max_metadata_text_bytes, max_metadata_uri_bytes,
  max_metadata_binary_bytes, max_language_tag_bytes, max_metadata_collection_items,
  max_metadata_nesting_depth, max_metadata_total_bytes, validate_language_tag,
}

abbrev pub IsReference : ObjectRef → Type 0
IsReference (production id) = id < 2 ^ 128
IsReference (asset id) = id < 2 ^ 128
IsReference (representation id) = id < 2 ^ 128
IsReference (resource id) = id < 2 ^ 128
IsReference (activity id) = id < 2 ^ 128
IsReference (job id) = id < 2 ^ 128

-- The limits of a list or a structure.
pub record IsBounded (items depth payload : ℕ) : Type 0 where
  pub few : items ≤ max_metadata_collection_items
  pub shallow : depth + 1 ≤ max_metadata_nesting_depth
  pub light : payload ≤ max_metadata_total_bytes

module _ (tests : TextTests) where
  pub record IsText (maximum : ℕ) (t : Bytes) : Type 0 where
    pub utf8 : tests.is_utf8 t ≡ true
    pub bounded : length t ≤ maximum
    pub no_nul : has_nul t ≡ false

  pub record IsLanguage (language : Bytes) : Type 0 where
    pub utf8 : tests.is_utf8 language ≡ true
    pub bounded : length language ≤ max_language_tag_bytes
    pub accepted : validate_language_tag language ≡ ok tt

  pub record IsName (name : Bytes) : Type 0 where
    pub utf8 : tests.is_utf8 name ≡ true
    pub nonempty : 0 < length name
    pub bounded : length name ≤ max_property_id_bytes
    pub accepted : tests.has_space_or_control name ≡ false

  unfoldable mutual
    pub IsValid : MetadataValue → Type 0
    IsValid (string t) = IsText max_metadata_text_bytes t
    IsValid (lang_string t language) = IsText max_metadata_text_bytes t × IsLanguage language
    IsValid (i64 z) = fits i64_bound z ≡ true
    IsValid (u64 n) = n < 2 ^ 64
    IsValid (decimal d) = IsDecimal d
    IsValid (bool b) = Unit {0}
    IsValid (timestamp t) = fits i64_bound t ≡ true
    IsValid (uri t) = IsText max_metadata_uri_bytes t × (tests.is_uri t ≡ true)
    IsValid (bytes t) = length t ≤ max_metadata_binary_bytes
    IsValid (rational r) = IsRational r
    IsValid (list vs) =
        IsBounded (count_values vs) (depth_of_values vs) (payload_of_values vs) × AllValid vs
    IsValid (struct fs) =
        IsBounded (count_fields fs) (depth_of_fields fs) (payload_of_fields fs) × FieldsValid fs
    IsValid (reference r) = IsReference r

    pub AllValid : Values → Type 0
    AllValid nil = Unit {0}
    AllValid (cons v vs) = IsValid v × AllValid vs

    pub FieldsValid : Fields → Type 0
    FieldsValid end = Unit {0}
    FieldsValid (field name v fs) = IsName name × IsValid v × FieldsValid fs
