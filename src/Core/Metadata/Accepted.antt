-- ===== src/Core/Metadata/Accepted.antt =====
-- The constructors of crates/postproject-core/src/metadata.rs on valid values.
use postproject.Base.{
  ℕ, ◌+◌, ◌^◌, ◌≤◌, ◌<◌, ◌≡◌, refl, ap, ◌∙◌, true, false, List, [], ◌∷◌, arith, ok, ltb, length,
  is_empty,
}
use postproject.Core.Text.{Bytes}
use postproject.Core.Metadata.Value
use postproject.Core.Metadata.Value.{
  MetadataValue, Values, Fields, nil, cons, end, field, count_values, count_fields, depth_of_values,
  depth_of_fields, payload_bytes, payload_of_values, payload_of_fields,
}
use postproject.Core.Metadata.New
use postproject.Core.Metadata.New.{
  TextTests, max_metadata_text_bytes, max_metadata_uri_bytes, max_metadata_binary_bytes,
  max_metadata_collection_items, max_metadata_nesting_depth, max_metadata_total_bytes,
  validate_text, validate_language_tag, validate_identifier, add_payload, checked_payload_sum,
  payloads, field_payloads, composite_depth,
}
use postproject.Core.Metadata.Valid.{IsText, IsLanguage, IsName, IsBounded}

abbrev pub sum : List ℕ → ℕ
sum [] = 0
sum (n ∷ ns) = n + sum ns

checked_payload_sum-eq_ok :
    (total : ℕ) (ns : List ℕ)
    → total + sum ns ≤ max_metadata_total_bytes
    → checked_payload_sum total ns ≡ ok (total + sum ns)
unfolding checked_payload_sum add_payload
checked_payload_sum-eq_ok total [] h = ap ok (omega arith)
checked_payload_sum-eq_ok total (n ∷ ns) h =
    let wide : ltb (total + n) (2 ^ 64) ≡ true = ground arith in
    let small : ltb max_metadata_total_bytes (total + n) ≡ false = ground arith in
    rw (wide, small)
      (checked_payload_sum-eq_ok (total + n) ns (omega (arith, h)) ∙ ap ok (omega arith))

pub sum-payloads : (vs : Values) → sum (payloads vs) ≡ payload_of_values vs
unfolding payload_of_values
sum-payloads nil = refl
sum-payloads (cons v vs) = ap (λ t. payload_bytes v + t) (sum-payloads vs)

pub sum-field_payloads : (fs : Fields) → sum (field_payloads fs) ≡ payload_of_fields fs
unfolding payload_of_fields
sum-field_payloads end = refl
sum-field_payloads (field name v fs) =
    ap (λ t. length name + (payload_bytes v + t)) (sum-field_payloads fs)

composite_depth-eq_ok :
    (d : ℕ) → d + 1 ≤ max_metadata_nesting_depth → composite_depth d ≡ ok (d + 1)
unfolding composite_depth
composite_depth-eq_ok d h =
    let small : ltb max_metadata_nesting_depth (d + 1) ≡ false = ground arith in rw small refl

pub list-eq_ok :
    (vs : Values)
    → IsBounded (count_values vs) (depth_of_values vs) (payload_of_values vs)
    → New.list vs ≡ ok (Value.list vs)
unfolding New.list
list-eq_ok vs h =
    let few : ltb max_metadata_collection_items (count_values vs) ≡ false = ground (arith, h.few) in
    rw
      (
        few,
        composite_depth-eq_ok (depth_of_values vs) h.shallow,
        checked_payload_sum-eq_ok 0 (payloads vs) (omega (arith, sum-payloads vs, h.light)),
      )
      refl

pub structure-eq_ok :
    (fs : Fields)
    → IsBounded (count_fields fs) (depth_of_fields fs) (payload_of_fields fs)
    → New.structure fs ≡ ok (Value.struct fs)
unfolding New.structure
structure-eq_ok fs h =
    let few : ltb max_metadata_collection_items (count_fields fs) ≡ false = ground (arith, h.few) in
    rw
      (
        few,
        composite_depth-eq_ok (depth_of_fields fs) h.shallow,
        checked_payload_sum-eq_ok 0 (field_payloads fs)
            (omega (arith, sum-field_payloads fs, h.light)),
      )
      refl

pub bytes-eq_ok :
    (t : Bytes) → length t ≤ max_metadata_binary_bytes → New.bytes t ≡ ok (Value.bytes t)
unfolding New.bytes
bytes-eq_ok t h =
    let small : ltb max_metadata_binary_bytes (length t) ≡ false = ground arith in rw small refl

module _ (tests : TextTests) where
  validate_text-eq_ok :
      (maximum : ℕ) (t : Bytes) → IsText tests maximum t → validate_text t maximum ≡ ok tt
  unfolding validate_text
  validate_text-eq_ok maximum t h =
      let small : ltb maximum (length t) ≡ false = ground (arith, h.bounded) in
      rw (small, h.no_nul) refl

  pub string-eq_ok :
      (t : Bytes) → IsText tests max_metadata_text_bytes t → New.string t ≡ ok (Value.string t)
  unfolding New.string
  string-eq_ok t h = rw (validate_text-eq_ok max_metadata_text_bytes t h) refl

  pub language_string-eq_ok :
      (t language : Bytes)
      → IsText tests max_metadata_text_bytes t
      → IsLanguage tests language
      → New.language_string t language ≡ ok (Value.lang_string t language)
  unfolding New.language_string
  language_string-eq_ok t language h k =
      rw
        (
          validate_text-eq_ok max_metadata_text_bytes t h,
          k.accepted,
          checked_payload_sum-eq_ok 0 (length t ∷ length language ∷ [])
              (omega (arith, h.bounded, k.bounded)),
        )
        refl

  pub uri-eq_ok :
      (t : Bytes)
      → IsText tests max_metadata_uri_bytes t
      → tests.is_uri t ≡ true
      → New.uri tests t ≡ ok (Value.uri t)
  unfolding New.uri
  uri-eq_ok t h k = rw (validate_text-eq_ok max_metadata_uri_bytes t h, k) refl

  pub property_id-eq_ok : (name : Bytes) → IsName tests name → New.property_id tests name ≡ ok name
  unfolding New.property_id New.validate_identifier
  property_id-eq_ok name h =
      let some : is_empty name ≡ false = nonempty name h.nonempty in
      let small : ltb 255 (length name) ≡ false = ground (arith, h.bounded) in
      rw (some, small, h.accepted) refl
    where
      nonempty : (t : Bytes) → 0 < length t → is_empty t ≡ false
      nonempty [] p = absurd (omega (arith, p))
      nonempty (b ∷ t) p = refl
