-- ===== src/Core/Metadata/Created.antt =====
-- The results of the constructors of crates/postproject-core/src/metadata.rs.
use postproject.Core.Metadata.Composite.{composite, composite-IsBounded}
use postproject.Base.{
  ℕ, zero, suc, ◌^◌, ◌≤◌, ◌<◌, ◌≡◌, sym, subst, ◌∙◌, inl, inr, true, false, ◌||◌, [], ◌∷◌, arith,
  ok, invalid_argument, ltb, length, is_empty, reject_if, ◌>>◌, ◌>>=◌, >>=-eq-ok, reject_if-eq-ok,
  Bool-cases, ok_injective, not, ok≢err, >>-eq-ok, if_err-eq-ok, ||-eq-false, not-false,
}
use postproject.Base.Int.{ℤ, pos, negsuc}
use postproject.Base.Machine.{fits, i64_bound}
use postproject.Core.Text.{Bytes, has_nul}
use postproject.Core.Metadata.Numbers.{limit_error, RationalValue, rational_value, IsRational}
use postproject.Core.Metadata.Rationals.{
  minus_one-IsRational, rational_value-IsRational, rational_value-zero,
}
use postproject.Core.Metadata.Value
use postproject.Core.Metadata.Value.{
  MetadataValue, Values, Fields, count_values, count_fields, depth_of_values, depth_of_fields,
  payload_of_values, payload_of_fields,
}
use postproject.Core.Metadata.New
use postproject.Core.Metadata.New.{
  TextTests, max_metadata_text_bytes, max_metadata_uri_bytes, max_metadata_binary_bytes,
  max_language_tag_bytes, max_property_id_bytes, max_metadata_collection_items,
  max_metadata_nesting_depth, max_metadata_total_bytes, validate_text, validate_identifier,
  validate_language_tag, add_payload, checked_payload_sum, payloads, field_payloads,
  composite_depth,
}
use postproject.Core.Metadata.Valid.{IsText, IsName, IsBounded, IsValid, AllValid, FieldsValid}
use postproject.Core.Metadata.Accepted.{sum-payloads, sum-field_payloads}

is_empty-pos : (t : Bytes) → is_empty t ≡ false → 0 < length t
is_empty-pos [] h = cc
is_empty-pos (b ∷ t) h = omega arith

-- A rational that is accepted is in lowest terms and in range, also where it is not the quotient of
-- the arguments.
pub rational_value-accepted :
    (n : ℤ) (d : ℕ) (r : RationalValue)
    → fits i64_bound n ≡ true
    → d < 2 ^ 64
    → rational_value n d ≡ ok r
    → IsRational r
unfolding rational_value
rational_value-accepted n zero r f u h = absurd (ok≢err (sym h))
rational_value-accepted (negsuc m) (suc d) r f u h =
    let (q, e, valid, _) =
      rational_value-IsRational (negsuc m) (suc d) f (omega arith) u (inl (omega arith)) in
    subst IsRational (ok_injective (sym e ∙ h)) valid
rational_value-accepted (pos (suc m)) (suc d) r f u h =
    let (q, e, valid, _) =
      rational_value-IsRational (pos (suc m)) (suc d) f (omega arith) u (inl (omega arith)) in
    subst IsRational (ok_injective (sym e ∙ h)) valid
rational_value-accepted (pos zero) (suc d) r f u h = elim (Bool-cases (ltb (suc d) i64_bound)) [
  | inl y ↦
      let (q, e, valid, _) =
        rational_value-IsRational (pos 0) (suc d) f (omega arith) u (inr (ground (arith, y))) in
      subst IsRational (ok_injective (sym e ∙ h)) valid
  | inr large ↦
      subst IsRational
        (ok_injective (sym (rational_value-zero (suc d) (ground (arith, large))) ∙ h))
        minus_one-IsRational
]

module _ (tests : TextTests) where
  pub list-IsValid :
      (vs : Values) (v : MetadataValue) → AllValid tests vs → New.list vs ≡ ok v → IsValid tests v
  unfolding New.list IsValid composite
  list-IsValid vs v all h =
      let (b, same) =
        composite-IsBounded (count_values vs) (depth_of_values vs) (payloads vs) (Value.list vs) v
          h in
      subst (IsValid tests) same
        (subst (IsBounded (count_values vs) (depth_of_values vs)) (sum-payloads vs) b, all)

  pub structure-IsValid :
      (fs : Fields) (v : MetadataValue)
      → FieldsValid tests fs
      → New.structure fs ≡ ok v
      → IsValid tests v
  unfolding New.structure IsValid composite
  structure-IsValid fs v all h =
      let (b, same) =
        composite-IsBounded (count_fields fs) (depth_of_fields fs) (field_payloads fs)
          (Value.struct fs) v h in
      subst (IsValid tests) same
        (subst (IsBounded (count_fields fs) (depth_of_fields fs)) (sum-field_payloads fs) b, all)

  pub bytes-IsValid : (t : Bytes) (v : MetadataValue) → New.bytes t ≡ ok v → IsValid tests v
  unfolding New.bytes IsValid
  bytes-IsValid t v h =
      let (small, same) =
        if_err-eq-ok (ltb max_metadata_binary_bytes (length t)) limit_error (ok (Value.bytes t))
          h in
      subst (IsValid tests) (ok_injective same) (ground (arith, small))

  validate_text-IsText :
      (maximum : ℕ) (t : Bytes)
      → tests.is_utf8 t ≡ true
      → validate_text t maximum ≡ ok tt
      → IsText tests maximum t
  unfolding validate_text
  validate_text-IsText maximum t u h =
      let (small, no_nul) =
        ||-eq-false (ltb maximum (length t)) (has_nul t) (reject_if-eq-ok _ _ _ h) in
      record { utf8 = u; bounded = ground (arith, small); no_nul = no_nul }

  pub string-IsValid :
      (t : Bytes) (v : MetadataValue)
      → tests.is_utf8 t ≡ true
      → New.string t ≡ ok v
      → IsValid tests v
  unfolding New.string IsValid
  string-IsValid t v u h =
      let (valid, same) =
        >>-eq-ok (validate_text t max_metadata_text_bytes) (ok (Value.string t)) h in
      subst (IsValid tests) (ok_injective same)
        (validate_text-IsText max_metadata_text_bytes t u valid)

  pub language_string-IsValid :
      (t language : Bytes) (v : MetadataValue)
      → tests.is_utf8 t ≡ true
      → tests.is_utf8 language ≡ true
      → length language ≤ max_language_tag_bytes
      → New.language_string t language ≡ ok v
      → IsValid tests v
  unfolding New.language_string IsValid
  language_string-IsValid t language v u u' b h =
      let sums = checked_payload_sum 0 (length t ∷ length language ∷ []) in
      let value = Value.lang_string t language in
      let (valid, e) =
        >>-eq-ok (validate_text t max_metadata_text_bytes)
          (validate_language_tag language >> (sums >>= λ total. ok value)) h in
      let (accepted, e') =
        >>-eq-ok (validate_language_tag language) (sums >>= λ total. ok value) e in
      let (total, _, same) = >>=-eq-ok sums (λ total. ok value) e' in
      subst (IsValid tests) (ok_injective same) (
        validate_text-IsText max_metadata_text_bytes t u valid,
        record { utf8 = u'; bounded = b; accepted = accepted },
      )

  pub uri-IsValid :
      (t : Bytes) (v : MetadataValue)
      → tests.is_utf8 t ≡ true
      → New.uri tests t ≡ ok v
      → IsValid tests v
  unfolding New.uri IsValid
  uri-IsValid t v u h =
      let bad = not (tests.is_uri t) in
      let rejected = reject_if bad invalid_argument "metadata URI is invalid" in
      let (valid, e) =
        >>-eq-ok (validate_text t max_metadata_uri_bytes) (rejected >> ok (Value.uri t)) h in
      let (is_uri, same) = >>-eq-ok rejected (ok (Value.uri t)) e in
      subst (IsValid tests) (ok_injective same) (
        validate_text-IsText max_metadata_uri_bytes t u valid,
        not-false (tests.is_uri t) (reject_if-eq-ok bad _ _ is_uri),
      )

  validate_identifier-IsName :
      (t : Bytes)
      → tests.is_utf8 t ≡ true
      → validate_identifier tests t max_property_id_bytes ≡ ok tt
      → IsName tests t
  unfolding validate_identifier
  validate_identifier-IsName t u h =
      let (sized, clear) =
        >>-eq-ok
          (reject_if (is_empty t || ltb max_property_id_bytes (length t)) invalid_argument
            "metadata identifier must contain a bounded number of UTF-8 bytes")
          (reject_if (tests.has_space_or_control t) invalid_argument
            "metadata identifier must not contain whitespace or control characters")
          h in
      let (some, small) =
        ||-eq-false (is_empty t) (ltb max_property_id_bytes (length t))
          (reject_if-eq-ok _ _ _ sized) in
      record {
        utf8 = u;
        nonempty = is_empty-pos t some;
        bounded = ground (arith, small);
        accepted = reject_if-eq-ok _ _ _ clear;
      }

  pub property_id-IsName :
      (t name : Bytes)
      → tests.is_utf8 t ≡ true
      → New.property_id tests t ≡ ok name
      → IsName tests name
  unfolding New.property_id
  property_id-IsName t name u h =
      let (valid, same) = >>-eq-ok (validate_identifier tests t max_property_id_bytes) (ok t) h in
      subst (IsName tests) (ok_injective same) (validate_identifier-IsName t u valid)
