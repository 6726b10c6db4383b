-- ===== src/Storage/Metadata/ReadsBack.antt =====
-- The reader of a value of crates/postproject-storage-sqlite/src/metadata_codec.rs on the stored
-- form.
use postproject.Base.{
  ℕ, zero, suc, ◌^◌, ◌≤◌, ◌<◌, ◌≡◌, refl, ap, ◌∙◌, Bool, true, false, [], ◌∷◌, ◌++◌, arith, ok,
  some,
}
use postproject.Base.Machine.{i64_bound, i128_bound}
use postproject.Core.Text.{Bytes}
use postproject.Core.Bytes.{be_bytes}
use postproject.Core.Metadata.Numbers.{decimal_value_fixed, rational_value_fixed}
use postproject.Core.Metadata.Value.{
  ObjectRef, MetadataValue, Values, Fields, string, lang_string, i64, u64, decimal, bool, timestamp,
  uri, bytes, rational, list, struct, reference, nil, cons, end, field, count_values, count_fields,
  nesting_depth, depth_of_values, depth_of_fields, production, asset, representation, resource,
  activity, job, max,
}
use postproject.Core.Metadata.New.{TextTests}
use postproject.Core.Metadata.Valid.{IsValid, AllValid, FieldsValid, IsReference}
use postproject.Core.Metadata.Accepted.{
  list-eq_ok, structure-eq_ok, bytes-eq_ok, string-eq_ok, language_string-eq_ok, uri-eq_ok,
  property_id-eq_ok,
}
use postproject.Storage.Metadata.Encode.{from_bool, object_kind, object_id}
use postproject.Storage.Metadata.Decode.{
  continue, invalid_stored_value, Tag, of_string, of_language_string, of_i64, of_u64, of_decimal,
  of_bool, of_timestamp, of_uri, of_bytes, of_rational, of_list, of_struct, of_reference, tag_of,
  bool_of, reference_of, decode_reference, decode_values, decode_fields, decode_tagged, decode_arm,
  decode_value, read_unsigned,
}
use postproject.Storage.Metadata.Form.{form, form_values, form_fields, prefixed}
use postproject.Storage.Metadata.Reads.{
  Reads, Reads-then, Reads-last, Reads-pure, Reads-lift, read_unsigned-Reads, read_byte-Reads,
  read_signed-Reads, read_bytes-Reads, read_count-Reads, read_string-Reads,
}

bool_of-from_bool : (b : Bool) → bool_of (from_bool b) ≡ ok b
unfolding bool_of
bool_of-from_bool true = refl
bool_of-from_bool false = refl

reference_of-object : (r : ObjectRef) → reference_of (object_kind r) (object_id r) ≡ ok r
unfolding reference_of
reference_of-object (production id) = refl
reference_of-object (asset id) = refl
reference_of-object (representation id) = refl
reference_of-object (resource id) = refl
reference_of-object (activity id) = refl
reference_of-object (job id) = refl

id_bounded : (r : ObjectRef) → IsReference r → object_id r < 2 ^ 128
id_bounded (production id) h = h
id_bounded (asset id) h = h
id_bounded (representation id) h = h
id_bounded (resource id) h = h
id_bounded (activity id) h = h
id_bounded (job id) h = h

decode_reference-Reads :
    (r : ObjectRef)
    → IsReference r
    → Reads (object_kind r ∷ be_bytes 16 (object_id r)) decode_reference r
unfolding decode_reference
decode_reference-Reads r h =
    Reads-then (object_kind r ∷ []) (be_bytes 16 (object_id r)) (read_unsigned 1) _ (object_kind r)
      r (read_byte-Reads (object_kind r))
      (Reads-last (be_bytes 16 (object_id r)) (read_unsigned 16) _ (object_id r) r
        (read_unsigned-Reads 16 (object_id r) (omega (arith, id_bounded r h)))
        (Reads-lift _ r (reference_of-object r)))

max-left : (a b c : ℕ) → max a b ≤ c → a ≤ c
max-left a b c h = ground arith

max-right : (a b c : ℕ) → max a b ≤ c → b ≤ c
max-right a b c h = ground arith

depth_pos : (v : MetadataValue) → 0 < nesting_depth v
unfolding nesting_depth
depth_pos (string t) = omega arith
depth_pos (lang_string t l) = omega arith
depth_pos (i64 z) = omega arith
depth_pos (u64 n) = omega arith
depth_pos (decimal d) = omega arith
depth_pos (bool b) = omega arith
depth_pos (timestamp t) = omega arith
depth_pos (uri t) = omega arith
depth_pos (bytes t) = omega arith
depth_pos (rational r) = omega arith
depth_pos (list vs) = omega arith
depth_pos (struct fs) = omega arith
depth_pos (reference r) = omega arith

module _ (tests : TextTests) where
  -- A value behind its tag.
  tagged :
      (levels code : ℕ) (tag : Tag) (b : Bytes) (v : MetadataValue)
      → tag_of code ≡ some tag
      → Reads b (decode_tagged tests (decode_value tests levels) tag) v
      → Reads (code ∷ b) (decode_value tests (suc levels)) v
  unfolding decode_value
  tagged levels code tag b v e h = record {
    run = λ rest.
        ap (λ r. continue r (λ code. decode_arm tests (decode_value tests levels) (tag_of code)))
          ((read_byte-Reads code).run (b ++ rest))
        ∙ ap (λ t. decode_arm tests (decode_value tests levels) t (b ++ rest)) e
        ∙ ap invalid_stored_value (h.run rest);
  }

  mutual
    unfolding decode_tagged decode_values decode_fields form IsValid nesting_depth tag_of

    pub decode_value-Reads :
        (levels : ℕ) (v : MetadataValue)
        → IsValid tests v
        → nesting_depth v ≤ levels
        → Reads (form v) (decode_value tests levels) v
    decode_value-Reads zero v h d = absurd (omega (arith, d, depth_pos v))
    decode_value-Reads (suc levels) (string t) h d = tagged levels 0 of_string (prefixed t) _ refl (
        Reads-last (prefixed t) _ _ t _
          (read_string-Reads tests _ t h.bounded (omega (arith, h.bounded)) h.utf8)
          (Reads-lift _ _ (string-eq_ok tests t h)))
    decode_value-Reads (suc levels) (lang_string t l) h d =
        tagged levels 1 of_language_string (prefixed t ++ prefixed l) _ refl (
          Reads-then (prefixed t) (prefixed l) _ _ t _
            (read_string-Reads tests _ t h.0.bounded (omega (arith, h.0.bounded)) h.0.utf8)
            (Reads-last (prefixed l) _ _ l _
              (read_string-Reads tests _ l h.1.bounded (omega (arith, h.1.bounded)) h.1.utf8)
              (Reads-lift _ _ (language_string-eq_ok tests t l h.0 h.1))))
    decode_value-Reads (suc levels) (i64 z) h d =
        tagged levels 2 of_i64 _ _ refl
          (Reads-last _ _ _ z _ (read_signed-Reads 8 i64_bound z (omega arith) h) (Reads-pure _))
    decode_value-Reads (suc levels) (u64 n) h d =
        tagged levels 3 of_u64 _ _ refl
          (Reads-last _ _ _ n _ (read_unsigned-Reads 8 n (omega (arith, h))) (Reads-pure _))
    decode_value-Reads (suc levels) (decimal x) h d = tagged levels 4 of_decimal _ _ refl (
        Reads-then _ (be_bytes 4 x.scale) _ _ x.coefficient _
          (read_signed-Reads 16 i128_bound x.coefficient (omega arith) h.in_range)
          (Reads-last (be_bytes 4 x.scale) _ _ x.scale _
            (read_unsigned-Reads 4 x.scale (omega (arith, h.bounded)))
            (Reads-then [] [] _ _ x _
              (Reads-lift _ x (ap invalid_stored_value (decimal_value_fixed x h)))
              (Reads-pure (decimal x)))))
    decode_value-Reads (suc levels) (bool b) h d = tagged levels 5 of_bool _ _ refl (
        Reads-last (from_bool b ∷ []) _ _ (from_bool b) _ (read_byte-Reads (from_bool b))
          (Reads-then [] [] _ _ b _ (Reads-lift _ b (bool_of-from_bool b)) (Reads-pure (bool b))))
    decode_value-Reads (suc levels) (timestamp z) h d =
        tagged levels 6 of_timestamp _ _ refl
          (Reads-last _ _ _ z _ (read_signed-Reads 8 i64_bound z (omega arith) h) (Reads-pure _))
    decode_value-Reads (suc levels) (uri t) h d = tagged levels 7 of_uri (prefixed t) _ refl (
        Reads-last (prefixed t) _ _ t _
          (read_string-Reads tests _ t h.0.bounded (omega (arith, h.0.bounded)) h.0.utf8)
          (Reads-lift _ _ (uri-eq_ok tests t h.0 h.1)))
    decode_value-Reads (suc levels) (bytes t) h d = tagged levels 8 of_bytes (prefixed t) _ refl (
        Reads-last (prefixed t) _ _ t _ (read_bytes-Reads _ t h (omega (arith, h)))
          (Reads-lift _ _ (bytes-eq_ok t h)))
    decode_value-Reads (suc levels) (rational x) h d = tagged levels 9 of_rational _ _ refl (
        Reads-then _ (be_bytes 8 x.denominator) _ _ x.numerator _
          (read_signed-Reads 8 i64_bound x.numerator (omega arith) h.in_range)
          (Reads-last (be_bytes 8 x.denominator) _ _ x.denominator _
            (read_unsigned-Reads 8 x.denominator (omega (arith, h.in_u64)))
            (Reads-then [] [] _ _ x _
              (Reads-lift _ x (ap invalid_stored_value (rational_value_fixed x h)))
              (Reads-pure (rational x)))))
    decode_value-Reads (suc levels) (list vs) h d = tagged levels 10 of_list _ _ refl (
        Reads-then (be_bytes 4 (count_values vs)) (form_values vs) _ _ (count_values vs) _
          (read_count-Reads (count_values vs) h.0.few)
          (Reads-last (form_values vs) _ _ vs _
            (decode_values-Reads levels vs h.1 (omega (arith, d)))
            (Reads-lift _ _ (list-eq_ok vs h.0))))
    decode_value-Reads (suc levels) (struct fs) h d = tagged levels 11 of_struct _ _ refl (
        Reads-then (be_bytes 4 (count_fields fs)) (form_fields fs) _ _ (count_fields fs) _
          (read_count-Reads (count_fields fs) h.0.few)
          (Reads-last (form_fields fs) _ _ fs _
            (decode_fields-Reads levels fs h.1 (omega (arith, d)))
            (Reads-lift _ _ (structure-eq_ok fs h.0))))
    decode_value-Reads (suc levels) (reference r) h d =
        tagged levels 12 of_reference _ _ refl
          (Reads-last _ _ _ r _ (decode_reference-Reads r h) (Reads-pure _))

    decode_values-Reads :
        (levels : ℕ) (vs : Values)
        → AllValid tests vs
        → depth_of_values vs ≤ levels
        → Reads (form_values vs) (decode_values (decode_value tests levels) (count_values vs)) vs
    decode_values-Reads levels nil h d = Reads-pure _
    decode_values-Reads levels (cons v vs) h d =
        Reads-then (form v) (form_values vs) (decode_value tests levels) _ v _
          (decode_value-Reads levels v h.0 (max-left _ _ levels d))
          (Reads-last (form_values vs) _ _ vs _
            (decode_values-Reads levels vs h.1 (max-right _ _ levels d)) (Reads-pure _))

    decode_fields-Reads :
        (levels : ℕ) (fs : Fields)
        → FieldsValid tests fs
        → depth_of_fields fs ≤ levels
        → Reads
            (form_fields fs)
            (decode_fields tests (decode_value tests levels) (count_fields fs))
            fs
    decode_fields-Reads levels end h d = Reads-pure _
    decode_fields-Reads levels (field name v fs) h d =
        Reads-then (prefixed name) (form v ++ form_fields fs) _ _ name _
          (read_string-Reads tests _ name h.0.bounded (omega (arith, h.0.bounded)) h.0.utf8)
          (Reads-then [] (form v ++ form_fields fs) _ _ name _
            (Reads-lift _ name (ap invalid_stored_value (property_id-eq_ok tests name h.0)))
            (Reads-then (form v) (form_fields fs) (decode_value tests levels) _ v _
              (decode_value-Reads levels v h.1 (max-left _ _ levels d))
              (Reads-last (form_fields fs) _ _ fs _
                (decode_fields-Reads levels fs h.2 (max-right _ _ levels d)) (Reads-pure _))))
