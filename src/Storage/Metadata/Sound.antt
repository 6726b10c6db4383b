-- ===== src/Storage/Metadata/Sound.antt =====
-- What `decode` of crates/postproject-storage-sqlite/src/metadata_codec.rs accepts.
use Prim.Native.String.{String}
use postproject.Base.{
  not, ◌==◌, ℕ, zero, suc, ◌^◌, ◌<◌, ◌≡◌, sym, subst, Bool, arith, Result, ok, err, if◌then◌else◌,
  ltb, length, inl, inr, Bool-cases, Option, none, some, is_empty, ok_injective, ok≢err,
  if_err-eq-ok,
}
use postproject.Base.Machine.{i64_bound, i128_bound}
use postproject.Core.Text.{Bytes, eq_bytes}
use postproject.Core.Metadata.Numbers.{
  IsDecimal, IsRational, decimal_value, rational_value, decimal_value-IsDecimal,
}
use postproject.Core.Metadata.Value
use postproject.Core.Metadata.Value.{ObjectRef, MetadataValue, Values, Fields}
use postproject.Core.Metadata.New
use postproject.Core.Metadata.New.{
  TextTests, max_metadata_text_bytes, max_metadata_uri_bytes, max_language_tag_bytes,
  max_metadata_binary_bytes, max_property_id_bytes,
}
use postproject.Core.Metadata.Valid.{IsReference, IsName, IsValid, AllValid, FieldsValid}
use postproject.Core.Metadata.Created.{
  rational_value-accepted, list-IsValid, structure-IsValid, bytes-IsValid, string-IsValid,
  language_string-IsValid, uri-IsValid, property_id-IsName,
}
use postproject.Storage.Metadata.Encode.{magic, format_version, max_encoded_bytes}
use postproject.Storage.Metadata.Decode.{
  Reader, ◌>>=◌, pure, invalid_stored_value, is_storage, malformed, read_unsigned, Tag, of_string,
  of_language_string, of_i64, of_u64, of_decimal, of_bool, of_timestamp, of_uri, of_bytes,
  of_rational, of_list, of_struct, of_reference, tag_of, bool_of, reference_of, decode_reference,
  decode_values, decode_fields, decode_tagged, decode_arm, decode_value, decode_header, decode,
  finished,
}
use postproject.Storage.Metadata.Yields.{
  Octets, Gives, Yields, Yields-then, Yields-pure, Yields-lift, Yields-if, Yields-fail,
  invalid_stored_value-Gives, read_exact-Yields, read_unsigned-Yields, read_signed-Yields,
  read_bytes-Yields, read_count-Yields, read_string-Yields,
}

-- A stored value that is accepted was accepted by its constructor.
invalid_stored_value-eq-ok :
    {A : Type 0} (r : Result A) {a : A} → invalid_stored_value r ≡ ok a → r ≡ ok a
invalid_stored_value-eq-ok (ok a) h = h
invalid_stored_value-eq-ok (err e) h = elim (Bool-cases (is_storage e.kind)) [
  | inl y ↦ absurd (ok≢err (sym (rw y at h)))
  | inr n ↦ absurd (ok≢err (sym (rw n at h)))
]

abbrev IfAccepted : Result ObjectRef → Type 0
IfAccepted (ok r) = IsReference r
IfAccepted (err e) = Unit {0}

reference_of-IfAccepted : (kind id : ℕ) → id < 2 ^ 128 → IfAccepted (reference_of kind id)
unfolding reference_of
reference_of-IfAccepted kind id b = ground arith

reference_of-IsReference :
    (kind id : ℕ) (r : ObjectRef) → id < 2 ^ 128 → reference_of kind id ≡ ok r → IsReference r
reference_of-IsReference kind id r b h = subst IfAccepted h (reference_of-IfAccepted kind id b)

decode_reference-Yields : Yields IsReference decode_reference
unfolding decode_reference
decode_reference-Yields = Yields-then (read_unsigned-Yields 1) λ kind _.
    Yields-then (read_unsigned-Yields 16)
      λ id b. Yields-lift λ r h. reference_of-IsReference kind id r (omega (arith, b)) h

abbrev refuse : String → Reader (Unit {0})
refuse message encoded = malformed message

-- The part of `decode_header` after the magic bytes.
abbrev version_and : Reader (Unit {0})
version_and = read_unsigned 1 >>= λ version.
    if not (version == format_version)
    then refuse "metadata encoding version is unsupported"
    else pure tt

module _ (tests : TextTests) where
  decode_values-Yields :
      (child : Reader MetadataValue) (n : ℕ)
      → Yields (IsValid tests) child
      → Yields (AllValid tests) (decode_values child n)
  unfolding decode_values IsValid
  decode_values-Yields child zero c = Yields-pure tt
  decode_values-Yields child (suc n) c =
      Yields-then c λ v h. Yields-then (decode_values-Yields child n c) λ vs k. Yields-pure (h, k)

  decode_fields-Yields :
      (child : Reader MetadataValue) (n : ℕ)
      → Yields (IsValid tests) child
      → Yields (FieldsValid tests) (decode_fields tests child n)
  unfolding decode_fields IsValid
  decode_fields-Yields child zero c = Yields-pure tt
  decode_fields-Yields child (suc n) c =
      Yields-then (read_string-Yields tests max_property_id_bytes) λ t u.
        Yields-then
          (Yields-lift {P = IsName tests} λ name e.
            property_id-IsName tests t name u.0
              (invalid_stored_value-eq-ok (New.property_id tests t) e))
          λ name s.
            Yields-then c
              λ v h. Yields-then (decode_fields-Yields child n c) λ fs k. Yields-pure (s, h, k)

  decode_tagged-Yields :
      (child : Reader MetadataValue) (tag : Tag)
      → Yields (IsValid tests) child
      → Yields (IsValid tests) (decode_tagged tests child tag)
  unfolding decode_tagged IsValid
  decode_tagged-Yields child of_string c =
      Yields-then (read_string-Yields tests max_metadata_text_bytes)
        λ t u. Yields-lift λ v e. string-IsValid tests t v u.0 e
  decode_tagged-Yields child of_language_string c =
      Yields-then (read_string-Yields tests max_metadata_text_bytes) λ t u.
        Yields-then (read_string-Yields tests max_language_tag_bytes)
          λ l w. Yields-lift λ v e. language_string-IsValid tests t l v u.0 w.0 w.1 e
  decode_tagged-Yields child of_i64 c =
      Yields-then (read_signed-Yields 8 i64_bound (omega arith)) λ z h. Yields-pure h
  decode_tagged-Yields child of_u64 c =
      Yields-then (read_unsigned-Yields 8) λ n h. Yields-pure (omega (arith, h))
  decode_tagged-Yields child of_decimal c =
      Yields-then (read_signed-Yields 16 i128_bound (omega arith)) λ z h.
        Yields-then (read_unsigned-Yields 4) λ n _.
          Yields-then
            (Yields-lift {P = IsDecimal} λ d e.
              decimal_value-IsDecimal z n d h (invalid_stored_value-eq-ok (decimal_value z n) e))
            λ d k. Yields-pure k
  decode_tagged-Yields child of_bool c = Yields-then (read_unsigned-Yields 1) λ n _.
      Yields-then (Yields-lift {P = λ (b : Bool). Unit {0}} {r = bool_of n} λ b e. tt)
        λ b _. Yields-pure {a = Value.bool b} tt
  decode_tagged-Yields child of_timestamp c =
      Yields-then (read_signed-Yields 8 i64_bound (omega arith)) λ z h. Yields-pure h
  decode_tagged-Yields child of_uri c =
      Yields-then (read_string-Yields tests max_metadata_uri_bytes)
        λ t u. Yields-lift λ v e. uri-IsValid tests t v u.0 e
  decode_tagged-Yields child of_bytes c =
      Yields-then (read_bytes-Yields max_metadata_binary_bytes)
        λ t u. Yields-lift λ v e. bytes-IsValid tests t v e
  decode_tagged-Yields child of_rational c =
      Yields-then (read_signed-Yields 8 i64_bound (omega arith)) λ z h.
        Yields-then (read_unsigned-Yields 8) λ n b.
          Yields-then
            (Yields-lift {P = IsRational} λ r e.
              rational_value-accepted z n r h (omega (arith, b))
                (invalid_stored_value-eq-ok (rational_value z n) e))
            λ r k. Yields-pure k
  decode_tagged-Yields child of_list c = Yields-then read_count-Yields λ n _.
      Yields-then (decode_values-Yields child n c)
        λ vs k. Yields-lift λ v e. list-IsValid tests vs v k e
  decode_tagged-Yields child of_struct c = Yields-then read_count-Yields λ n _.
      Yields-then (decode_fields-Yields child n c)
        λ fs k. Yields-lift λ v e. structure-IsValid tests fs v k e
  decode_tagged-Yields child of_reference c =
      Yields-then decode_reference-Yields λ r h. Yields-pure h

  decode_arm-Yields :
      (child : Reader MetadataValue) (tag : Option Tag)
      → Yields (IsValid tests) child
      → Yields (IsValid tests) (decode_arm tests child tag)
  decode_arm-Yields child none c = Yields-fail
  decode_arm-Yields child (some tag) c = record {
    run = λ encoded o.
        invalid_stored_value-Gives (IsValid tests) (decode_tagged tests child tag encoded)
          ((decode_tagged-Yields child tag c).run encoded o);
  }

  decode_value-Yields : (levels : ℕ) → Yields (IsValid tests) (decode_value tests levels)
  unfolding decode_value
  decode_value-Yields zero = Yields-fail
  decode_value-Yields (suc levels) = Yields-then (read_unsigned-Yields 1) λ code _.
      decode_arm-Yields (decode_value tests levels) (tag_of code) (decode_value-Yields levels)

  decode_header-Yields : Yields (λ _. Unit {0}) (decode_header tests)
  unfolding decode_header
  decode_header-Yields = Yields-then (read_exact-Yields (length magic)) λ start _.
      Yields-if {p = refuse "metadata encoding magic is invalid"} {q = version_and}
        (not (eq_bytes start magic)) (λ _. Yields-fail)
        λ _. Yields-then (read_unsigned-Yields 1) λ version _.
          Yields-if {p = refuse "metadata encoding version is unsupported"} {q = pure tt}
            (not (version == format_version)) (λ _. Yields-fail) λ _. Yields-pure tt

  finished-IsValid :
      (r : Result (MetadataValue × Bytes)) (v : MetadataValue)
      → Gives (IsValid tests) r
      → finished tests r ≡ ok v
      → IsValid tests v
  finished-IsValid (ok (w, rest)) v h e = elim (Bool-cases (is_empty rest)) [
    | inl y ↦ subst (IsValid tests) (ok_injective (rw y at e)) h.0
    | inr n ↦ absurd (ok≢err (sym (rw n at e)))
  ]
  finished-IsValid (err x) v h e = absurd (ok≢err (sym e))

  pub decode-IsValid :
      (bs : Bytes) (v : MetadataValue) → Octets bs → decode tests bs ≡ ok v → IsValid tests v
  unfolding decode
  decode-IsValid bs v o h =
      let (_, e) = if_err-eq-ok (ltb max_encoded_bytes (length bs)) _ _ h in
      finished-IsValid _ v
        ((Yields-then decode_header-Yields λ _ _. decode_value-Yields 32).run bs o) e
