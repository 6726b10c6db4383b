-- ===== src/Storage/Metadata/Form.antt =====
-- The stored form as a plain function, and the writer of
-- crates/postproject-storage-sqlite/src/metadata_codec.rs.
use postproject.Base.{
  ℕ, ◌+◌, ◌^◌, ◌≤◌, ◌<◌, ◌≡◌, refl, ◌⊎◌, inl, inr, true, [], ◌∷◌, ◌++◌, arith, Result, ok, err,
  Error, ltb, length, length-append, ◌>>=◌, Bool-cases, sym, subst,
}
use mathlib.Core.List
use postproject.Base.Machine.{i64_bound, i128_bound}
use postproject.Core.Text.{Bytes}
use postproject.Core.Bytes.{be_bytes, unsigned_of}
use postproject.Core.Metadata.Value.{
  ObjectRef, MetadataValue, Values, Fields, string, lang_string, i64, u64, decimal, bool, timestamp,
  uri, bytes, rational, list, struct, reference, nil, cons, end, field, count_values, count_fields,
}
use postproject.Core.Metadata.New.{TextTests}
use postproject.Core.Metadata.Valid.{IsValid, AllValid, FieldsValid}
use postproject.Storage.Metadata.Encode.{
  magic, format_version, max_encoded_bytes, Writer, write, write_u8, write_len,
  write_length_prefixed, from_bool, object_kind, object_id, encode_reference, encode_value,
  encode_values, encode_fields, encode,
}

-- A text or bytes behind their length.
abbrev pub prefixed : Bytes → Bytes
prefixed t = be_bytes 4 (length t) ++ t

unfoldable mutual
  pub form : MetadataValue → Bytes
  form (string t) = 0 ∷ prefixed t
  form (lang_string t language) = 1 ∷ (prefixed t ++ prefixed language)
  form (i64 z) = 2 ∷ be_bytes 8 (unsigned_of i64_bound z)
  form (u64 n) = 3 ∷ be_bytes 8 n
  form (decimal d) = 4 ∷ (be_bytes 16 (unsigned_of i128_bound d.coefficient) ++ be_bytes 4 d.scale)
  form (bool b) = 5 ∷ from_bool b ∷ []
  form (timestamp t) = 6 ∷ be_bytes 8 (unsigned_of i64_bound t)
  form (uri t) = 7 ∷ prefixed t
  form (bytes t) = 8 ∷ prefixed t
  form (rational r) =
      9 ∷ (be_bytes 8 (unsigned_of i64_bound r.numerator) ++ be_bytes 8 r.denominator)
  form (list vs) = 10 ∷ (be_bytes 4 (count_values vs) ++ form_values vs)
  form (struct fs) = 11 ∷ (be_bytes 4 (count_fields fs) ++ form_fields fs)
  form (reference r) = 12 ∷ object_kind r ∷ be_bytes 16 (object_id r)

  pub form_values : Values → Bytes
  form_values nil = []
  form_values (cons v vs) = form v ++ form_values vs

  pub form_fields : Fields → Bytes
  form_fields end = []
  form_fields (field name v fs) = prefixed name ++ (form v ++ form_fields fs)

-- A step that writes these bytes if they fit, and else fails.
abbrev pub Outcome : Bytes → Result Writer → Type 0
Outcome total r =
    ((length total ≤ max_encoded_bytes) × (r ≡ ok total))
    ⊎ ((max_encoded_bytes < length total) × (e : Error) × (r ≡ err e))

abbrev pub Writes : Bytes → (Writer → Result Writer) → Type 0
Writes form f =
    (writer : Writer) → length writer ≤ max_encoded_bytes → Outcome (writer ++ form) (f writer)

write-Writes : (value : Bytes) → Writes value (write value)
unfolding write
write-Writes value writer h =
    let both : length (writer ++ value) ≡ length writer + length value =
      length-append writer value in
    elim (Bool-cases (ltb (length writer + length value) (2 ^ 64))) [
      | inr n ↦ rw n (inr (ground (arith, both), _, refl))
      | inl y ↦ rw y (elim (Bool-cases (ltb max_encoded_bytes (length writer + length value))) [
        | inl y' ↦ rw y' (inr (ground (arith, both), _, refl))
        | inr n' ↦ rw n' (inl (ground (arith, both), refl))
      ])
    ]

Writes-then :
    (a b : Bytes) (f g : Writer → Result Writer)
    → Writes a f
    → Writes b g
    → Writes (a ++ b) (λ writer. f writer >>= g)
Writes-then a b f g p q writer h = elim (p writer h) [
  | inl (k, e) ↦
      subst (λ r. Outcome (writer ++ (a ++ b)) (r >>= g)) (sym e)
        (subst (λ t. Outcome t (g (writer ++ a))) (List.append_assoc writer a b)
          (q (writer ++ a) k))
  | inr (k, x, e) ↦ inr (
    omega (arith, k, length-append writer a, length-append writer (a ++ b), length-append a b),
    x,
    subst (λ r. (r >>= g) ≡ err x) (sym e) refl,
  )
]

write_len-Writes : (n : ℕ) → n < 2 ^ 32 → Writes (be_bytes 4 n) (write_len n)
unfolding write_len
write_len-Writes n h writer k =
    let small : ltb n (2 ^ 32) ≡ true = ground arith in
    rw small (write-Writes (be_bytes 4 n) writer k)

write_length_prefixed-Writes :
    (t : Bytes) → length t < 2 ^ 32 → Writes (prefixed t) (write_length_prefixed t)
unfolding write_length_prefixed
write_length_prefixed-Writes t h =
    Writes-then (be_bytes 4 (length t)) t (write_len (length t)) (write t)
      (write_len-Writes (length t) h) (write-Writes t)

-- The steps of a value behind its tag.
tagged :
    (tag : ℕ) (b : Bytes) (g : Writer → Result Writer)
    → Writes b g
    → Writes (tag ∷ b) (λ writer. write_u8 tag writer >>= g)
tagged tag b g = Writes-then (tag ∷ []) b (write_u8 tag) g (write-Writes (tag ∷ []))

nothing-Writes : Writes [] (λ writer. ok writer)
nothing-Writes writer h =
    subst (λ t. Outcome t (ok writer)) (sym (List.append-nil writer)) (inl (h, refl))

encode_reference-Writes :
    (r : ObjectRef) → Writes (object_kind r ∷ be_bytes 16 (object_id r)) (encode_reference r)
unfolding encode_reference
encode_reference-Writes r = tagged (object_kind r) _ _ (write-Writes (be_bytes 16 (object_id r)))

module _ (tests : TextTests) where
  mutual
    unfolding encode_value form IsValid

    encode_value-Writes : (v : MetadataValue) → IsValid tests v → Writes (form v) (encode_value v)
    encode_value-Writes (string t) h =
        tagged 0 _ _ (write_length_prefixed-Writes t (omega (arith, h.bounded)))
    encode_value-Writes (lang_string t language) h = tagged 1 _ _ (
        Writes-then _ _ _ _ (write_length_prefixed-Writes t (omega (arith, h.0.bounded)))
          (write_length_prefixed-Writes language (omega (arith, h.1.bounded))))
    encode_value-Writes (i64 z) h = tagged 2 _ _ (write-Writes _)
    encode_value-Writes (u64 n) h = tagged 3 _ _ (write-Writes _)
    encode_value-Writes (decimal d) h =
        tagged 4 _ _ (Writes-then _ _ _ _ (write-Writes _) (write-Writes _))
    encode_value-Writes (bool b) h = tagged 5 _ _ (write-Writes _)
    encode_value-Writes (timestamp t) h = tagged 6 _ _ (write-Writes _)
    encode_value-Writes (uri t) h =
        tagged 7 _ _ (write_length_prefixed-Writes t (omega (arith, h.0.bounded)))
    encode_value-Writes (bytes t) h =
        tagged 8 _ _ (write_length_prefixed-Writes t (omega (arith, h)))
    encode_value-Writes (rational r) h =
        tagged 9 _ _ (Writes-then _ _ _ _ (write-Writes _) (write-Writes _))
    encode_value-Writes (list vs) h = tagged 10 _ _ (
        Writes-then _ _ _ _ (write_len-Writes (count_values vs) (omega (arith, h.0.few)))
          (encode_values-Writes vs h.1))
    encode_value-Writes (struct fs) h = tagged 11 _ _ (
        Writes-then _ _ _ _ (write_len-Writes (count_fields fs) (omega (arith, h.0.few)))
          (encode_fields-Writes fs h.1))
    encode_value-Writes (reference r) h = tagged 12 _ _ (encode_reference-Writes r)

    encode_values-Writes :
        (vs : Values) → AllValid tests vs → Writes (form_values vs) (encode_values vs)
    encode_values-Writes nil h = nothing-Writes
    encode_values-Writes (cons v vs) h =
        Writes-then _ _ _ _ (encode_value-Writes v h.0) (encode_values-Writes vs h.1)

    encode_fields-Writes :
        (fs : Fields) → FieldsValid tests fs → Writes (form_fields fs) (encode_fields fs)
    encode_fields-Writes end h = nothing-Writes
    encode_fields-Writes (field name v fs) h =
        Writes-then _ _ _ _ (write_length_prefixed-Writes name (omega (arith, h.0.bounded)))
          (Writes-then _ _ _ _ (encode_value-Writes v h.1) (encode_fields-Writes fs h.2))

  -- The magic bytes, the version and the form of the value.
  abbrev pub framed : MetadataValue → Bytes
  framed v = magic ++ format_version ∷ form v

  -- A value that satisfies what its constructor asks is encoded as its reference form behind the
  -- magic bytes and the version if these have at most 16 MiB, and else encoding fails.
  pub encode-framed : (v : MetadataValue) → IsValid tests v → Outcome (framed v) (encode v)
  unfolding encode
  encode-framed v h =
      Writes-then magic (format_version ∷ form v) (write magic)
        (λ w. write_u8 format_version w >>= encode_value v) (write-Writes magic)
        (tagged format_version (form v) (encode_value v) (encode_value-Writes v h)) [] (omega arith)
