-- ===== src/Storage/Metadata/RoundTrip.antt =====
-- `decode` after `encode` of crates/postproject-storage-sqlite/src/metadata_codec.rs.
use postproject.Base.{
  ◌≤◌, ◌≡◌, sym, ap, subst, ◌∙◌, inl, inr, false, [], ◌∷◌, ◌++◌, arith, ok, ltb, length,
  ok_injective, ok≢err,
}
use mathlib.Core.List
use postproject.Core.Text.{Bytes, eq_bytes}
use postproject.Core.Metadata.Value.{
  MetadataValue, string, lang_string, i64, u64, decimal, bool, timestamp, uri, bytes, rational,
  list, struct, reference, nesting_depth,
}
use postproject.Core.Metadata.New.{TextTests}
use postproject.Core.Metadata.Valid.{IsValid}
use postproject.Storage.Metadata.Encode.{magic, format_version, max_encoded_bytes, encode}
use postproject.Storage.Metadata.Decode.{
  continue, decode_value, decode_header, decode, finished, read_unsigned, read_exact,
}
use postproject.Storage.Metadata.Form.{form, framed, encode-framed}
use postproject.Storage.Metadata.Reads.{
  Reads, Reads-then, Reads-last, Reads-pure, read_exact-Reads, read_byte-Reads,
}
use postproject.Storage.Metadata.ReadsBack.{decode_value-Reads}

module _ (tests : TextTests) where
  valid_depth : (v : MetadataValue) → IsValid tests v → nesting_depth v ≤ 32
  unfolding nesting_depth IsValid
  valid_depth (string t) h = omega arith
  valid_depth (lang_string t l) h = omega arith
  valid_depth (i64 z) h = omega arith
  valid_depth (u64 n) h = omega arith
  valid_depth (decimal d) h = omega arith
  valid_depth (bool b) h = omega arith
  valid_depth (timestamp t) h = omega arith
  valid_depth (uri t) h = omega arith
  valid_depth (bytes t) h = omega arith
  valid_depth (rational r) h = omega arith
  valid_depth (list vs) h = omega (arith, h.0.shallow)
  valid_depth (struct fs) h = omega (arith, h.0.shallow)
  valid_depth (reference r) h = omega arith

  decode_header-Reads : Reads (magic ++ format_version ∷ []) (decode_header tests) tt
  unfolding decode_header read_unsigned eq_bytes
  decode_header-Reads =
      Reads-then magic (format_version ∷ []) (read_exact (length magic)) _ magic tt
        (read_exact-Reads magic)
        (Reads-last (format_version ∷ []) (read_unsigned 1) _ format_version tt
          (read_byte-Reads format_version) (Reads-pure _))

  decode-framed :
      (v : MetadataValue)
      → IsValid tests v
      → length (framed tests v) ≤ max_encoded_bytes
      → decode tests (framed tests v) ≡ ok v
  unfolding decode
  decode-framed v h small =
      let fits : ltb max_encoded_bytes (length (framed tests v)) ≡ false = ground (arith, small) in
      rw fits (
        ap (λ r. finished tests (continue r (λ _. decode_value tests 32)))
          (decode_header-Reads.run (form v))
        ∙ ap (λ t. finished tests (decode_value tests 32 t)) (sym (List.append-nil (form v)))
        ∙ ap (finished tests) ((decode_value-Reads tests 32 v h (valid_depth v h)).run []))

  -- A value that satisfies what its constructor asks, if it is encoded without an error, is decoded
  -- from these bytes to the same value.
  pub decode-encode :
      (v : MetadataValue) (bs : Bytes) → IsValid tests v → encode v ≡ ok bs → decode tests bs ≡ ok v
  decode-encode v bs h e = elim (encode-framed tests v h) [
    | inl (small, f) ↦
        subst (λ t. decode tests t ≡ ok v) (ok_injective (sym f ∙ e)) (decode-framed v h small)
    | inr (large, x, f) ↦ absurd (ok≢err (sym e ∙ f))
  ]
