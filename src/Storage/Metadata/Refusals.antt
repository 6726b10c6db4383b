-- ===== src/Storage/Metadata/Refusals.antt =====
-- How `decode` of crates/postproject-storage-sqlite/src/metadata_codec.rs fails.
use postproject.Base.{
  ℕ, zero, suc, ◌≡◌, refl, true, Option, none, some, Result, ok, err, Error, storage, ltb, length,
  arith, ◌⊎◌, inl, inr, Bool-cases, ErrorKind,
}
use postproject.Core.Text.{Bytes, eq_bytes}
use postproject.Core.Metadata.Value.{MetadataValue}
use postproject.Core.Metadata.New.{TextTests}
use postproject.Core.Metadata.Valid.{IsValid}
use postproject.Storage.Metadata.Encode.{magic, max_encoded_bytes}
use postproject.Storage.Metadata.Decode.{
  Reader, continue, is_storage, invalid_stored_value, Tag, tag_of, read_exact, read_unsigned,
  decode_tagged, decode_arm, decode_value, decode_header, decode, finished,
}
use postproject.Storage.Metadata.Yields.{Octets}
use postproject.Storage.Metadata.Sound.{decode-IsValid}

-- The result is no error of another category.
abbrev StorageOnly : {A : Type 0} → Result A → Type 0
StorageOnly (ok a) = Unit {0}
StorageOnly (err e) = e.kind ≡ storage

is_storage-eq : (k : ErrorKind) → is_storage k ≡ true → k ≡ storage
is_storage-eq storage h = refl
is_storage-eq _ h = cc

invalid_stored_value-StorageOnly :
    {A : Type 0} (r : Result A) → StorageOnly (invalid_stored_value r)
invalid_stored_value-StorageOnly (ok a) = tt
invalid_stored_value-StorageOnly (err e) = elim (Bool-cases (is_storage e.kind)) [
  | inl y ↦ rw y (is_storage-eq e.kind y)
  | inr n ↦ rw n refl
]

continue-StorageOnly :
    {A B : Type 0} (r : Result (A × Bytes)) (f : A → Reader B)
    → StorageOnly r
    → ((a : A) (rest : Bytes) → StorageOnly (f a rest))
    → StorageOnly (continue r f)
continue-StorageOnly (ok (a, rest)) f h k = k a rest
continue-StorageOnly (err e) f h k = h

read_exact-StorageOnly : (n : ℕ) (bs : Bytes) → StorageOnly (read_exact n bs)
unfolding read_exact
read_exact-StorageOnly n bs = ground arith

read_unsigned-StorageOnly : (k : ℕ) (bs : Bytes) → StorageOnly (read_unsigned k bs)
unfolding read_unsigned
read_unsigned-StorageOnly k bs =
    continue-StorageOnly (read_exact k bs) _ (read_exact-StorageOnly k bs) (λ t rest. tt)

module _ (tests : TextTests) where
  decode_arm-StorageOnly :
      (child : Reader MetadataValue) (tag : Option Tag) (bs : Bytes)
      → StorageOnly (decode_arm tests child tag bs)
  decode_arm-StorageOnly child none bs = refl
  decode_arm-StorageOnly child (some tag) bs =
      invalid_stored_value-StorageOnly (decode_tagged tests child tag bs)

  decode_value-StorageOnly : (levels : ℕ) (bs : Bytes) → StorageOnly (decode_value tests levels bs)
  unfolding decode_value
  decode_value-StorageOnly zero bs = refl
  decode_value-StorageOnly (suc levels) bs =
      continue-StorageOnly (read_unsigned 1 bs) _ (read_unsigned-StorageOnly 1 bs)
        (λ code. decode_arm-StorageOnly (decode_value tests levels) (tag_of code))

  decode_header-StorageOnly : (bs : Bytes) → StorageOnly (decode_header tests bs)
  unfolding decode_header
  decode_header-StorageOnly bs =
      continue-StorageOnly (read_exact (length magic) bs) _
        (read_exact-StorageOnly (length magic) bs)
        (λ start rest. elim (Bool-cases (eq_bytes start magic)) [
          | inr n ↦ rw n refl
          | inl y ↦ rw y (
              continue-StorageOnly (read_unsigned 1 rest) _ (read_unsigned-StorageOnly 1 rest)
                (λ version rest. ground arith))
        ])

  finished-StorageOnly :
      (r : Result (MetadataValue × Bytes)) → StorageOnly r → StorageOnly (finished tests r)
  finished-StorageOnly (ok (v, rest)) h = ground arith
  finished-StorageOnly (err e) h = h

  decode-StorageOnly : (bs : Bytes) → StorageOnly (decode tests bs)
  unfolding decode
  decode-StorageOnly bs = elim (Bool-cases (ltb max_encoded_bytes (length bs))) [
    | inl y ↦ rw y refl
    | inr n ↦ rw n (
        finished-StorageOnly _ (
          continue-StorageOnly (decode_header tests bs) _ (decode_header-StorageOnly bs)
            (λ _. decode_value-StorageOnly 32)))
  ]

  decided :
      (bs : Bytes) (r : Result MetadataValue)
      → ((v : MetadataValue) → r ≡ ok v → IsValid tests v)
      → StorageOnly r
      → ((v : MetadataValue) × (r ≡ ok v) × IsValid tests v)
        ⊎ ((e : Error) × (r ≡ err e) × (e.kind ≡ storage))
  decided bs (ok v) h k = inl (v, refl, h v refl)
  decided bs (err e) h k = inr (e, refl, k)

  -- On any bytes, decoding returns a value that satisfies what its constructor asks, or fails with
  -- category storage.
  pub decode-decided :
      (bs : Bytes)
      → Octets bs
      → ((v : MetadataValue) × (decode tests bs ≡ ok v) × IsValid tests v)
        ⊎ ((e : Error) × (decode tests bs ≡ err e) × (e.kind ≡ storage))
  decode-decided bs o =
      decided bs (decode tests bs) (λ v. decode-IsValid tests bs v o) (decode-StorageOnly bs)
