-- ===== src/Storage/Metadata/Decode.antt =====
-- `decode` of crates/postproject-storage-sqlite/src/metadata_codec.rs. A reader is the bytes from its
-- position on; on bytes within the size limit no position overflows.
use Prim.Native.String.{String}
use postproject.Base.{
  ℕ, zero, suc, Bool, true, false, not, Option, none, some, [], ◌∷◌, Result, ok, err, ErrorKind,
  storage, if◌then◌else◌, ltb, ◌==◌, length, take, is_empty, fail,
}
use postproject.Base.Int.{ℤ}
use postproject.Base.Machine.{i64_bound, i128_bound}
use postproject.Core.Text.{Bytes, eq_bytes}
use postproject.Core.Bytes.{number_of, signed_of}
use postproject.Core.Metadata.Numbers.{decimal_value, rational_value}
use postproject.Core.Metadata.Value
use postproject.Core.Metadata.Value.{
  ObjectRef, MetadataValue, Values, Fields, nil, cons, end, field,
}
use postproject.Core.Metadata.New
use postproject.Core.Metadata.New.{
  TextTests, max_property_id_bytes, max_metadata_text_bytes, max_metadata_uri_bytes,
  max_metadata_binary_bytes, max_language_tag_bytes, max_metadata_collection_items,
}
use postproject.Storage.Metadata.Encode.{magic, format_version, max_encoded_bytes}

abbrev pub Reader : Type 0 → Type 0
Reader A = Bytes → Result (A × Bytes)

abbrev pub continue : {A B : Type 0} → Result (A × Bytes) → (A → Reader B) → Result (B × Bytes)
continue (ok (a, rest)) f = f a rest
continue (err e) f = err e

infixl 5 ◌>>=◌
abbrev pub ◌>>=◌ : {A B : Type 0} → Reader A → (A → Reader B) → Reader B
p >>= f = λ encoded. continue (p encoded) f

abbrev pub pure : {A : Type 0} → A → Reader A
pure a encoded = ok (a, encoded)

abbrev pub malformed : {A : Type 0} → String → Result A
malformed message = fail storage message

abbrev pub is_storage : ErrorKind → Bool
is_storage storage = true
is_storage _ = false

-- `map_err(invalid_stored_value)`; it keeps the reader's own errors, whose category is storage.
abbrev pub invalid_stored_value : {A : Type 0} → Result A → Result A
invalid_stored_value (ok a) = ok a
invalid_stored_value (err e) =
    if is_storage e.kind then err e else malformed "stored metadata value is invalid"

abbrev pub lift : {A : Type 0} → Result A → Reader A
lift (ok a) encoded = ok (a, encoded)
lift (err e) encoded = err e

abbrev pub drop : ℕ → Bytes → Bytes
drop zero encoded = encoded
drop (suc n) [] = []
drop (suc n) (b ∷ encoded) = drop n encoded

unfoldable pub read_exact : ℕ → Reader Bytes
read_exact n encoded =
    if ltb (length encoded) n
    then malformed "metadata encoding is truncated"
    else ok (take n encoded, drop n encoded)

-- `read_u8`, `read_u32` and `read_u64`.
unfoldable pub read_unsigned : ℕ → Reader ℕ
read_unsigned width = read_exact width >>= λ value. pure (number_of value)

-- `read_i64` and `read_i128`.
unfoldable pub read_signed : ℕ → ℕ → Reader ℤ
read_signed width bound = read_unsigned width >>= λ value. pure (signed_of bound value)

unfoldable pub read_bytes : ℕ → Reader Bytes
read_bytes maximum = read_unsigned 4 >>= λ count.
    if ltb maximum count
    then (λ encoded. malformed "metadata byte length exceeds limit")
    else read_exact count

unfoldable pub read_count : Reader ℕ
read_count = read_unsigned 4 >>= λ count.
    if ltb max_metadata_collection_items count
    then (λ encoded. malformed "metadata collection count exceeds limit")
    else pure count

pub data Tag : Type 0 where
  of_string of_language_string of_i64 of_u64 of_decimal of_bool of_timestamp of_uri of_bytes : Tag
  of_rational of_list of_struct of_reference : Tag

-- The tags, as the `match` on the byte has them.
unfoldable pub tag_of : ℕ → Option Tag
tag_of code =
    if code == 0
    then some of_string
    else if code == 1
    then some of_language_string
    else if code == 2
    then some of_i64
    else if code == 3
    then some of_u64
    else if code == 4
    then some of_decimal
    else if code == 5
    then some of_bool
    else if code == 6
    then some of_timestamp
    else if code == 7
    then some of_uri
    else if code == 8
    then some of_bytes
    else if code == 9
    then some of_rational
    else if code == 10
    then some of_list
    else if code == 11
    then some of_struct
    else if code == 12
    then some of_reference
    else none

unfoldable pub bool_of : ℕ → Result Bool
bool_of value =
    if value == 0
    then ok false
    else if value == 1
    then ok true
    else malformed "metadata boolean uses an invalid value"

unfoldable pub reference_of : ℕ → ℕ → Result ObjectRef
reference_of kind id =
    if kind == 0
    then ok (ObjectRef.production id)
    else if kind == 1
    then ok (ObjectRef.asset id)
    else if kind == 2
    then ok (ObjectRef.representation id)
    else if kind == 3
    then ok (ObjectRef.resource id)
    else if kind == 4
    then ok (ObjectRef.activity id)
    else if kind == 5
    then ok (ObjectRef.job id)
    else malformed "metadata reference uses unknown object kind"

unfoldable pub decode_reference : Reader ObjectRef
decode_reference = do kind ← read_unsigned 1; id ← read_unsigned 16; lift (reference_of kind id)

-- The loop over the children of a list.
unfoldable pub decode_values : Reader MetadataValue → ℕ → Reader Values
decode_values child zero = pure nil
decode_values child (suc n) = do v ← child; vs ← decode_values child n; pure (cons v vs)

module _ (tests : TextTests) where
  unfoldable pub read_string : ℕ → Reader Bytes
  read_string maximum = read_bytes maximum >>= λ text.
      if tests.is_utf8 text then pure text else (λ encoded. malformed "metadata text is not UTF-8")

  -- The loop over the fields of a structure.
  unfoldable pub decode_fields : Reader MetadataValue → ℕ → Reader Fields
  decode_fields child zero = pure end
  decode_fields child (suc n) = do
    text ← read_string max_property_id_bytes
    name ← lift (invalid_stored_value (New.property_id tests text))
    v ← child
    fs ← decode_fields child n
    pure (field name v fs)

  -- The arms of the `match`; a child is decoded one level deeper.
  unfoldable pub decode_tagged : Reader MetadataValue → Tag → Reader MetadataValue
  decode_tagged child of_string = do
    text ← read_string max_metadata_text_bytes
    lift (New.string text)
  decode_tagged child of_language_string = do
    text ← read_string max_metadata_text_bytes
    language ← read_string max_language_tag_bytes
    lift (New.language_string text language)
  decode_tagged child of_i64 = do z ← read_signed 8 i64_bound; pure (Value.i64 z)
  decode_tagged child of_u64 = do n ← read_unsigned 8; pure (Value.u64 n)
  decode_tagged child of_decimal = do
    coefficient ← read_signed 16 i128_bound
    scale ← read_unsigned 4
    d ← lift (invalid_stored_value (decimal_value coefficient scale))
    pure (Value.decimal d)
  decode_tagged child of_bool = do
    value ← read_unsigned 1
    b ← lift (bool_of value)
    pure (Value.bool b)
  decode_tagged child of_timestamp = do t ← read_signed 8 i64_bound; pure (Value.timestamp t)
  decode_tagged child of_uri = do
    text ← read_string max_metadata_uri_bytes
    lift (New.uri tests text)
  decode_tagged child of_bytes = do
    value ← read_bytes max_metadata_binary_bytes
    lift (New.bytes value)
  decode_tagged child of_rational = do
    numerator ← read_signed 8 i64_bound
    denominator ← read_unsigned 8
    r ← lift (invalid_stored_value (rational_value numerator denominator))
    pure (Value.rational r)
  decode_tagged child of_list = do
    count ← read_count
    values ← decode_values child count
    lift (New.list values)
  decode_tagged child of_struct = do
    count ← read_count
    fields ← decode_fields child count
    lift (New.structure fields)
  decode_tagged child of_reference = do r ← decode_reference; pure (Value.reference r)

  abbrev pub decode_arm : Reader MetadataValue → Option Tag → Reader MetadataValue
  decode_arm child none encoded = malformed "metadata encoding contains unknown value tag"
  decode_arm child (some tag) encoded = invalid_stored_value (decode_tagged child tag encoded)

  -- `decode_value` at the depth after which `levels` are left.
  unfoldable pub decode_value : ℕ → Reader MetadataValue
  decode_value zero encoded = malformed "metadata value nesting exceeds the limit"
  decode_value (suc levels) encoded =
      continue (read_unsigned 1 encoded) (λ code. decode_arm (decode_value levels) (tag_of code))

  abbrev pub finished : Result (MetadataValue × Bytes) → Result MetadataValue
  finished (ok (value, rest)) =
      if is_empty rest then ok value else malformed "metadata encoding contains trailing bytes"
  finished (err e) = err e

  -- The part of `decode` after the magic bytes and the version.
  unfoldable pub decode_header : Reader (Unit {0})
  decode_header = read_exact (length magic) >>= λ start.
      if not (eq_bytes start magic)
      then (λ encoded. malformed "metadata encoding magic is invalid")
      else (read_unsigned 1 >>= λ version.
          if not (version == format_version)
          then (λ encoded. malformed "metadata encoding version is unsupported")
          else pure tt)

  unfoldable pub decode : Bytes → Result MetadataValue
  decode encoded =
      if ltb max_encoded_bytes (length encoded)
      then malformed "encoded metadata exceeds the size limit"
      else finished (continue (decode_header encoded) (λ _. decode_value 32))
