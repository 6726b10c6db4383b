-- ===== src/Storage/Metadata/Encode.antt =====
-- `encode` of crates/postproject-storage-sqlite/src/metadata_codec.rs. A writer is the bytes that it
-- has; each step takes them and returns them with its own behind.
use postproject.Base.{
  ℕ, ◌+◌, ◌*◌, ◌^◌, Bool, true, false, not, [], ◌∷◌, ◌++◌, Result, ok, storage, invalid_argument,
  if◌then◌else◌, ltb, length, ◌>>=◌, fail,
}
use postproject.Base.Machine.{i64_bound, i128_bound}
use postproject.Core.Text.{Bytes}
use postproject.Core.Bytes.{be_bytes, unsigned_of}
use postproject.Core.Metadata.Value.{
  ObjectRef, production, asset, representation, resource, activity, job, MetadataValue, Values,
  Fields, string, lang_string, i64, u64, decimal, bool, timestamp, uri, bytes, rational, list,
  struct, reference, nil, cons, end, field, count_values, count_fields,
}

abbrev pub magic : Bytes
magic = 80 ∷ 80 ∷ 77 ∷ 86 ∷ []

abbrev pub format_version : ℕ
format_version = 1

abbrev pub max_encoded_bytes : ℕ
max_encoded_bytes = 16 * 1024 * 1024

abbrev pub Writer : Type 0
Writer = Bytes

-- `Writer::write`.
unfoldable pub write : Bytes → Writer → Result Writer
write value writer =
    if not (ltb (length writer + length value) (2 ^ 64))
    then fail storage "encoded metadata size overflow"
    else if ltb max_encoded_bytes (length writer + length value)
    then fail invalid_argument "encoded metadata exceeds the size limit"
    else ok (writer ++ value)

abbrev pub write_u8 : ℕ → Writer → Result Writer
write_u8 value = write (value ∷ [])

unfoldable pub write_len : ℕ → Writer → Result Writer
write_len value writer =
    if ltb value (2 ^ 32)
    then write (be_bytes 4 value) writer
    else fail invalid_argument "metadata collection length cannot be encoded"

-- `write_length_prefixed`, and `write_string` on the bytes of the text.
unfoldable pub write_length_prefixed : Bytes → Writer → Result Writer
write_length_prefixed value writer = write_len (length value) writer >>= write value

abbrev pub from_bool : Bool → ℕ
from_bool true = 1
from_bool false = 0

abbrev pub object_kind : ObjectRef → ℕ
object_kind (production id) = 0
object_kind (asset id) = 1
object_kind (representation id) = 2
object_kind (resource id) = 3
object_kind (activity id) = 4
object_kind (job id) = 5

abbrev pub object_id : ObjectRef → ℕ
object_id (production id) = id
object_id (asset id) = id
object_id (representation id) = id
object_id (resource id) = id
object_id (activity id) = id
object_id (job id) = id

unfoldable pub encode_reference : ObjectRef → Writer → Result Writer
encode_reference r writer = write_u8 (object_kind r) writer >>= write (be_bytes 16 (object_id r))

unfoldable mutual
  pub encode_value : MetadataValue → Writer → Result Writer
  encode_value (string t) writer = write_u8 0 writer >>= write_length_prefixed t
  encode_value (lang_string t language) writer =
      write_u8 1 writer >>= λ w. write_length_prefixed t w >>= write_length_prefixed language
  encode_value (i64 z) writer = write_u8 2 writer >>= write (be_bytes 8 (unsigned_of i64_bound z))
  encode_value (u64 n) writer = write_u8 3 writer >>= write (be_bytes 8 n)
  encode_value (decimal d) writer = write_u8 4 writer >>= λ w.
      write (be_bytes 16 (unsigned_of i128_bound d.coefficient)) w >>= write (be_bytes 4 d.scale)
  encode_value (bool b) writer = write_u8 5 writer >>= write_u8 (from_bool b)
  encode_value (timestamp t) writer =
      write_u8 6 writer >>= write (be_bytes 8 (unsigned_of i64_bound t))
  encode_value (uri t) writer = write_u8 7 writer >>= write_length_prefixed t
  encode_value (bytes t) writer = write_u8 8 writer >>= write_length_prefixed t
  encode_value (rational r) writer = write_u8 9 writer >>= λ w.
      write (be_bytes 8 (unsigned_of i64_bound r.numerator)) w >>= write (be_bytes 8 r.denominator)
  encode_value (list vs) writer =
      write_u8 10 writer >>= λ w. write_len (count_values vs) w >>= encode_values vs
  encode_value (struct fs) writer =
      write_u8 11 writer >>= λ w. write_len (count_fields fs) w >>= encode_fields fs
  encode_value (reference r) writer = write_u8 12 writer >>= encode_reference r

  -- The loops over the children.
  pub encode_values : Values → Writer → Result Writer
  encode_values nil writer = ok writer
  encode_values (cons v vs) writer = encode_value v writer >>= encode_values vs

  pub encode_fields : Fields → Writer → Result Writer
  encode_fields end writer = ok writer
  encode_fields (field name v fs) writer =
      write_length_prefixed name writer >>= λ w. encode_value v w >>= encode_fields fs

unfoldable pub encode : MetadataValue → Result Bytes
encode value = write magic [] >>= λ w. write_u8 format_version w >>= encode_value value
