-- ===== src/Core/Metadata/Value.antt =====
-- The values of crates/postproject-core/src/metadata.rs, and `ObjectRef` of
-- crates/postproject-core/src/id.rs. The fields `depth` and `payload_bytes` of a value are functions
-- of it, as its constructors set them.
use postproject.Base.{ℕ, suc, ◌+◌, Bool, ltb, if◌then◌else◌, length}
use postproject.Base.Int.{ℤ}
use postproject.Core.Text.{Bytes}
use postproject.Core.Metadata.Numbers.{DecimalValue, RationalValue}

pub data ObjectRef : Type 0 where
  production asset representation resource activity job : ℕ → ObjectRef

mutual
  pub data MetadataValue : Type 0 where
    string : Bytes → MetadataValue
    lang_string : Bytes → Bytes → MetadataValue
    i64 : ℤ → MetadataValue
    u64 : ℕ → MetadataValue
    decimal : DecimalValue → MetadataValue
    bool : Bool → MetadataValue
    timestamp : ℤ → MetadataValue
    uri : Bytes → MetadataValue
    bytes : Bytes → MetadataValue
    rational : RationalValue → MetadataValue
    list : Values → MetadataValue
    struct : Fields → MetadataValue
    reference : ObjectRef → MetadataValue

  pub data Values : Type 0 where
    nil : Values
    cons : MetadataValue → Values → Values

  pub data Fields : Type 0 where
    end : Fields
    field : Bytes → MetadataValue → Fields → Fields

abbrev pub count_values : Values → ℕ
count_values nil = 0
count_values (cons v vs) = suc (count_values vs)

abbrev pub count_fields : Fields → ℕ
count_fields end = 0
count_fields (field name v fs) = suc (count_fields fs)

abbrev pub max : ℕ → ℕ → ℕ
max a b = if ltb a b then b else a

unfoldable mutual
  pub nesting_depth : MetadataValue → ℕ
  nesting_depth (list vs) = suc (depth_of_values vs)
  nesting_depth (struct fs) = suc (depth_of_fields fs)
  nesting_depth _ = 1

  -- The largest depth of the children, 0 where there is none.
  pub depth_of_values : Values → ℕ
  depth_of_values nil = 0
  depth_of_values (cons v vs) = max (nesting_depth v) (depth_of_values vs)

  pub depth_of_fields : Fields → ℕ
  depth_of_fields end = 0
  depth_of_fields (field name v fs) = max (nesting_depth v) (depth_of_fields fs)

unfoldable mutual
  pub payload_bytes : MetadataValue → ℕ
  payload_bytes (string t) = length t
  payload_bytes (lang_string t language) = length t + length language
  payload_bytes (i64 z) = 8
  payload_bytes (u64 n) = 8
  payload_bytes (decimal d) = 20
  payload_bytes (bool b) = 1
  payload_bytes (timestamp t) = 8
  payload_bytes (uri t) = length t
  payload_bytes (bytes t) = length t
  payload_bytes (rational r) = 16
  payload_bytes (list vs) = payload_of_values vs
  payload_bytes (struct fs) = payload_of_fields fs
  payload_bytes (reference r) = 17

  pub payload_of_values : Values → ℕ
  payload_of_values nil = 0
  payload_of_values (cons v vs) = payload_bytes v + payload_of_values vs

  pub payload_of_fields : Fields → ℕ
  payload_of_fields end = 0
  payload_of_fields (field name v fs) = length name + (payload_bytes v + payload_of_fields fs)
