-- ===== src/Storage/Cursors/Position.antt =====
-- The tokens of crates/postproject-storage-sqlite/src/query_cursor.rs and the positions that they
-- name. The texts of identities are those of a third-party UUID: functions of the model. The
-- signature of a query, a third-party hash, is the text that it is.
use postproject.Base.{
  all, ℕ, zero, suc, ◌+◌, Bool, true, false, not, ◌&&◌, ◌||◌, Option, none, some, List, [], ◌∷◌,
  ◌++◌, Result, ok, invalid_argument, if◌then◌else◌, ltb, ◌==◌, length, is_empty, ◌>>=◌, fail,
}
use postproject.Core.Text.{Bytes, eq_bytes, has_nul, is_identifier_byte, is_namespaced}
use postproject.Core.Content.Pattern.{decimal_of}
use postproject.Core.Dependency.{DependencyTarget, asset, representation}
use postproject.Storage.Jobs.Row.{JobStateKind, requested, claimed, succeeded, failed, cancelled}
use postproject.Storage.Cursors.Fields.{split, join}

abbrev pub max_query_cursor_bytes : ℕ
max_query_cursor_bytes = 2048

-- `QueryCursor::new`; a cursor is its token.
unfoldable pub query_cursor : Bytes → Result Bytes
query_cursor token =
    if is_empty token || (ltb max_query_cursor_bytes (length token) || has_nul token)
    then fail invalid_argument "query cursor must contain 1-2048 UTF-8 bytes without NUL"
    else ok token

-- `ppq1`.
abbrev pub cursor_version : Bytes
cursor_version = 112 ∷ 112 ∷ 113 ∷ 49 ∷ []

abbrev pub invalid_cursor : {A : Type 0} → Result A
invalid_cursor = fail invalid_argument "query cursor does not match this query and its parameters"

abbrev pub drop : ℕ → List Bytes → List Bytes
drop zero fields = fields
drop (suc n) [] = []
drop (suc n) (field ∷ fields) = drop n fields

-- The fields start with those expected.
unfoldable pub starts_with : List Bytes → List Bytes → Bool
starts_with [] fields = true
starts_with (e ∷ expected) [] = false
starts_with (e ∷ expected) (field ∷ fields) = eq_bytes field e && starts_with expected fields

-- The test of the number of the fields and of those before the keys, and the keys.
unfoldable pub keys_after : List Bytes → ℕ → Bytes → Result (List Bytes)
keys_after expected keys token =
    if not (length (split token) == length expected + keys)
      || not (starts_with expected (split token))
    then invalid_cursor
    else ok (drop (length expected) (split token))

-- `position_fields`.
unfoldable pub position_fields : Option Bytes → Bytes → Bytes → ℕ → Result (Option (List Bytes))
position_fields none query query_signature key_fields = ok none
position_fields (some token) query query_signature key_fields =
    keys_after (cursor_version ∷ query ∷ query_signature ∷ []) key_fields token >>= λ keys.
    ok (some keys)

unfoldable pub cursor : Bytes → Bytes → List Bytes → Result Bytes
cursor query query_signature key_fields =
    query_cursor (join (cursor_version ∷ query ∷ query_signature ∷ join key_fields ∷ []))

-- `to_string` of an unsigned integer.
abbrev pub to_string : ℕ → Bytes
to_string n = decimal_of n n

abbrev pub job_state_code : JobStateKind → ℕ
job_state_code requested = 1
job_state_code claimed = 2
job_state_code succeeded = 3
job_state_code failed = 4
job_state_code cancelled = 5

abbrev pub max_job_kind_bytes : ℕ
max_job_kind_bytes = 128

-- `JobKind::new`; a kind is its text.
unfoldable pub job_kind : Bytes → Result Bytes
job_kind value =
    if ltb max_job_kind_bytes (length value)
      || (not (all is_identifier_byte value) || not (is_namespaced value))
    then fail invalid_argument "job kind must be a namespaced identifier"
    else ok value

pub record JobQuery : Type 0 where
  pub state : Option JobStateKind
  pub kind : Option Bytes

abbrev pub state_code : Option JobStateKind → ℕ
state_code none = 0
state_code (some state) = job_state_code state

abbrev pub kind_text : Option Bytes → Bytes
kind_text none = 42 ∷ []
kind_text (some kind) = kind

pub record DependencyQueryLimits : Type 0 where
  pub max_depth : ℕ
  pub max_representations : ℕ

-- The fields before the keys: `jobs`, `dependencies`, `dependents`.
abbrev pub job_fields : JobQuery → List Bytes
job_fields query =
    cursor_version
    ∷ (106 ∷ 111 ∷ 98 ∷ 115 ∷ [])
    ∷ to_string (state_code query.state)
    ∷ kind_text query.kind
    ∷ []

module _ (display : ℕ → Bytes) (parse : Bytes → Option ℕ) where
  abbrev pub canonical_id : Bytes → Option ℕ → Result ℕ
  canonical_id value none = invalid_cursor
  canonical_id value (some id) = if not (eq_bytes (display id) value) then invalid_cursor else ok id

  unfoldable pub parse_id : Bytes → Result ℕ
  parse_id value = canonical_id value (parse value)

  abbrev pub one_id : List Bytes → Result (Option ℕ)
  one_id (field ∷ []) = parse_id field >>= λ id. ok (some id)
  one_id _ = invalid_cursor

  unfoldable pub id_position : Option Bytes → Bytes → Bytes → Result (Option ℕ)
  id_position none query query_signature = ok none
  id_position (some token) query query_signature =
      keys_after (cursor_version ∷ query ∷ query_signature ∷ []) 1 token >>= one_id

  unfoldable pub job_position : Option Bytes → JobQuery → Result (Option ℕ)
  job_position none query = ok none
  job_position (some token) query = keys_after (job_fields query) 1 token >>= one_id

  unfoldable pub job_cursor : JobQuery → ℕ → Result Bytes
  job_cursor query id = query_cursor (join (job_fields query ++ display id ∷ []))

  abbrev pub target_parts : DependencyTarget → ℕ × Bytes
  target_parts (asset id) = (1, display id)
  target_parts (representation id) = (2, display id)

  abbrev pub dependency_fields : ℕ → DependencyQueryLimits → List Bytes
  dependency_fields source limits =
      cursor_version
      ∷ (100 ∷ 101 ∷ 112 ∷ 101 ∷ 110 ∷ 100 ∷ 101 ∷ 110 ∷ 99 ∷ 105 ∷ 101 ∷ 115 ∷ [])
      ∷ display source
      ∷ to_string limits.max_depth
      ∷ to_string limits.max_representations
      ∷ []

  unfoldable pub parse_target_kind : Bytes → Result ℕ
  parse_target_kind value =
      if eq_bytes value (49 ∷ [])
      then ok 1
      else if eq_bytes value (50 ∷ [])
      then ok 2
      else invalid_cursor

  abbrev pub kind_and_id : List Bytes → Result (Option (ℕ × ℕ))
  kind_and_id (kind ∷ id ∷ []) =
      parse_target_kind kind >>= λ kind. parse_id id >>= λ id. ok (some (kind, id))
  kind_and_id _ = invalid_cursor

  unfoldable pub dependency_position :
      Option Bytes → ℕ → DependencyQueryLimits → Result (Option (ℕ × ℕ))
  dependency_position none source limits = ok none
  dependency_position (some token) source limits =
      keys_after (dependency_fields source limits) 2 token >>= kind_and_id

  unfoldable pub dependency_cursor : ℕ → DependencyQueryLimits → ℕ × ℕ → Result Bytes
  dependency_cursor source limits (kind, id) =
      query_cursor (join (dependency_fields source limits ++ to_string kind ∷ display id ∷ []))

  abbrev pub dependent_fields : DependencyTarget → DependencyQueryLimits → List Bytes
  dependent_fields target limits =
      cursor_version
      ∷ (100 ∷ 101 ∷ 112 ∷ 101 ∷ 110 ∷ 100 ∷ 101 ∷ 110 ∷ 116 ∷ 115 ∷ [])
      ∷ to_string ((target_parts target).0)
      ∷ (target_parts target).1
      ∷ to_string limits.max_depth
      ∷ to_string limits.max_representations
      ∷ []

  unfoldable pub dependent_position :
      Option Bytes → DependencyTarget → DependencyQueryLimits → Result (Option ℕ)
  dependent_position none target limits = ok none
  dependent_position (some token) target limits =
      keys_after (dependent_fields target limits) 1 token >>= one_id

  unfoldable pub dependent_cursor : DependencyTarget → DependencyQueryLimits → ℕ → Result Bytes
  dependent_cursor target limits id =
      query_cursor (join (dependent_fields target limits ++ display id ∷ []))
