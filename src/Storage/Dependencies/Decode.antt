-- ===== src/Storage/Dependencies/Decode.antt =====
-- The loads of crates/postproject-storage-sqlite/src/dependency_evaluation.rs, and `id_bytes` of
-- crates/postproject-storage-sqlite/src/lib.rs.
use Prim.Native.String.{String}
use postproject.Base.{
  ℕ, ◌+◌, ◌^◌, Bool, false, not, ◌&&◌, Option, none, some, List, [], ◌∷◌, Result, ok, err, storage,
  if◌then◌else◌, ltb, ◌==◌, length, ◌>>=◌, fail,
}
use postproject.Base.Int.{ℤ, pos, negsuc}
use postproject.Base.Sorting.{sort, leb_ℤ, eq_ℤ}
use postproject.Core.Bytes.{number_of}
use postproject.Core.Text.{Bytes, eq_bytes, leb_bytes}
use postproject.Core.Dependency.{DependencyTarget, asset, representation, dependency_kind}
use postproject.Storage.Dependencies.Rows.{
  ArtifactDependencyPathSegment, CapturedPath, Domain, Fingerprints, PathRow, EdgeRow,
  FingerprintRow, Production,
}

abbrev pub stored_invariant : {A : Type 0} → String → Result A
stored_invariant message = fail storage message

-- `id_bytes`, and `from_bytes` on what it returns.
unfoldable pub id_bytes : Bytes → Result ℕ
id_bytes value =
    if length value == 16
    then ok (number_of value)
    else stored_invariant "stored ID does not have 16 bytes"

-- `.map(…).transpose()?`.
abbrev pub optional_id : Option Bytes → Result (Option ℕ)
optional_id none = ok none
optional_id (some value) = id_bytes value >>= λ id. ok (some id)

-- `usize::try_from(position).ok() != Some(expected_position)`.
abbrev pub is_position : ℕ → ℤ → Bool
is_position expected (pos n) = n == expected
is_position expected (negsuc n) = false

-- `try_from` of an `i64` into an unsigned integer with that many values.
abbrev pub unsigned_below : ℕ → ℤ → String → Result ℕ
unsigned_below bound (pos n) message = if ltb n bound then ok n else stored_invariant message
unsigned_below bound (negsuc n) message = stored_invariant message

-- `map_err(stored_domain_error(context))`.
abbrev pub in_storage : {A : Type 0} → Result A → Result A
in_storage (ok a) = ok a
in_storage (err e) = stored_invariant "stored value is invalid"

abbrev pub target_of : ℤ → ℕ → Result DependencyTarget
target_of target_kind id =
    if eq_ℤ target_kind (pos 1)
    then ok (asset id)
    else if eq_ℤ target_kind (pos 2)
    then ok (representation id)
    else stored_invariant "dependency path target kind is invalid"

unfoldable pub decode_segment : ℕ → EdgeRow → Result ArtifactDependencyPathSegment
decode_segment expected_position row =
    if not (is_position expected_position row.position)
    then stored_invariant "dependency snapshot edge positions are not contiguous"
    else (id_bytes row.source >>= λ source.
        unsigned_below (2 ^ 32) row.dependency_position "dependency path source position is invalid"
        >>= λ dependency_position. optional_id row.resource >>= λ resource.
            in_storage (dependency_kind row.kind) >>= λ kind. id_bytes row.target >>= λ target_id.
            target_of row.target_kind target_id >>= λ target.
            optional_id row.resolved >>= λ resolved. ok (record {
              source_representation_id = source;
              dependency_position = dependency_position;
              source_resource_id = resource;
              kind = kind;
              target = target;
              resolved_representation_id = resolved;
              authored_reference = row.authored;
            }))

-- `rows.enumerate().map(…).collect()`: the first error ends it.
unfoldable pub decode_each : {A B : Type 0} → (ℕ → A → Result B) → ℕ → List A → Result (List B)
decode_each f position [] = ok []
decode_each f position (a ∷ rows) =
    f position a >>= λ b. decode_each f (position + 1) rows >>= λ bs. ok (b ∷ bs)

-- `WHERE`.
unfoldable pub select : {A : Type 0} → (A → Bool) → List A → List A
select p [] = []
select p (a ∷ rows) = let rest = select p rows in if p a then a ∷ rest else rest

unfoldable pub load_segments : Production → ℤ → Result (List ArtifactDependencyPathSegment)
load_segments production path_id = decode_each decode_segment 0 (
    sort (λ a b. leb_ℤ a.position b.position)
      (select (λ row. eq_ℤ row.path_id path_id) production.edge_rows))

unfoldable pub eq_domain : Domain → Domain → Bool
eq_domain (a, v) (b, w) = eq_bytes a b && v == w

unfoldable pub leb_domain : Domain → Domain → Bool
leb_domain (a, v) (b, w) = if eq_bytes a b then not (ltb w v) else leb_bytes a b

-- `insert` of a map or a set of domains: an equal key gets the new value.
unfoldable pub insert_entry : Domain → Bytes → Fingerprints → Fingerprints
insert_entry k v [] = (k, v) ∷ []
insert_entry k v ((l, w) ∷ m) =
    let rest = insert_entry k v m in
    if eq_domain k l
    then (k, v) ∷ m
    else if leb_domain k l
    then (k, v) ∷ (l, w) ∷ m
    else (l, w) ∷ rest

-- `collect` into the map, in the order of the entries.
unfoldable pub collect_map : Fingerprints → List (Domain × Bytes) → Fingerprints
collect_map m [] = m
collect_map m ((k, v) ∷ entries) = collect_map (insert_entry k v m) entries

unfoldable pub decode_fingerprint : ℕ → FingerprintRow → Result (Domain × Bytes)
decode_fingerprint position row =
    unsigned_below (2 ^ 16) row.version "dependency fingerprint version is invalid" >>= λ version.
    ok ((row.algorithm, version), row.value)

-- The map does not depend on the order of the rows, whose keys are different.
unfoldable pub load_fingerprints : Production → ℤ → Result Fingerprints
load_fingerprints production path_id =
    decode_each decode_fingerprint 0
      (select (λ row. eq_ℤ row.path_id path_id) production.fingerprint_rows)
    >>= λ entries. ok (collect_map [] entries)

unfoldable pub decode_path : Production → ℕ → PathRow → Result CapturedPath
decode_path production expected_position row =
    if not (is_position expected_position row.position)
    then stored_invariant "dependency snapshot path positions are not contiguous"
    else (id_bytes row.subject >>= λ subject. load_segments production row.id >>= λ segments.
        load_fingerprints production row.id >>= λ fingerprints. ok (record {
          status = row.status;
          subject_representation_id = subject;
          segments = segments;
          fingerprints = fingerprints;
        }))

unfoldable pub load_paths : Production → ℤ → Result (List CapturedPath)
load_paths production input_id = decode_each (decode_path production) 0 (
    sort (λ a b. leb_ℤ a.position b.position)
      (select (λ row. eq_ℤ row.activity_input_id input_id) production.path_rows))
