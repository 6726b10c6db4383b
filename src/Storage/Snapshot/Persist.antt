-- ===== src/Storage/Snapshot/Persist.antt =====
-- What the capture of crates/postproject-storage-sqlite/src/dependency_snapshot.rs keeps, and how it
-- writes a path. The tables after an error are left out. The key of a new path row is that of
-- SQLite, a function of the rows; the other keys start with it or with the new marker, so that no
-- row has them yet.
use postproject.Base.{
  ℕ, ◌+◌, ◌^◌, Bool, Option, none, some, List, [], ◌∷◌, ◌++◌, map, Result, ok, unsupported,
  if◌then◌else◌, ltb, ◌>>=◌, fail,
}
use postproject.Base.Int.{ℤ, pos}
use postproject.Core.Text.{Bytes}
use postproject.Core.Bytes.{be_bytes}
use postproject.Core.Dependency.{Dependency, DependencyTarget, asset, representation}
use postproject.Storage.Dependencies.Rows.{PathRow, EdgeRow, FingerprintRow, Production, Domain}
use postproject.Storage.Dependencies.Evaluation.{find_representation}

abbrev pub max_dependency_depth : ℕ
max_dependency_depth = 64

abbrev pub max_dependency_representations : ℕ
max_dependency_representations = 1000

pub record PathEdge : Type 0 where
  pub source_representation_id : ℕ
  pub dependency_position : ℕ
  pub dependency : Dependency

-- The fields that change, and the tables that the capture writes.
pub record CaptureContext : Type 0 where
  pub path_rows : List PathRow
  pub edge_rows : List EdgeRow
  pub fingerprint_rows : List FingerprintRow
  pub next_path_position : ℕ
  pub visited : List ℕ
  pub dependency_count : ℕ

abbrev pub as_bytes : ℕ → Bytes
as_bytes id = be_bytes 16 id

-- `i64::try_from` of a `usize`.
unfoldable pub stored_position : ℕ → Result ℤ
stored_position n =
    if ltb n (2 ^ 63) then ok (pos n) else fail unsupported "position cannot be stored"

abbrev pub optional_bytes : Option ℕ → Option Bytes
optional_bytes none = none
optional_bytes (some id) = some (as_bytes id)

abbrev pub kind_code : DependencyTarget → ℤ
kind_code (asset id) = pos 1
kind_code (representation id) = pos 2

abbrev pub target_id : DependencyTarget → ℕ
target_id (asset id) = id
target_id (representation id) = id

unfoldable pub persist_path_edge : ℤ → ℕ → PathEdge → List EdgeRow → Result (List EdgeRow)
persist_path_edge path_id position edge rows = stored_position position >>= λ position.
    stored_position edge.dependency_position >>= λ dependency_position. ok (
      rows
      ++ record {
        path_id = path_id;
        position = position;
        source = as_bytes edge.source_representation_id;
        dependency_position = dependency_position;
        resource = optional_bytes edge.dependency.source_resource_id;
        kind = edge.dependency.kind;
        target_kind = kind_code edge.dependency.target;
        target = as_bytes (target_id edge.dependency.target);
        resolved = optional_bytes edge.dependency.resolved_representation_id;
        authored = edge.dependency.authored_reference;
      }
        ∷ [])

-- The loop over the edges, with their positions.
unfoldable pub persist_edges : ℤ → ℕ → List PathEdge → List EdgeRow → Result (List EdgeRow)
persist_edges path_id position [] rows = ok rows
persist_edges path_id position (edge ∷ path) rows =
    persist_path_edge path_id position edge rows >>= persist_edges path_id (position + 1) path

-- `INSERT … SELECT` of the fingerprints of a representation.
abbrev pub fingerprint_row : ℤ → Domain × Bytes → FingerprintRow
fingerprint_row path_id ((algorithm, version), value) = record {
  path_id = path_id;
  algorithm = algorithm;
  version = pos version;
  value = value;
}

abbrev pub rows_of : ℤ → Option (List (Domain × Bytes)) → List FingerprintRow
rows_of path_id none = []
rows_of path_id (some entries) = map (fingerprint_row path_id) entries

unfoldable pub capture_rows : Production → ℤ → ℕ → Bool → List FingerprintRow
capture_rows production path_id subject capture_fingerprints =
    if capture_fingerprints
    then rows_of path_id (find_representation subject production.representations)
    else []

module _ (next_rowid : List PathRow → ℤ) (production : Production) (activity_input_id : ℤ) where
  unfoldable pub persist_path :
      ℕ → ℕ → List PathEdge → Bool → CaptureContext → Result CaptureContext
  persist_path status subject path capture_fingerprints c =
      let path_id = next_rowid c.path_rows in
      persist_edges path_id 0 path c.edge_rows >>= λ edges. ok (record c {
        path_rows =
            c.path_rows
            ++ record {
              id = path_id;
              activity_input_id = activity_input_id;
              position = pos c.next_path_position;
              status = pos status;
              subject = as_bytes subject;
            }
              ∷ [];
        edge_rows = edges;
        fingerprint_rows =
            c.fingerprint_rows ++ capture_rows production path_id subject capture_fingerprints;
        next_path_position = c.next_path_position + 1;
      })
