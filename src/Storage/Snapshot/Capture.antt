-- ===== src/Storage/Snapshot/Capture.antt =====
-- The traversal of crates/postproject-storage-sqlite/src/dependency_snapshot.rs. Its recursion is on
-- fuel: a call for a path of n edges needs at most 65 - n, since the depth is limited to 64.
use postproject.Base.{
  ℕ, zero, suc, ◌+◌, Bool, true, false, ◌&&◌, Option, none, some, List, [], ◌∷◌, ◌++◌, Result, ok,
  storage, internal, if◌then◌else◌, ◌==◌, length, any, ◌>>=◌, fail,
}
use postproject.Base.Int.{ℤ}
use postproject.Base.Sorting.{eq_ℤ}
use postproject.Core.Dependency.{Dependency, DependencyTarget, asset, representation, DependencySet}
use postproject.Storage.Dependencies.Rows.{PathRow, Production}
use postproject.Storage.Dependencies.Segments.{load_dependency_set, waits}
use postproject.Storage.Snapshot.Persist.{
  PathEdge, CaptureContext, persist_path, max_dependency_depth, max_dependency_representations,
}

-- The representation that a dependency names or was resolved to.
abbrev pub resolved_target : DependencyTarget → Option ℕ → Option ℕ
resolved_target (representation id) resolved = some id
resolved_target (asset id) resolved = resolved

abbrev pub target_of : Dependency → Option ℕ
target_of d = resolved_target d.target d.resolved_representation_id

abbrev pub set_waits : Option DependencySet → Bool
set_waits none = false
set_waits (some set) = waits set.status

abbrev pub has_required : Option DependencySet → Bool
has_required none = false
has_required (some set) = any (λ d. d.required) set.dependencies

-- A call for a representation and the path to it.
abbrev pub Visit : Type 0
Visit = ℕ → List PathEdge → CaptureContext → Result CaptureContext

abbrev pub contains : ℕ → List ℕ → Bool
contains id ids = any (λ i. i == id) ids

abbrev pub mark : ℕ → CaptureContext → CaptureContext
mark target c = record c { visited = target ∷ c.visited; dependency_count = c.dependency_count + 1 }

module _ (next_rowid : List PathRow → ℤ) (production : Production) (activity_input_id : ℤ) where
  abbrev pub persist : ℕ → ℕ → List PathEdge → Bool → CaptureContext → Result CaptureContext
  persist = persist_path next_rowid production activity_input_id

  -- The body of the loop once the target is marked as visited.
  unfoldable pub capture_target : Visit → ℕ → List PathEdge → CaptureContext → Result CaptureContext
  capture_target visit target path c =
      let target_set = load_dependency_set production target in
      if set_waits target_set
      then persist 1 target path false c
      else if (length path == max_dependency_depth) && has_required target_set
      then persist 3 target path false c
      else (persist 0 target path true c >>= visit target path)

  unfoldable pub capture_edge :
      Visit → ℕ → List PathEdge → Option ℕ → CaptureContext → Result CaptureContext
  capture_edge visit source path none c = persist 2 source path false c
  capture_edge visit source path (some target) c =
      if contains target c.visited
      then ok c
      else if c.dependency_count == max_dependency_representations
      then persist 4 target path false c
      else capture_target visit target path (mark target c)

  -- The loop over the dependencies, of which those that are not required are left out.
  unfoldable pub capture_each :
      Visit → ℕ → List PathEdge → ℕ → List Dependency → CaptureContext → Result CaptureContext
  capture_each visit source path position [] c = ok c
  capture_each visit source path position (d ∷ ds) c =
      (if d.required
        then capture_edge visit source
            (path
              ++ record {
                source_representation_id = source;
                dependency_position = position;
                dependency = d;
              }
                ∷ [])
            (target_of d) c
        else ok c)
      >>= capture_each visit source path (position + 1) ds

  unfoldable pub capture_set :
      Visit → ℕ → List PathEdge → Option DependencySet → CaptureContext → Result CaptureContext
  capture_set visit source path none c = ok c
  capture_set visit source path (some set) c =
      if waits set.status
      then persist 1 source path false c
      else capture_each visit source path 0 set.dependencies c

  unfoldable pub capture_from : ℕ → Visit
  capture_from zero source path c = fail internal "out of fuel"
  capture_from (suc fuel) source path c =
      capture_set (capture_from fuel) source path (load_dependency_set production source) c

  abbrev pub first_context : ℕ → CaptureContext
  first_context input_representation_id = record {
    path_rows = production.path_rows;
    edge_rows = production.edge_rows;
    fingerprint_rows = production.fingerprint_rows;
    next_path_position = 0;
    visited = input_representation_id ∷ [];
    dependency_count = 0;
  }

  -- The capture after the marker has been written.
  unfoldable pub capture : ℕ → Result CaptureContext
  capture input_representation_id =
      capture_from 65 input_representation_id [] (first_context input_representation_id)

  abbrev pub with_tables : CaptureContext → Production
  with_tables c = record production {
    snapshot_markers = production.snapshot_markers ++ activity_input_id ∷ [];
    path_rows = c.path_rows;
    edge_rows = c.edge_rows;
    fingerprint_rows = c.fingerprint_rows;
  }

  -- The marker is a primary key.
  unfoldable pub persist_dependency_snapshot : ℕ → Result Production
  persist_dependency_snapshot input_representation_id =
      if any (λ marker. eq_ℤ marker activity_input_id) production.snapshot_markers
      then fail storage "persist dependency snapshot marker"
      else (capture input_representation_id >>= λ c. ok (with_tables c))
