-- ===== src/Storage/Snapshot/Tests.antt =====
-- Runs of the capture, and the theorems at concrete inputs.
use postproject.Base.{
  ℕ, ◌+◌, ◌≡◌, ◌⊎◌, refl, inl, inr, Bool, true, false, Option, none, some, List, [], ◌∷◌, arith, In,
  ok, Result, length,
}
use postproject.Base.Int.{ℤ, pos}
use postproject.Core.Bytes.{be_bytes}
use postproject.Core.Text.{Bytes}
use postproject.Core.Dependency.{
  Dependency, DependencySet, up_to_date, asset, representation, DependencyTarget,
}
use postproject.Storage.Dependencies.Rows.{PathRow, Production}
use postproject.Storage.Dependencies.Segments.{load_dependency_set}
use postproject.Storage.Dependencies.Evaluation.{find_representation}
use postproject.Storage.Snapshot.Persist.{
  CaptureContext, as_bytes, persist_path, persist_edges, persist_path_edge, stored_position,
  capture_rows,
}
use postproject.Storage.Snapshot.Capture.{
  capture, capture_from, capture_set, capture_each, capture_edge, capture_target, first_context,
}
use postproject.Storage.Snapshot.Steps.{count_issues}
use postproject.Storage.Snapshot.Knowledge.{Knows}
use postproject.Storage.Snapshot.Total.{HasBoundedSets}
use postproject.Storage.Snapshot.Complete.{
  Required, itself, along, IsCompletePath, capture-Required,
}

-- The kind `a:b`.
abbrev kind : Bytes
kind = 97 ∷ 58 ∷ 98 ∷ []

abbrev depends_on : DependencyTarget → Option ℕ → Bool → Dependency
depends_on target resolved required = record {
  source_resource_id = none;
  kind = kind;
  target = target;
  resolved_representation_id = resolved;
  required = required;
  authored_reference = [];
}

abbrev to_second : Dependency
to_second = depends_on (representation 2) none true

abbrev to_third : Dependency
to_third = depends_on (asset 7) (some 3) true

abbrev back : Dependency
back = depends_on (representation 1) none true

abbrev set_of : ℕ → List Dependency → DependencySet
set_of id ds = record {
  source_representation_id = id;
  recorded_at_revision = 1;
  status = up_to_date;
  dependencies = ds;
}

-- 1 requires 2 and may use 9, 2 requires 3 and, in a cycle, 1.
abbrev cycle : Production
cycle = record {
  activity_inputs = [];
  snapshot_markers = [];
  path_rows = [];
  edge_rows = [];
  fingerprint_rows = [];
  dependency_sets =
      set_of 1 (depends_on (representation 9) none false ∷ to_second ∷ [])
      ∷ set_of 2 (to_third ∷ back ∷ [])
      ∷ [];
  representations = [];
  recomputations = [];
}

abbrev next_rowid : List PathRow → ℤ
next_rowid rows = pos (length rows + 1)

abbrev row : ℤ → ℕ → ℕ → PathRow
row id position subject = record {
  id = id;
  activity_input_id = pos 4;
  position = pos position;
  status = pos 0;
  subject = as_bytes subject;
}

abbrev visited_of : Result CaptureContext → List ℕ
visited_of (ok c) = c.visited
visited_of _ = []

abbrev rows_in : Result CaptureContext → List PathRow
rows_in (ok c) = c.path_rows
rows_in _ = []

visited_run : visited_of (capture next_rowid cycle (pos 4) 1) ≡ 3 ∷ 2 ∷ 1 ∷ []
unfolding capture capture_from capture_set capture_each capture_edge capture_target persist_path
    persist_edges persist_path_edge stored_position load_dependency_set capture_rows
    find_representation
visited_run = refl

rows_run : rows_in (capture next_rowid cycle (pos 4) 1) ≡ row (pos 1) 0 2 ∷ row (pos 2) 1 3 ∷ []
unfolding capture capture_from capture_set capture_each capture_edge capture_target persist_path
    persist_edges persist_path_edge stored_position load_dependency_set capture_rows
    find_representation be_bytes
rows_run = refl

cycle-HasBoundedSets : HasBoundedSets cycle
unfolding load_dependency_set
cycle-HasBoundedSets id set e = ground arith

-- The context after a run that succeeds.
abbrev context_of : Result CaptureContext → CaptureContext
context_of (ok c) = c
context_of _ = first_context next_rowid cycle (pos 4) 1

abbrev captured : CaptureContext
captured = context_of (capture next_rowid cycle (pos 4) 1)

captured_run : capture next_rowid cycle (pos 4) 1 ≡ ok captured
unfolding capture capture_from capture_set capture_each capture_edge capture_target persist_path
    persist_edges persist_path_edge stored_position load_dependency_set capture_rows
    find_representation
captured_run = refl

no_issues : count_issues captured.path_rows ≡ count_issues cycle.path_rows
unfolding capture capture_from capture_set capture_each capture_edge capture_target persist_path
    persist_edges persist_path_edge stored_position load_dependency_set capture_rows
    find_representation count_issues
no_issues = refl

third-Required : Required cycle 1 3
unfolding load_dependency_set
third-Required =
    along {i = 2} (set_of 2 (to_third ∷ back ∷ [])) to_third 3
      (along {i = 1} (set_of 1 (depends_on (representation 9) none false ∷ to_second ∷ []))
        to_second 2 itself refl (inr (inl refl)) refl refl)
      refl (inl refl) refl refl

capture-Required_example :
    Knows cycle 3 captured
    × ((◌≡◌ {A = ℕ} 3 1)
        ⊎ ((row : PathRow) × In row captured.path_rows × IsCompletePath (pos 4) 3 row))
capture-Required_example =
    capture-Required next_rowid cycle (pos 4) cycle-HasBoundedSets 1 captured captured_run no_issues
      3 third-Required
