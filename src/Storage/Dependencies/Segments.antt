-- ===== src/Storage/Dependencies/Segments.antt =====
-- The states and reasons of an evaluation, and its loop over the segments of a captured path
-- (crates/postproject-storage-sqlite/src/dependency_evaluation.rs).
use postproject.Base.{
  ℕ, ◌+◌, Bool, true, false, not, ◌&&◌, Option, none, some, List, [], ◌∷◌, ◌++◌, Result, ok,
  if◌then◌else◌, ltb, ◌==◌, find?, take, get_elem?,
}
use postproject.Base.Int.{ℤ, pos}
use postproject.Base.Sorting.{eq_ℤ}
use postproject.Core.Text.{eq_bytes}
use postproject.Core.Dependency.{
  Dependency, DependencySet, DependencySetStatus, eq_target, eq_option,
}
use postproject.Storage.Dependencies.Rows.{
  ArtifactDependencyPathSegment, ArtifactDependencyIssue, unresolved, depth_truncated,
  representations_truncated, ArtifactKnowledgeState, current, stale, indeterminate, diverged,
  Context, ArtifactKnowledgeReason, CapturedPath, DependencyEvaluation, Production,
  dependency_knowledge_incomplete, dependency_path_changed,
}
use postproject.Storage.Dependencies.Decode.{stored_invariant}

abbrev pub priority : ArtifactKnowledgeState → ℕ
priority current = 0
priority stale = 2
priority diverged = 3
priority indeterminate = 1

unfoldable pub promote_state :
    ArtifactKnowledgeState → ArtifactKnowledgeState → ArtifactKnowledgeState
promote_state now candidate = if ltb (priority now) (priority candidate) then candidate else now

-- Every finding promotes the state and adds a reason.
unfoldable pub add :
    ArtifactKnowledgeState → ArtifactKnowledgeReason → DependencyEvaluation → DependencyEvaluation
add state reason e = record {
  state = promote_state e.state state;
  reasons = e.reasons ++ reason ∷ [];
}

unfoldable pub captured_issue : ℤ → Result (Option ArtifactDependencyIssue)
captured_issue status =
    if eq_ℤ status (pos 0)
    then ok none
    else if eq_ℤ status (pos 1)
    then ok (some ArtifactDependencyIssue.needs_extraction)
    else if eq_ℤ status (pos 2)
    then ok (some unresolved)
    else if eq_ℤ status (pos 3)
    then ok (some depth_truncated)
    else if eq_ℤ status (pos 4)
    then ok (some representations_truncated)
    else stored_invariant "dependency snapshot path status is invalid"

unfoldable pub segment_matches : ArtifactDependencyPathSegment → Dependency → Bool
segment_matches segment dependency =
    dependency.required
    && (eq_option segment.source_resource_id dependency.source_resource_id
        && (eq_bytes segment.kind dependency.kind
            && (eq_target segment.target dependency.target
                && (eq_option segment.resolved_representation_id
                      dependency.resolved_representation_id
                    && eq_bytes segment.authored_reference dependency.authored_reference))))

unfoldable pub add_path_changed :
    Context → CapturedPath → DependencyEvaluation → DependencyEvaluation
add_path_changed c path e = add stale (dependency_path_changed c path.segments) e

-- `load_dependency_set` on the decoded table.
unfoldable pub load_dependency_set : Production → ℕ → Option DependencySet
load_dependency_set production id =
    find? (λ set. set.source_representation_id == id) production.dependency_sets

abbrev pub waits : DependencySetStatus → Bool
waits DependencySetStatus.up_to_date = false
waits DependencySetStatus.needs_extraction = true

abbrev pub matches_at : ArtifactDependencyPathSegment → Option Dependency → Bool
matches_at segment none = false
matches_at segment (some dependency) = segment_matches segment dependency

-- What one segment adds where it ends the evaluation of its path.
unfoldable pub check_segment :
    Context
    → CapturedPath
    → ℕ
    → ArtifactDependencyPathSegment
    → Option DependencySet
    → DependencyEvaluation
    → Option DependencyEvaluation
check_segment c path index segment none e = some (add_path_changed c path e)
check_segment c path index segment (some set) e =
    if waits set.status
    then some (
        add indeterminate
          (dependency_knowledge_incomplete c segment.source_representation_id
            (take index path.segments) ArtifactDependencyIssue.needs_extraction)
          e)
    else if not (matches_at segment (get_elem? set.dependencies segment.dependency_position))
    then some (add_path_changed c path e)
    else none

abbrev pub or_else :
    Option DependencyEvaluation → Option DependencyEvaluation → Option DependencyEvaluation
or_else (some returned) rest = some returned
or_else none rest = rest

-- The loop over the segments: `none` where it reaches the end.
unfoldable pub check_segments :
    Production
    → Context
    → CapturedPath
    → ℕ
    → List ArtifactDependencyPathSegment
    → DependencyEvaluation
    → Option DependencyEvaluation
check_segments production c path index [] e = none
check_segments production c path index (segment ∷ segments) e =
    or_else
      (check_segment c path index segment
        (load_dependency_set production segment.source_representation_id) e)
      (check_segments production c path (index + 1) segments e)
