-- ===== src/Storage/Dependencies/Evaluation.antt =====
-- The evaluation of crates/postproject-storage-sqlite/src/dependency_evaluation.rs.
use postproject.Base.{
  ℕ, Bool, true, false, not, ◌&&◌, Option, none, some, List, [], ◌∷◌, map, Result, ok, storage,
  not_found, if◌then◌else◌, ◌==◌, any, find?, ◌>>=◌, fail, is_empty,
}
use postproject.Base.Sorting.{eq_ℤ}
use postproject.Core.Text.{Bytes, eq_bytes}
use postproject.Storage.Dependencies.Rows.{
  ArtifactDependencyIssue, current, stale, indeterminate, Domain, Fingerprints, Context,
  CapturedPath, DependencyEvaluation, InputRow, Production, dependency_snapshot_absent,
  dependency_knowledge_incomplete, dependency_fingerprint_changed,
  dependency_fingerprint_recomputation_pending, dependency_fingerprint_evidence_missing,
}
use postproject.Storage.Dependencies.Decode.{load_paths, collect_map, eq_domain}
use postproject.Storage.Dependencies.Segments.{add, captured_issue, check_segments}

unfoldable pub representation_fingerprint_dirty : Production → ℕ → Bool
representation_fingerprint_dirty production id = any (λ r. r == id) production.recomputations

unfoldable pub find_representation :
    ℕ → List (ℕ × List (Domain × Bytes)) → Option (List (Domain × Bytes))
find_representation id [] = none
find_representation id ((i, fingerprints) ∷ rs) =
    if i == id then some fingerprints else find_representation id rs

-- `load_representation_by_id` and `current_fingerprints`.
unfoldable pub current_fingerprints : Production → ℕ → Result Fingerprints
current_fingerprints production id = elim (find_representation id production.representations) [
  | none ↦ fail not_found "representation does not exist"
  | some entries ↦ ok (collect_map [] entries)
]

unfoldable pub lookup : Domain → Fingerprints → Option Bytes
lookup k [] = none
lookup k ((l, v) ∷ m) = if eq_domain k l then some v else lookup k m

-- The set of the keys of both maps, ascending.
unfoldable pub domains : Fingerprints → Fingerprints → List Domain
domains snapshot live = map (λ entry. entry.0) (collect_map snapshot live)

unfoldable pub add_missing_fingerprint :
    Context
    → CapturedPath
    → Option Domain
    → Option Bytes
    → Option Bytes
    → DependencyEvaluation
    → DependencyEvaluation
add_missing_fingerprint c path domain snapshot live e =
    add indeterminate
      (dependency_fingerprint_evidence_missing c path.subject_representation_id path.segments domain
        snapshot live)
      e

-- The arms of the `match` of `compare_fingerprints`.
unfoldable pub compare_values :
    Context
    → CapturedPath
    → Domain
    → Option Bytes
    → Option Bytes
    → DependencyEvaluation
    → DependencyEvaluation
compare_values c path domain (some snapshot) (some live) e =
    if not (eq_bytes snapshot live)
    then add stale
        (dependency_fingerprint_changed c path.subject_representation_id path.segments domain
          snapshot live)
        e
    else e
compare_values c path domain snapshot live e =
    add_missing_fingerprint c path (some domain) snapshot live e

unfoldable pub compare_domains :
    Context
    → CapturedPath
    → Fingerprints
    → List Domain
    → DependencyEvaluation
    → DependencyEvaluation
compare_domains c path live [] e = e
compare_domains c path live (domain ∷ ds) e =
    compare_domains c path live ds
      (compare_values c path domain (lookup domain path.fingerprints) (lookup domain live) e)

unfoldable pub compare_fingerprints :
    Production → Context → CapturedPath → DependencyEvaluation → Result DependencyEvaluation
compare_fingerprints production c path e =
    current_fingerprints production path.subject_representation_id >>= λ live.
    (let ds = domains path.fingerprints live in
      ok (
        if is_empty ds
        then add_missing_fingerprint c path none none none e
        else compare_domains c path live ds e))

unfoldable pub evaluate_segments :
    Production
    → Context
    → CapturedPath
    → DependencyEvaluation
    → Option DependencyEvaluation
    → Result DependencyEvaluation
evaluate_segments production c path e (some returned) = ok returned
evaluate_segments production c path e none =
    if representation_fingerprint_dirty production path.subject_representation_id
    then ok (
        add stale
          (dependency_fingerprint_recomputation_pending c path.subject_representation_id
            path.segments)
          e)
    else compare_fingerprints production c path e

unfoldable pub evaluate_issue :
    Production
    → Context
    → CapturedPath
    → DependencyEvaluation
    → Option ArtifactDependencyIssue
    → Result DependencyEvaluation
evaluate_issue production c path e (some issue) = ok (
    add indeterminate
      (dependency_knowledge_incomplete c path.subject_representation_id path.segments issue) e)
evaluate_issue production c path e none =
    evaluate_segments production c path e (check_segments production c path 0 path.segments e)

unfoldable pub evaluate_path :
    Production → Context → CapturedPath → DependencyEvaluation → Result DependencyEvaluation
evaluate_path production c path e =
    captured_issue path.status >>= evaluate_issue production c path e

unfoldable pub evaluate_paths :
    Production → Context → List CapturedPath → DependencyEvaluation → Result DependencyEvaluation
evaluate_paths production c [] e = ok e
evaluate_paths production c (path ∷ paths) e =
    evaluate_path production c path e >>= evaluate_paths production c paths

-- `role IS ?3` holds of two NULLs.
abbrev pub is_role : Option Bytes → Option Bytes → Bool
is_role none none = true
is_role none (some b) = false
is_role (some a) none = false
is_role (some a) (some b) = eq_bytes a b

abbrev pub find_input : Production → Context → Option Bytes → Option InputRow
find_input production c role =
    find?
      (λ row.
        row.activity_id == c.activity_id
        && (row.representation_id == c.input_representation_id && is_role row.role role))
      production.activity_inputs

abbrev pub nothing_found : DependencyEvaluation
nothing_found = record { state = current; reasons = [] }

unfoldable pub evaluate_snapshot :
    Production → Context → Option InputRow → Result DependencyEvaluation
evaluate_snapshot production c none = fail storage "locate activity input dependency snapshot"
evaluate_snapshot production c (some input) =
    if not (any (λ marker. eq_ℤ marker input.id) production.snapshot_markers)
    then ok (record { state = indeterminate; reasons = dependency_snapshot_absent c ∷ [] })
    else (load_paths production input.id >>= λ paths.
        evaluate_paths production c paths nothing_found)

unfoldable pub evaluate_input_dependencies :
    Production → Context → Option Bytes → Result DependencyEvaluation
evaluate_input_dependencies production c role =
    evaluate_snapshot production c (find_input production c role)
