-- ===== src/Storage/Artifact/Tests.antt =====
-- Runs of the evaluation, and the theorems at concrete inputs.
use postproject.Base.{
  ℕ, ◌≡◌, ◌≤◌, refl, true, false, none, some, [], ◌∷◌, ok, any, if◌then◌else◌, ◌==◌,
}
use postproject.Base.Int.{pos}
use postproject.Base.Sorting.{sort}
use postproject.Core.Text.{eq_bytes}
use postproject.Core.Metadata.Value
use postproject.Storage.Artifact.Reproducibility.{ArtifactReproducibilityReport}
use postproject.Storage.Dependencies.Rows.{Production, InputRow, Domain, current, indeterminate}
use postproject.Storage.Dependencies.Decode.{
  load_paths, collect_map, decode_each, select, insert_entry, eq_domain,
}
use postproject.Storage.Dependencies.Segments.{promote_state}
use postproject.Storage.Dependencies.Evaluation.{
  find_representation, current_fingerprints, evaluate_input_dependencies, evaluate_snapshot,
  evaluate_paths, representation_fingerprint_dirty, lookup, domains,
}
use postproject.Storage.Artifact.Activities.{
  ActivityEdgeSnapshot, Activity, Provenance, ArtifactEvaluation, ArtifactEvaluationLimits,
  activities_producing, upstream_not_current, traversal_truncated, depth,
}
use postproject.Storage.Artifact.Edges.{compare_edge, compare_each, compare_domain, note}
use postproject.Storage.Artifact.Nodes.{
  evaluate_artifact, evaluate_artifact_node, evaluate_uncached, evaluate_producers,
  evaluate_activity_output, evaluate_inputs, evaluate_input, evaluate_upstream, find_output,
  add_dependencies, add_upstream, visit, keep, cached, truncated_evaluation,
}
use postproject.Storage.Artifact.Cuts.{is_truncation}
use postproject.Storage.Artifact.Limits.{evaluate_artifact-limits}

abbrev domain : Domain
domain = (97 ∷ [], 1)

abbrev five : ActivityEdgeSnapshot
five = record { fingerprints = (domain, 5 ∷ []) ∷ [] }

abbrev input_row : ℕ → ℕ → InputRow
input_row activity representation = record {
  id = pos activity;
  activity_id = activity;
  representation_id = representation;
  role = none;
}

-- Three representations, of which the second is made from the first and the third from the second.
abbrev stored : Production
stored = record {
  activity_inputs = input_row 11 1 ∷ input_row 12 2 ∷ [];
  snapshot_markers = pos 11 ∷ pos 12 ∷ [];
  path_rows = [];
  edge_rows = [];
  fingerprint_rows = [];
  dependency_sets = [];
  representations =
      (1, (domain, 5 ∷ []) ∷ []) ∷ (2, (domain, 5 ∷ []) ∷ []) ∷ (3, (domain, 5 ∷ []) ∷ []) ∷ [];
  recomputations = [];
}

abbrev made : ℕ → ℕ → ℕ → Activity
made id from to = record {
  id = id;
  kind = 107 ∷ [];
  tool = if id == 12 then some (record { name = 116 ∷ []; version = none; uri = none }) else none;
  inputs = record { representation_id = from; role = none; snapshot = some five } ∷ [];
  outputs = record { representation_id = to; snapshot = some five } ∷ [];
}

abbrev chain : Provenance
chain = record {
  production = stored;
  activities = made 11 1 2 ∷ made 12 2 3 ∷ [];
  metadata_assertions = (12, Value.bool true) ∷ [];
}

abbrev default_limits : ArtifactEvaluationLimits
default_limits = record { max_depth = 64; max_representations = 1000 }

abbrev found_current : ArtifactEvaluation
found_current = record {
  representation_id = 3;
  state = current;
  reasons = [];
  visited_representations = 2;
  truncated = false;
}

evaluate_artifact-chain : evaluate_artifact chain 3 default_limits ≡ ok found_current
unfolding evaluate_artifact evaluate_artifact_node evaluate_uncached evaluate_producers
    evaluate_activity_output evaluate_inputs evaluate_input evaluate_upstream find_output
    add_dependencies add_upstream visit keep cached truncated_evaluation compare_edge compare_each
    compare_domain note activities_producing find_representation current_fingerprints
    evaluate_input_dependencies evaluate_snapshot evaluate_paths representation_fingerprint_dirty
    lookup domains load_paths collect_map promote_state eq_bytes decode_each sort select
    insert_entry eq_domain
evaluate_artifact-chain = refl

-- With no level above, the second is not evaluated.
evaluate_artifact-cut :
    evaluate_artifact chain 3 (record { max_depth = 0; max_representations = 1000 })
    ≡ ok (record {
      representation_id = 3;
      state = indeterminate;
      reasons = upstream_not_current 2 indeterminate ∷ traversal_truncated depth 2 ∷ [];
      visited_representations = 1;
      truncated = true;
    })
unfolding evaluate_artifact evaluate_artifact_node evaluate_uncached evaluate_producers
    evaluate_activity_output evaluate_inputs evaluate_input evaluate_upstream find_output
    add_dependencies add_upstream visit keep cached truncated_evaluation compare_edge compare_each
    compare_domain note activities_producing find_representation current_fingerprints
    evaluate_input_dependencies evaluate_snapshot evaluate_paths representation_fingerprint_dirty
    lookup domains load_paths collect_map promote_state eq_bytes decode_each sort select
    insert_entry eq_domain
evaluate_artifact-cut = refl

evaluate_artifact-limits_example :
    (found_current.visited_representations ≤ 1000)
    × (found_current.truncated ≡ any is_truncation found_current.reasons)
evaluate_artifact-limits_example =
    evaluate_artifact-limits chain default_limits 3 found_current evaluate_artifact-chain

abbrev reproducible : ArtifactReproducibilityReport
reproducible = record {
  representation_id = 3;
  producing_activity_id = some 12;
  activity_kind = some (107 ∷ []);
  issues = [];
}
