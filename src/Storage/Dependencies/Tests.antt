-- ===== src/Storage/Dependencies/Tests.antt =====
-- Runs of the evaluation, and the theorems at concrete inputs.
use postproject.Base.{ℕ, ◌≡◌, refl, true, none, some, [], ◌∷◌, ok, ◌↔◌}
use postproject.Base.Int.{pos}
use postproject.Base.Sorting.{sort, insert}
use postproject.Core.Bytes.{number_of}
use postproject.Core.Text.{
  Bytes, eq_bytes, leb_bytes, is_identifier_byte, is_namespaced, split_once, is_alphanumeric,
}
use postproject.Core.Dependency.{
  Dependency, DependencySet, up_to_date, asset, eq_target, eq_option, dependency_kind,
}
use postproject.Storage.Dependencies.Rows.{
  ArtifactDependencyPathSegment, CapturedPath, Context, Production, DependencyEvaluation, stale,
  dependency_fingerprint_changed,
}
use postproject.Storage.Dependencies.Decode.{
  collect_map, insert_entry, eq_domain, leb_domain, load_paths, decode_each, decode_path, select,
  id_bytes, load_segments, load_fingerprints, decode_segment, decode_fingerprint,
}
use postproject.Storage.Dependencies.Evaluation.{
  representation_fingerprint_dirty, current_fingerprints, find_representation, domains, lookup,
  evaluate_path, nothing_found, evaluate_input_dependencies, evaluate_snapshot, evaluate_paths,
  evaluate_issue, evaluate_segments, compare_fingerprints, compare_domains, compare_values,
}
use postproject.Storage.Dependencies.Segments.{
  load_dependency_set, segment_matches, captured_issue, check_segments, check_segment, add,
  promote_state,
}
use postproject.Storage.Dependencies.Worst.{evaluate_input_dependencies-worst}
use postproject.Storage.Dependencies.Reasons.{worst}
use postproject.Storage.Dependencies.Holds.{Holds, evaluate_path_complete}
use postproject.Storage.Dependencies.Exactly.{evaluate_path-Holds}

-- The kind `a:b`.
abbrev kind : Bytes
kind = 97 ∷ 58 ∷ 98 ∷ []

abbrev step : ArtifactDependencyPathSegment
step = record {
  source_representation_id = 1;
  dependency_position = 0;
  source_resource_id = none;
  kind = kind;
  target = asset 7;
  resolved_representation_id = some 2;
  authored_reference = [];
}

abbrev edge : Dependency
edge = record {
  source_resource_id = none;
  kind = kind;
  target = asset 7;
  resolved_representation_id = some 2;
  required = true;
  authored_reference = [];
}

abbrev edges : DependencySet
edges = record {
  source_representation_id = 1;
  recorded_at_revision = 3;
  status = up_to_date;
  dependencies = edge ∷ [];
}

-- The identity 2 in 16 bytes.
abbrev second : Bytes
second = 0 ∷ 0 ∷ 0 ∷ 0 ∷ 0 ∷ 0 ∷ 0 ∷ 0 ∷ 0 ∷ 0 ∷ 0 ∷ 0 ∷ 0 ∷ 0 ∷ 0 ∷ 2 ∷ []

abbrev first : Bytes
first = 0 ∷ 0 ∷ 0 ∷ 0 ∷ 0 ∷ 0 ∷ 0 ∷ 0 ∷ 0 ∷ 0 ∷ 0 ∷ 0 ∷ 0 ∷ 0 ∷ 0 ∷ 1 ∷ []

abbrev seventh : Bytes
seventh = 0 ∷ 0 ∷ 0 ∷ 0 ∷ 0 ∷ 0 ∷ 0 ∷ 0 ∷ 0 ∷ 0 ∷ 0 ∷ 0 ∷ 0 ∷ 0 ∷ 0 ∷ 7 ∷ []

-- Representation 2 has the fingerprint 9 of the algorithm `h`, version 1.
abbrev with_value : ℕ → Production
with_value live = record {
  activity_inputs =
      record { id = pos 4; activity_id = 10; representation_id = 1; role = none } ∷ [];
  snapshot_markers = pos 4 ∷ [];
  path_rows =
      record {
        id = pos 6;
        activity_input_id = pos 4;
        position = pos 0;
        status = pos 0;
        subject = second;
      }
      ∷ [];
  edge_rows =
      record {
        path_id = pos 6;
        position = pos 0;
        source = first;
        dependency_position = pos 0;
        resource = none;
        kind = kind;
        target_kind = pos 1;
        target = seventh;
        resolved = some second;
        authored = [];
      }
      ∷ [];
  fingerprint_rows =
      record { path_id = pos 6; algorithm = 104 ∷ []; version = pos 1; value = 9 ∷ [] } ∷ [];
  dependency_sets = edges ∷ [];
  representations = (2, ((104 ∷ [], 1), live ∷ []) ∷ []) ∷ [];
  recomputations = [];
}

abbrev captured : CapturedPath
captured = record {
  status = pos 0;
  subject_representation_id = 2;
  segments = step ∷ [];
  fingerprints = ((104 ∷ [], 1), 9 ∷ []) ∷ [];
}

abbrev input : Context
input = record { activity_id = 10; input_representation_id = 1 }

captured-Holds : Holds (with_value 9) captured
unfolding load_dependency_set segment_matches eq_option eq_target eq_bytes
    representation_fingerprint_dirty current_fingerprints find_representation collect_map
    insert_entry eq_domain leb_domain domains lookup
captured-Holds = record {
  complete = refl;
  segments_hold = ((edges, refl, refl, refl), tt);
  is_clean = refl;
  live = ((104 ∷ [], 1), 9 ∷ []) ∷ [];
  is_live = refl;
  has_evidence = refl;
  same_values = ((9 ∷ [], refl, refl), tt);
}

evaluate_path-Holds_example :
    (evaluate_path (with_value 9) input captured nothing_found ≡ ok nothing_found)
    ↔ Holds (with_value 9) captured
evaluate_path-Holds_example = evaluate_path-Holds (with_value 9) input captured nothing_found

-- What the evaluation gives for it.
path_run : evaluate_path (with_value 9) input captured nothing_found ≡ ok nothing_found
path_run = evaluate_path_complete (with_value 9) input captured nothing_found captured-Holds

-- The live fingerprint is another one.
abbrev changed : DependencyEvaluation
changed = record {
  state = stale;
  reasons = dependency_fingerprint_changed input 2 (step ∷ []) (104 ∷ [], 1) (9 ∷ []) (8 ∷ []) ∷ [];
}

changed_run : evaluate_input_dependencies (with_value 8) input none ≡ ok changed
unfolding evaluate_input_dependencies evaluate_snapshot load_paths decode_each decode_path select
    sort insert id_bytes number_of load_segments load_fingerprints decode_segment decode_fingerprint
    dependency_kind is_identifier_byte is_namespaced split_once is_alphanumeric evaluate_paths
    evaluate_path evaluate_issue evaluate_segments captured_issue check_segments check_segment
    compare_fingerprints compare_domains compare_values add promote_state load_dependency_set
    segment_matches eq_option eq_target eq_bytes leb_bytes representation_fingerprint_dirty
    current_fingerprints find_representation collect_map insert_entry eq_domain leb_domain domains
    lookup
changed_run = refl

evaluate_input_dependencies-worst_example : changed.state ≡ worst changed.reasons
evaluate_input_dependencies-worst_example =
    evaluate_input_dependencies-worst (with_value 8) input none changed changed_run
