-- ===== src/Storage/Artifact/Edges.antt =====
-- `compare_edge` of crates/postproject-storage-sqlite/src/artifact.rs. `promote_state` and its
-- priorities are those of dependency_evaluation.rs.
use postproject.Base.{ℕ, not, Option, none, some, List, [], ◌∷◌, ◌++◌, if◌then◌else◌, is_empty}
use postproject.Core.Text.{Bytes, eq_bytes}
use postproject.Storage.Dependencies.Rows.{
  ArtifactKnowledgeState, stale, indeterminate, diverged, Domain, Fingerprints, Production,
}
use postproject.Storage.Dependencies.Decode.{collect_map}
use postproject.Storage.Dependencies.Segments.{promote_state}
use postproject.Storage.Dependencies.Evaluation.{lookup, domains, representation_fingerprint_dirty}
use postproject.Storage.Artifact.Activities.{
  ActivityEdgeSnapshot, ArtifactEdgeKind, input, output, NodeReason, NodeEvaluation,
  snapshot_absent, fingerprint_evidence_missing, fingerprint_changed,
  fingerprint_recomputation_pending,
}

-- Every finding promotes the state and pushes a reason.
unfoldable pub note : ArtifactKnowledgeState → NodeReason → NodeEvaluation → NodeEvaluation
note state reason e = record {
  state = promote_state e.state state;
  reasons = e.reasons ++ reason ∷ [];
}

abbrev pub changed_state : ArtifactEdgeKind → ArtifactKnowledgeState
changed_state output = diverged
changed_state input = stale

abbrev pub captured_fingerprints : ActivityEdgeSnapshot → Fingerprints
captured_fingerprints snapshot = collect_map [] snapshot.fingerprints

-- An edge of the activity with this identity at the representation with that one.
module _ (activity_id representation_id : ℕ) (edge : ArtifactEdgeKind) where
  unfoldable pub add_missing_evidence :
      Option Domain → Option Bytes → Option Bytes → NodeEvaluation → NodeEvaluation
  add_missing_evidence domain snapshot live =
      note indeterminate
        (fingerprint_evidence_missing activity_id representation_id edge domain snapshot live)

  -- The arms of the `match` on a domain.
  unfoldable pub compare_domain :
      Domain → Option Bytes → Option Bytes → NodeEvaluation → NodeEvaluation
  compare_domain domain (some snapshot) (some live) e =
      if not (eq_bytes snapshot live)
      then note (changed_state edge)
          (fingerprint_changed activity_id representation_id edge domain snapshot live) e
      else e
  compare_domain domain snapshot live e = add_missing_evidence (some domain) snapshot live e

  unfoldable pub compare_each :
      Fingerprints → Fingerprints → List Domain → NodeEvaluation → NodeEvaluation
  compare_each captured live [] e = e
  compare_each captured live (domain ∷ ds) e =
      compare_each captured live ds
        (compare_domain domain (lookup domain captured) (lookup domain live) e)

  unfoldable pub compare_edge :
      Production → Fingerprints → Option ActivityEdgeSnapshot → NodeEvaluation → NodeEvaluation
  compare_edge production live none e =
      note indeterminate (snapshot_absent activity_id representation_id edge) e
  compare_edge production live (some snapshot) e =
      if representation_fingerprint_dirty production representation_id
      then note (changed_state edge)
          (fingerprint_recomputation_pending activity_id representation_id edge) e
      else (let captured = captured_fingerprints snapshot in
          let ds = domains captured live in
          if is_empty ds
          then add_missing_evidence none none none e
          else compare_each captured live ds e)
