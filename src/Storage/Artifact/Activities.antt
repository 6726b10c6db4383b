-- ===== src/Storage/Artifact/Activities.antt =====
-- What the evaluation of crates/postproject-storage-sqlite/src/artifact.rs reads and returns: the
-- activities of crates/postproject-core/src/provenance.rs and the types of
-- crates/postproject-core/src/artifact.rs. The activities are given decoded, ascending by identity.
use postproject.Base.{
  ℕ, Bool, ◌&&◌, Option, none, some, List, [], ◌∷◌, Result, ok, not_found, invalid_argument,
  if◌then◌else◌, ltb, ◌==◌, ◌||◌, any, fail,
}
use postproject.Core.Text.{Bytes}
use postproject.Core.Metadata.Value.{MetadataValue}
use postproject.Storage.Dependencies.Rows.{
  ArtifactKnowledgeState, ArtifactKnowledgeReason, Domain, Production,
}
use postproject.Storage.Dependencies.Evaluation.{find_representation}

-- Its revision is only kept.
pub record ActivityEdgeSnapshot : Type 0 where
  pub fingerprints : List (Domain × Bytes)

pub record ActivityInput : Type 0 where
  pub representation_id : ℕ
  pub role : Option Bytes
  pub snapshot : Option ActivityEdgeSnapshot

pub record ActivityOutput : Type 0 where
  pub representation_id : ℕ
  pub snapshot : Option ActivityEdgeSnapshot

pub record ToolIdentity : Type 0 where
  pub name : Bytes
  pub version : Option Bytes
  pub uri : Option Bytes

-- The fields that are read here.
pub record Activity : Type 0 where
  pub id : ℕ
  pub kind : Bytes
  pub tool : Option ToolIdentity
  pub inputs : List ActivityInput
  pub outputs : List ActivityOutput

-- The values of the metadata of the activities are given decoded.
pub record Provenance : Type 0 where
  pub metadata_assertions : List (ℕ × MetadataValue)
  pub production : Production
  pub activities : List Activity

pub data ArtifactEdgeKind : Type 0 where
  input output : ArtifactEdgeKind

pub data ArtifactTraversalLimitKind : Type 0 where
  depth representations : ArtifactTraversalLimitKind

-- The reasons of `ArtifactKnowledgeReason`; those on dependencies are a type of their own.
pub data NodeReason : Type 0 where
  producing_activity_missing : ℕ → NodeReason
  producing_activity_ambiguous : ℕ → ℕ → NodeReason
  snapshot_absent : ℕ → ℕ → ArtifactEdgeKind → NodeReason
  fingerprint_evidence_missing :
      ℕ → ℕ → ArtifactEdgeKind → Option Domain → Option Bytes → Option Bytes → NodeReason
  fingerprint_changed : ℕ → ℕ → ArtifactEdgeKind → Domain → Bytes → Bytes → NodeReason
  fingerprint_recomputation_pending : ℕ → ℕ → ArtifactEdgeKind → NodeReason
  upstream_not_current : ℕ → ArtifactKnowledgeState → NodeReason
  traversal_truncated : ArtifactTraversalLimitKind → ℕ → NodeReason
  of_dependency : ArtifactKnowledgeReason → NodeReason

pub record NodeEvaluation : Type 0 where
  pub state : ArtifactKnowledgeState
  pub reasons : List NodeReason

pub record ArtifactEvaluationLimits : Type 0 where
  pub max_depth : ℕ
  pub max_representations : ℕ

-- `ArtifactEvaluationLimits::new`.
unfoldable pub limits_new : ℕ → ℕ → Result ArtifactEvaluationLimits
limits_new max_depth max_representations =
    if (max_depth == 0) || ((max_representations == 0) || ltb 100000 max_representations)
    then fail invalid_argument
        "artifact evaluation bounds must be positive and visit at most 100000 representations"
    else ok (record { max_depth = max_depth; max_representations = max_representations })

pub record ArtifactEvaluation : Type 0 where
  pub representation_id : ℕ
  pub state : ArtifactKnowledgeState
  pub reasons : List NodeReason
  pub visited_representations : ℕ
  pub truncated : Bool

abbrev pub produces : ℕ → Activity → Bool
produces id a = ltb 0 a.id && any (λ (o : ActivityOutput). o.representation_id == id) a.outputs

abbrev pub filter : (Activity → Bool) → List Activity → List Activity
filter p [] = []
filter p (a ∷ others) = let rest = filter p others in if p a then a ∷ rest else rest

-- `activities_producing`: the query lists the identities after the one of 16 zero bytes.
unfoldable pub activities_producing : Provenance → ℕ → Result (List Activity)
activities_producing p id = elim (find_representation id p.production.representations) [
  | none ↦ fail not_found "provenance representation does not exist"
  | some _ ↦ ok (filter (produces id) p.activities)
]
