-- ===== src/Storage/Dependencies/Rows.antt =====
-- What the evaluation reads and returns: the tables of the snapshot, the live tables, and the types
-- of crates/postproject-core/src/artifact.rs. A row of a snapshot table has the columns as SQLite
-- returns them; a live table is given with its rows decoded.
use postproject.Base.{ℕ, Option, List}
use postproject.Base.Int.{ℤ}
use postproject.Core.Text.{Bytes}
use postproject.Core.Dependency.{DependencyTarget, DependencySet}

pub record ArtifactDependencyPathSegment : Type 0 where
  pub source_representation_id : ℕ
  pub dependency_position : ℕ
  pub source_resource_id : Option ℕ
  pub kind : Bytes
  pub target : DependencyTarget
  pub resolved_representation_id : Option ℕ
  pub authored_reference : Bytes

pub data ArtifactDependencyIssue : Type 0 where
  needs_extraction unresolved depth_truncated representations_truncated : ArtifactDependencyIssue

pub data ArtifactKnowledgeState : Type 0 where
  current stale indeterminate diverged : ArtifactKnowledgeState

-- An algorithm with its version.
abbrev pub Domain : Type 0
Domain = Bytes × ℕ

-- A map from domains to values, ascending.
abbrev pub Fingerprints : Type 0
Fingerprints = List (Domain × Bytes)

-- The activity and its input representation, which every reason names first.
pub record Context : Type 0 where
  pub activity_id : ℕ
  pub input_representation_id : ℕ

-- The reasons that the evaluation of dependencies gives.
pub data ArtifactKnowledgeReason : Type 0 where
  dependency_snapshot_absent : Context → ArtifactKnowledgeReason
  dependency_knowledge_incomplete :
      Context
      → ℕ
      → List ArtifactDependencyPathSegment
      → ArtifactDependencyIssue
      → ArtifactKnowledgeReason
  dependency_path_changed : Context → List ArtifactDependencyPathSegment → ArtifactKnowledgeReason
  dependency_fingerprint_changed :
      Context
      → ℕ
      → List ArtifactDependencyPathSegment
      → Domain
      → Bytes
      → Bytes
      → ArtifactKnowledgeReason
  dependency_fingerprint_recomputation_pending :
      Context → ℕ → List ArtifactDependencyPathSegment → ArtifactKnowledgeReason
  dependency_fingerprint_evidence_missing :
      Context
      → ℕ
      → List ArtifactDependencyPathSegment
      → Option Domain
      → Option Bytes
      → Option Bytes
      → ArtifactKnowledgeReason

pub record CapturedPath : Type 0 where
  pub status : ℤ
  pub subject_representation_id : ℕ
  pub segments : List ArtifactDependencyPathSegment
  pub fingerprints : Fingerprints

pub record DependencyEvaluation : Type 0 where
  pub state : ArtifactKnowledgeState
  pub reasons : List ArtifactKnowledgeReason

-- A row of `activity_inputs`.
pub record InputRow : Type 0 where
  pub id : ℤ
  pub activity_id : ℕ
  pub representation_id : ℕ
  pub role : Option Bytes

-- A row of `activity_input_dependency_paths`.
pub record PathRow : Type 0 where
  pub id : ℤ
  pub activity_input_id : ℤ
  pub position : ℤ
  pub status : ℤ
  pub subject : Bytes

-- A row of `activity_input_dependency_path_edges`.
pub record EdgeRow : Type 0 where
  pub path_id : ℤ
  pub position : ℤ
  pub source : Bytes
  pub dependency_position : ℤ
  pub resource : Option Bytes
  pub kind : Bytes
  pub target_kind : ℤ
  pub target : Bytes
  pub resolved : Option Bytes
  pub authored : Bytes

-- A row of `activity_input_dependency_fingerprint_snapshots`.
pub record FingerprintRow : Type 0 where
  pub path_id : ℤ
  pub algorithm : Bytes
  pub version : ℤ
  pub value : Bytes

pub record Production : Type 0 where
  pub activity_inputs : List InputRow
  pub snapshot_markers : List ℤ
  pub path_rows : List PathRow
  pub edge_rows : List EdgeRow
  pub fingerprint_rows : List FingerprintRow
  pub dependency_sets : List DependencySet
  pub representations : List (ℕ × List (Domain × Bytes))
  pub recomputations : List ℕ
