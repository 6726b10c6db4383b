-- ===== src/Storage/Artifact/Reproducibility.antt =====
-- `artifact_reproducibility` of crates/postproject-storage-sqlite/src/artifact.rs.
use postproject.Base.{
  ℕ, ◌≡◌, Bool, true, false, Option, none, some, List, [], ◌∷◌, ◌++◌, All, Result, ok, err,
  ErrorKind, not_found, if◌then◌else◌, ◌==◌, length, any, not, ◌>>=◌,
}
use postproject.Core.Text.{Bytes}
use postproject.Storage.Dependencies.Rows.{Fingerprints}
use postproject.Storage.Dependencies.Evaluation.{current_fingerprints}
use postproject.Storage.Artifact.Activities.{
  Activity, ActivityInput, ToolIdentity, Provenance, activities_producing,
}
use postproject.Storage.Artifact.Nodes.{count_u32}

pub data ArtifactReproducibilityIssue : Type 0 where
  producing_activity_missing : ArtifactReproducibilityIssue
  producing_activity_ambiguous : ℕ → ArtifactReproducibilityIssue
  tool_identity_missing parameters_missing : ℕ → ArtifactReproducibilityIssue
  input_representation_missing : ℕ → ℕ → ArtifactReproducibilityIssue

pub record ArtifactReproducibilityReport : Type 0 where
  pub representation_id : ℕ
  pub producing_activity_id : Option ℕ
  pub activity_kind : Option Bytes
  pub issues : List ArtifactReproducibilityIssue

abbrev pub is_none : Option ToolIdentity → Bool
is_none none = true
is_none (some t) = false

abbrev pub is_not_found : ErrorKind → Bool
is_not_found not_found = true
is_not_found _ = false

-- Whether `metadata` of the activity is empty.
abbrev pub without_metadata : Provenance → ℕ → Bool
without_metadata p id = not (any (λ row. row.0 == id) p.metadata_assertions)

-- An input, whose representation was loaded so, before the rest.
unfoldable pub note_missing :
    Activity
    → ActivityInput
    → Result Fingerprints
    → Result (List ArtifactReproducibilityIssue)
    → Result (List ArtifactReproducibilityIssue)
note_missing a i (ok live) rest = rest
note_missing a i (err e) rest =
    if not (is_not_found e.kind)
    then err e
    else (rest >>= λ issues. ok (input_representation_missing a.id i.representation_id ∷ issues))

abbrev FoundLive : Result Fingerprints → Type 0
FoundLive (ok live) = Unit {0}
FoundLive (err e) = ⊥

abbrev Issues : Type 0
Issues = List ArtifactReproducibilityIssue

module _ (p : Provenance) where
  -- The loop over the inputs.
  unfoldable pub missing_inputs :
      Activity → List ActivityInput → Result (List ArtifactReproducibilityIssue)
  missing_inputs a [] = ok []
  missing_inputs a (i ∷ inputs) =
      note_missing a i (current_fingerprints p.production i.representation_id)
        (missing_inputs a inputs)

  unfoldable pub activity_reproducibility : ℕ → Activity → Result ArtifactReproducibilityReport
  activity_reproducibility id a = missing_inputs a a.inputs >>= λ missing. ok (record {
    representation_id = id;
    producing_activity_id = some a.id;
    activity_kind = some a.kind;
    issues =
        (if is_none a.tool then tool_identity_missing a.id ∷ [] else [])
        ++ ((if without_metadata p a.id then parameters_missing a.id ∷ [] else []) ++ missing);
  })

  abbrev pub report_without : ℕ → ArtifactReproducibilityIssue → ArtifactReproducibilityReport
  report_without id issue = record {
    representation_id = id;
    producing_activity_id = none;
    activity_kind = none;
    issues = issue ∷ [];
  }

  abbrev pub report_producers : ℕ → List Activity → Result ArtifactReproducibilityReport
  report_producers id [] = ok (report_without id producing_activity_missing)
  report_producers id (a ∷ []) = activity_reproducibility id a
  report_producers id (a ∷ b ∷ others) =
      ok (report_without id (producing_activity_ambiguous (count_u32 (length (a ∷ b ∷ others)))))

  unfoldable pub artifact_reproducibility : ℕ → Result ArtifactReproducibilityReport
  artifact_reproducibility id = current_fingerprints p.production id >>= λ _.
      activities_producing p id >>= report_producers id

  abbrev Exists : ActivityInput → Type 0
  Exists i = FoundLive (current_fingerprints p.production i.representation_id)

  -- One activity alone produces it, with a tool and metadata, and with inputs that exist.
  pub record IsReproducible (id : ℕ) : Type 0 where
    pub activity : Activity
    pub unique : activities_producing p id ≡ ok (activity ∷ [])
    pub tool : is_none activity.tool ≡ false
    pub parameters : without_metadata p activity.id ≡ false
    pub inputs : All Exists activity.inputs
