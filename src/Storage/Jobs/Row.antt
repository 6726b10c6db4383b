-- ===== src/Storage/Jobs/Row.antt =====
-- A row of the `jobs` table (`StoredJob` of crates/postproject-storage-sqlite/src/lib.rs), and the
-- identities of a claim (crates/postproject-core/src/provenance.rs and identifier.rs).
-- An identity of 16 bytes is the number that its bytes spell; a timestamp counts microseconds.
use Prim.Native.String.{String}
use postproject.Base.{ℕ, ◌≡◌, Option, none, some, ◌⊎◌}
use postproject.Base.Int.{ℤ}

pub record ExternalIdentifier : Type 0 where
  pub scheme : String
  pub value : String
  pub qualifier : Option String

pub record ToolIdentity : Type 0 where
  pub name : String
  pub version : Option String
  pub uri : Option String

pub record AgentIdentity : Type 0 where
  pub name : Option String
  pub identifier : Option ExternalIdentifier

pub record JobClaim : Type 0 where
  pub id : ℕ
  pub tool : ToolIdentity
  pub agent : Option AgentIdentity
  pub expires_at : ℤ

-- The numbers that the `state` column holds.
pub data JobStateKind : Type 0 where
  requested claimed succeeded failed cancelled : JobStateKind

-- The nine columns of a claim.
pub record ClaimColumns : Type 0 where
  pub claim_id : Option ℕ
  pub claim_tool_name : Option String
  pub claim_tool_version : Option String
  pub claim_tool_uri : Option String
  pub claim_agent_name : Option String
  pub claim_agent_scheme : Option String
  pub claim_agent_value : Option String
  pub claim_agent_qualifier : Option String
  pub claim_expires_at_micros : Option ℤ

abbrev pub no_claim : ClaimColumns
no_claim = record {
  claim_id = none;
  claim_tool_name = none;
  claim_tool_version = none;
  claim_tool_uri = none;
  claim_agent_name = none;
  claim_agent_scheme = none;
  claim_agent_value = none;
  claim_agent_qualifier = none;
  claim_expires_at_micros = none;
}

pub record JobRow : Type 0 where
  pub id : ℕ
  pub kind : String
  pub output_asset_id : ℕ
  pub output_representation_kind : ℕ
  pub target_root : Option String
  pub state : JobStateKind
  pub claim : ClaimColumns
  pub open claim use *
  pub completion_activity_id : Option ℕ
  pub completion_representation_id : Option ℕ
  pub failure_diagnostic : Option String

-- The `CHECK` of the table: which columns are set in which state.
pub record IsUnclaimed (r : JobRow) : Type 0 where
  pub no_columns : r.claim ≡ no_claim

pub record HasNoOutcome (r : JobRow) : Type 0 where
  pub no_activity : r.completion_activity_id ≡ none
  pub no_representation : r.completion_representation_id ≡ none
  pub no_failure : r.failure_diagnostic ≡ none

abbrev pub IsFilled {ℓ} : {A : Type ℓ} → Option A → Type ℓ
IsFilled {A} o = (a : A) × (o ≡ some a)

abbrev pub StateColumns : JobStateKind → JobRow → Type 0
StateColumns requested r = IsUnclaimed r × HasNoOutcome r
StateColumns cancelled r = IsUnclaimed r × HasNoOutcome r
StateColumns claimed r =
    IsFilled r.claim_id
    × IsFilled r.claim_tool_name
    × IsFilled r.claim_expires_at_micros
    × HasNoOutcome r
StateColumns succeeded r =
    IsUnclaimed r
    × IsFilled r.completion_activity_id
    × IsFilled r.completion_representation_id
    × (r.failure_diagnostic ≡ none)
StateColumns failed r =
    IsUnclaimed r
    × (r.completion_activity_id ≡ none)
    × (r.completion_representation_id ≡ none)
    × IsFilled r.failure_diagnostic

-- The `CHECK` on the columns of the agent's identifier.
abbrev pub AgentColumns : ClaimColumns → Type 0
AgentColumns c =
    ((c.claim_agent_scheme ≡ none)
      × (c.claim_agent_value ≡ none)
      × (c.claim_agent_qualifier ≡ none))
    ⊎ (IsFilled c.claim_agent_scheme × IsFilled c.claim_agent_value)

pub record IsChecked (r : JobRow) : Type 0 where
  pub state_columns : StateColumns r.state r
  pub agent_columns : AgentColumns r.claim
