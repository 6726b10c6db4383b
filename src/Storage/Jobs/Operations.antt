-- ===== src/Storage/Jobs/Operations.antt =====
-- The job operations of `SqliteTransaction`. An operation takes the store, and returns its result
-- with the store after it: of the errors of SQLite it has those of a primary key and of UNIQUE. A
-- message that the source formats with a value or a constant is given by its fixed words.
use Prim.Native.String.{String}
use text.Mathlib.Text.{◌==◌ as str_eq}
use postproject.Base.{
  ℕ, ◌+◌, Bool, true, false, ◌&&◌, ◌||◌, not, Option, none, some, List, [], ◌∷◌, ◌++◌, ◌==◌,
  if◌then◌else◌, any, ok, invalid_argument, not_found, already_exists,
}
use mathlib.Core.Option
use postproject.Base.Int.{ℤ, ltb_ℤ}
use postproject.Storage.Jobs.Row.{
  ExternalIdentifier, ToolIdentity, AgentIdentity, JobClaim, JobStateKind, requested, claimed,
  failed, cancelled, ClaimColumns, no_claim, JobRow,
}
use postproject.Storage.Jobs.Table.{count_where, job_exists, matches}
use postproject.Storage.Jobs.Store.{
  job_requested, job_claimed, job_claim_renewed, job_claim_released, job_failed, job_cancelled, M,
  and_then, ◌>>◌, pure, throw, when_bad, ensure_open, push_event, transition,
}

abbrev pub is_requested : JobStateKind → Bool
is_requested requested = true
is_requested _ = false

abbrev pub is_claimed : JobStateKind → Bool
is_claimed claimed = true
is_claimed _ = false

-- A comparison with a column is not true at NULL.
abbrev pub column : {A : Type 0} → (A → Bool) → Option A → Bool
column p none = false
column p (some a) = p a

-- `claim_id = ?`, `claim_expires_at_micros > ?` and `claim_expires_at_micros <= ?`.
abbrev pub held_by : ℕ → JobRow → Bool
held_by claim_id r = column (λ t. t == claim_id) r.claim_id

abbrev pub unexpired : ℤ → JobRow → Bool
unexpired now r = column (λ e. ltb_ℤ now e) r.claim_expires_at_micros

abbrev pub expired : ℤ → JobRow → Bool
expired now r = column (λ e. not (ltb_ℤ now e)) r.claim_expires_at_micros

unfoldable pub claimable : ℤ → JobRow → Bool
claimable now r = is_requested r.state || (is_claimed r.state && expired now r)

unfoldable pub renewable : ℕ → ℤ → ℤ → JobRow → Bool
renewable claim_id now expires_at r =
    is_claimed r.state
    && (held_by claim_id r
        && (unexpired now r && column (λ e. ltb_ℤ e expires_at) r.claim_expires_at_micros))

unfoldable pub releasable : ℕ → JobRow → Bool
releasable claim_id r = is_claimed r.state && held_by claim_id r

unfoldable pub failable : ℕ → ℤ → JobRow → Bool
failable claim_id now r = is_claimed r.state && (held_by claim_id r && unexpired now r)

abbrev pub cancellable : JobRow → Bool
cancellable r = is_requested r.state || is_claimed r.state

unfoldable pub validate_future_job_expiry : ℤ → ℤ → M (Unit {0})
validate_future_job_expiry now expires_at =
    when_bad (not (ltb_ℤ now expires_at)) invalid_argument
      "job claim expiry must be after the caller-supplied current time"

-- The parameters that `claim_job_with_id` binds.
abbrev pub identifier_of : Option AgentIdentity → Option ExternalIdentifier
identifier_of none = none
identifier_of (some a) = a.identifier

abbrev pub bind_qualifier : Option ExternalIdentifier → Option String
bind_qualifier none = none
bind_qualifier (some i) = i.qualifier

abbrev pub bind_name : Option AgentIdentity → Option String
bind_name none = none
bind_name (some a) = a.name

unfoldable pub claim_columns : ℕ → ToolIdentity → Option AgentIdentity → ℤ → ClaimColumns
claim_columns claim_id tool agent expires_at = record {
  claim_id = some claim_id;
  claim_tool_name = some tool.name;
  claim_tool_version = tool.version;
  claim_tool_uri = tool.uri;
  claim_agent_name = bind_name agent;
  claim_agent_scheme = Option.map (λ i. i.scheme) (identifier_of agent);
  claim_agent_value = Option.map (λ i. i.value) (identifier_of agent);
  claim_agent_qualifier = bind_qualifier (identifier_of agent);
  claim_expires_at_micros = some expires_at;
}

-- `claim_id BLOB UNIQUE`: another row holds the token.
unfoldable pub claim_taken : ℕ → ℕ → List JobRow → Bool
claim_taken claim_id id [] = false
claim_taken claim_id id (r ∷ rs) =
    (held_by claim_id r && not (r.id == id)) || claim_taken claim_id id rs

-- The `UPDATE` fails, changing nothing, if it would set a token that another row holds.
unfoldable pub unique_claim : ℕ → ℕ → (JobRow → Bool) → M (Unit {0})
unique_claim claim_id id condition s =
    when_bad
      (not (count_where (matches id condition) s.jobs == 0) && claim_taken claim_id id s.jobs)
      already_exists "claim job" s

unfoldable pub claim_job_with_id : ℕ → ℕ → ToolIdentity → Option AgentIdentity → ℤ → ℤ → M JobClaim
claim_job_with_id id claim_id tool agent now expires_at = do
  validate_future_job_expiry now expires_at
  ensure_open
  unique_claim claim_id id (claimable now)
  transition id (claimable now)
      (λ r. record r { state = claimed; claim = claim_columns claim_id tool agent expires_at })
      "job is not claimable" (job_claimed id)
  pure (record { id = claim_id; tool = tool; agent = agent; expires_at = expires_at })

unfoldable pub renew_job_claim : ℕ → ℕ → ℤ → ℤ → M (Unit {0})
renew_job_claim id claim_id now expires_at = do
  validate_future_job_expiry now expires_at
  transition id (renewable claim_id now expires_at)
      (λ r. record r { claim = record (r.claim) { claim_expires_at_micros = some expires_at } })
      "job claim cannot be renewed" (job_claim_renewed id)

unfoldable pub release_job_claim : ℕ → ℕ → M (Unit {0})
release_job_claim id claim_id =
    transition id (releasable claim_id) (λ r. record r { state = requested; claim = no_claim })
      "job claim cannot be released" (job_claim_released id)

unfoldable pub fail_job : ℕ → ℕ → ℤ → String → M (Unit {0})
fail_job id claim_id now diagnostic =
    transition id (failable claim_id now)
      (λ r. record r { state = failed; claim = no_claim; failure_diagnostic = some diagnostic })
      "job cannot be failed by this claim" (job_failed id)

unfoldable pub cancel_job : ℕ → M (Unit {0})
cancel_job id =
    transition id cancellable (λ r. record r { state = cancelled; claim = no_claim })
      "job cannot be cancelled" (job_cancelled id)

pub data RepresentationKind : Type 0 where
  original proxy optimized derived : RepresentationKind

abbrev pub encode_representation_kind : RepresentationKind → ℕ
encode_representation_kind original = 0
encode_representation_kind proxy = 1
encode_representation_kind optimized = 2
encode_representation_kind derived = 3

-- The fields of a `Job` that `request_job` reads.
pub record JobRequest : Type 0 where
  pub id : ℕ
  pub kind : String
  pub inputs : List ℕ
  pub asset_id : ℕ
  pub representation_kind : RepresentationKind
  pub target_root : Option String
  pub state : JobStateKind

abbrev pub row_of : JobRequest → JobRow
row_of job = record {
  id = job.id;
  kind = job.kind;
  output_asset_id = job.asset_id;
  output_representation_kind = encode_representation_kind job.representation_kind;
  target_root = job.target_root;
  state = requested;
  claim = no_claim;
  completion_activity_id = none;
  completion_representation_id = none;
  failure_diagnostic = none;
}

abbrev pub root_missing : Option String → List String → Bool
root_missing none roots = false
root_missing (some name) roots = not (any (λ r. str_eq r name) roots)

unfoldable pub inputs_exist : List ℕ → M (Unit {0})
inputs_exist [] s = (ok tt, s)
inputs_exist (i ∷ is) s =
    and_then
      (when_bad (not (any (λ r. r == i) s.representations)) not_found
        "job input representation does not exist" s)
      (λ _. inputs_exist is)

-- The `INSERT` of a job: its identity is the primary key.
unfoldable pub insert_job : JobRow → M (Unit {0})
insert_job row s =
    if job_exists row.id s.jobs
    then throw already_exists "persist job request" s
    else (ok tt, record s { jobs = s.jobs ++ row ∷ [] })

-- `PRIMARY KEY (job_id, position)` and `UNIQUE (job_id, representation_id)`.
abbrev pub input_clashes : ℕ → ℕ → ℕ → ℕ × ℕ × ℕ → Bool
input_clashes job position representation (j, p, r) =
    j == job && (p == position || r == representation)

unfoldable pub insert_inputs : ℕ → ℕ → List ℕ → M (Unit {0})
insert_inputs job position [] s = (ok tt, s)
insert_inputs job position (i ∷ is) s =
    and_then
      (if any (input_clashes job position i) s.job_inputs
        then throw already_exists "persist job input" s
        else (ok tt, record s { job_inputs = s.job_inputs ++ (job, position, i) ∷ [] }))
      (λ _. insert_inputs job (position + 1) is)

-- The statements of `request_job` that write.
unfoldable pub insert_request : JobRequest → M (Unit {0})
insert_request job = do
  insert_job (row_of job)
  insert_inputs job.id 0 job.inputs
  push_event (job_requested job.id)

unfoldable pub request_job : JobRequest → M (Unit {0})
request_job job = do
  ensure_open
  when_bad (not (is_requested job.state)) invalid_argument
      "only a requested job can be persisted as a new request"
  λ s.
      when_bad (root_missing job.target_root s.pending_roots) not_found
        "job target root does not exist" s
  λ s.
      when_bad (not (any (λ a. a == job.asset_id) s.assets)) not_found
        "job output asset does not exist" s
  inputs_exist job.inputs
  insert_request job
