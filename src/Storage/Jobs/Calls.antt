-- ===== src/Storage/Jobs/Calls.antt =====
-- A history of job operations, and the effect of one of them on the table of jobs.
use Prim.Native.String.{String}
use postproject.Base.{ℕ, ◌≡◌, ◌⊎◌, Bool, false, Option, none, some, List, [], ◌∷◌, ◌++◌}
use postproject.Base.Int.{ℤ}
use postproject.Storage.Jobs.Row.{
  ToolIdentity, AgentIdentity, JobRow, requested, claimed, failed, cancelled, no_claim,
}
use postproject.Storage.Jobs.Table.{update_where, find_job, matches}
use postproject.Storage.Jobs.Operations.{
  JobRequest, row_of, request_job, claim_job_with_id, renew_job_claim, release_job_claim, fail_job,
  cancel_job, claimable, renewable, releasable, failable, cancellable, claim_columns,
}
use postproject.Storage.Jobs.Store.{Store}

pub data Call : Type 0 where
  request : JobRequest → Call
  claim : ℕ → ℕ → ToolIdentity → Option AgentIdentity → ℤ → ℤ → Call
  renew : ℕ → ℕ → ℤ → ℤ → Call
  release : ℕ → ℕ → Call
  fails : ℕ → ℕ → ℤ → String → Call
  cancel : ℕ → Call

-- The store after a call, whether it succeeds or not.
unfoldable pub perform : Call → Store → Store
perform (request job) s = (request_job job s).1
perform (claim id token tool agent now expires_at) s =
    (claim_job_with_id id token tool agent now expires_at s).1
perform (renew id token now expires_at) s = (renew_job_claim id token now expires_at s).1
perform (release id token) s = (release_job_claim id token s).1
perform (fails id token now diagnostic) s = (fail_job id token now diagnostic s).1
perform (cancel id) s = (cancel_job id s).1

unfoldable pub perform_all : List Call → Store → Store
perform_all [] s = s
perform_all (c ∷ cs) s = perform_all cs (perform c s)

-- The job that a call is about, the rows that it changes, and how.
abbrev pub target : Call → ℕ
target (request job) = job.id
target (claim id _ _ _ _ _) = id
target (renew id _ _ _) = id
target (release id _) = id
target (fails id _ _ _) = id
target (cancel id) = id

abbrev pub guard : Call → JobRow → Bool
guard (request job) r = false
guard (claim id token tool agent now expires_at) r = claimable now r
guard (renew id token now expires_at) r = renewable token now expires_at r
guard (release id token) r = releasable token r
guard (fails id token now diagnostic) r = failable token now r
guard (cancel id) r = cancellable r

abbrev pub change : Call → JobRow → JobRow
change (request job) r = r
change (claim id token tool agent now expires_at) r = record r {
  state = claimed;
  claim = claim_columns token tool agent expires_at;
}
change (renew id token now expires_at) r = record r {
  claim = record (r.claim) { claim_expires_at_micros = some expires_at };
}
change (release id token) r = record r { state = requested; claim = no_claim }
change (fails id token now diagnostic) r = record r {
  state = failed;
  claim = no_claim;
  failure_diagnostic = some diagnostic;
}
change (cancel id) r = record r { state = cancelled; claim = no_claim }

-- The jobs after a call: as before, or with the guarded rows of its job changed, or with a new row.
abbrev pub Effect : Call → List JobRow → List JobRow → Type 0
Effect c rs rs' =
    (rs' ≡ rs)
    ⊎ (rs' ≡ update_where (matches (target c) (guard c)) (change c) rs)
    ⊎ ((job : JobRequest) × (c ≡ request job)
        × (find_job job.id rs ≡ none)
        × (rs' ≡ rs ++ row_of job ∷ []))
