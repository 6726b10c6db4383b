-- ===== src/Storage/Jobs/Lifecycle.antt =====
-- The state of the transaction under the job operations of
-- crates/postproject-storage-sqlite/src/transaction.rs.
use Prim.Native.String.{String}
use postproject.Base.{ℕ, ◌+◌, ◌≡◌, refl, ◌∙◌, Bool, List, [], ◌∷◌, ◌++◌, arith}
use postproject.Storage.Jobs.Row.{JobRow}
use postproject.Storage.Jobs.Operations.{
  claimable, renewable, claim_job_with_id, renew_job_claim, release_job_claim, fail_job, cancel_job,
  request_job, validate_future_job_expiry, unique_claim, insert_request, insert_job, insert_inputs,
  inputs_exist, row_of, JobRequest,
}
use postproject.Storage.Jobs.Store.{
  Store, JobEvent, transition, ensure_open, job_claimed, push_event,
}
use postproject.Storage.Jobs.Calls.{
  Call, request, claim, renew, release, fails, cancel, perform, perform_all, change,
}

transition-lifecycle :
    (id : ℕ) (g : JobRow → Bool) (f : JobRow → JobRow) (m : String) (e : JobEvent) (s : Store)
    → (transition id g f m e s).1.lifecycle ≡ s.lifecycle
unfolding transition
transition-lifecycle id g f m e s = ground arith

insert_inputs-lifecycle :
    (job position : ℕ) (is : List ℕ) (s : Store)
    → (insert_inputs job position is s).1.lifecycle ≡ s.lifecycle
unfolding insert_inputs
insert_inputs-lifecycle job position [] s = refl
insert_inputs-lifecycle job position (i ∷ is) s = ground (
  arith,
  insert_inputs-lifecycle job (position + 1) is
      (record s { job_inputs = s.job_inputs ++ (job, position, i) ∷ [] }),
)

inputs_exist-lifecycle : (is : List ℕ) (s : Store) → (inputs_exist is s).1.lifecycle ≡ s.lifecycle
unfolding inputs_exist
inputs_exist-lifecycle [] s = refl
inputs_exist-lifecycle (i ∷ is) s = ground (arith, inputs_exist-lifecycle is s)

insert_request-lifecycle :
    (job : JobRequest) (s : Store) → (insert_request job s).1.lifecycle ≡ s.lifecycle
unfolding insert_request insert_job push_event
insert_request-lifecycle job s = ground (
  arith,
  insert_inputs-lifecycle job.id 0 job.inputs (record s { jobs = s.jobs ++ row_of job ∷ [] }),
)

pub perform-lifecycle : (c : Call) (s : Store) → (perform c s).lifecycle ≡ s.lifecycle
unfolding perform claim_job_with_id renew_job_claim release_job_claim fail_job cancel_job
    validate_future_job_expiry ensure_open unique_claim request_job
perform-lifecycle (request job) s = ground (
  arith,
  inputs_exist-lifecycle job.inputs s,
  insert_request-lifecycle job (inputs_exist job.inputs s).1,
)
perform-lifecycle (claim id token tool agent now expires_at) s = ground (
  arith,
  transition-lifecycle id (claimable now) (change (claim id token tool agent now expires_at))
      "job is not claimable" (job_claimed id) s,
)
perform-lifecycle (renew id token now expires_at) s = ground (
  arith,
  transition-lifecycle id (renewable token now expires_at) (change (renew id token now expires_at))
      "job claim cannot be renewed" (JobEvent.job_claim_renewed id) s,
)
perform-lifecycle (release id token) s = transition-lifecycle _ _ _ _ _ s
perform-lifecycle (fails id token now diagnostic) s = transition-lifecycle _ _ _ _ _ s
perform-lifecycle (cancel id) s = transition-lifecycle _ _ _ _ _ s

pub perform_all-lifecycle :
    (cs : List Call) (s : Store) → (perform_all cs s).lifecycle ≡ s.lifecycle
unfolding perform_all
perform_all-lifecycle [] s = refl
perform_all-lifecycle (c ∷ cs) s = perform_all-lifecycle cs (perform c s) ∙ perform-lifecycle c s
