-- ===== src/Storage/Jobs/Tests.antt =====
-- Runs of the job operations, and the theorems at concrete inputs.
use postproject.Storage.Jobs.Settled.{IsWithoutToken}
use postproject.Base.{◌≡◌, refl, none, some, List, [], ◌∷◌, arith, ok, err, All, inl, conflict}
use postproject.Base.Int.{pos}
use postproject.Storage.Jobs.Row.{
  JobRow, JobClaim, ToolIdentity, requested, failed, cancelled, no_claim,
}
use postproject.Storage.Jobs.Table.{find_job, DistinctIds, update_where, count_where}
use postproject.Storage.Jobs.Operations.{
  JobRequest, original, row_of, claim_job_with_id, fail_job, claimable, validate_future_job_expiry,
  unique_claim, claim_taken, claim_columns,
}
use postproject.Core.Transaction.{opened}
use postproject.Storage.Jobs.Store.{
  Store, transition, ensure_open, execute_update, push_event, job_transition_error,
}
use postproject.Storage.Jobs.Calls.{
  Call, request, claim, renew, release, fails, cancel, perform_all,
}
use postproject.Storage.Jobs.Claims.{claim_outcome, claim_job_with_id-outcome, as_claimed}
use postproject.Storage.Jobs.Invariant.{Inv, perform_all-Inv}
use postproject.Storage.Jobs.Leases.{
  HoldsClaim, IsForeign, perform_all-claimed, perform_all-terminal,
}
use postproject.Storage.Jobs.Holder.{fail_job-holder, fail_job-stale, later}

abbrev worker : ToolIdentity
worker = record { name = "worker"; version = none; uri = none }

abbrev render : JobRequest
render = record {
  id = 7;
  kind = "org.postproject:render";
  inputs = 2 ∷ [];
  asset_id = 1;
  representation_kind = original;
  target_root = none;
  state = requested;
}

abbrev ready : Store
ready = record {
  lifecycle = opened;
  assets = 1 ∷ [];
  representations = 2 ∷ 3 ∷ [];
  pending_roots = [];
  jobs = row_of render ∷ [];
  job_inputs = (7, 0, 2) ∷ [];
  pending_events = [];
}

abbrev the_job_claim : JobClaim
the_job_claim = record { id = 40; tool = worker; agent = none; expires_at = pos 100 }

-- Others request a job, try to claim this one, and use a token of their own on it.
abbrev others : List Call
others =
    request (record render { id = 8; inputs = 3 ∷ [] })
    ∷ claim 7 41 worker none (pos 50) (pos 90)
    ∷ renew 7 41 (pos 60) (pos 95)
    ∷ release 7 41
    ∷ fails 8 41 (pos 70) "no"
    ∷ cancel 8
    ∷ []

ready-Inv : Inv ready.jobs
unfolding find_job
ready-Inv = record {
  distinct = (refl, tt);
  checked = (
    record {
      state_columns = (
        record { no_columns = refl },
        record { no_activity = refl; no_representation = refl; no_failure = refl },
      );
      agent_columns = inl (refl, refl, refl);
    },
    tt,
  );
}

claim_test : (claim_job_with_id 7 40 worker none (pos 10) (pos 100) ready).0 ≡ ok the_job_claim
unfolding claim_job_with_id validate_future_job_expiry ensure_open unique_claim transition
    execute_update push_event job_transition_error claimable claim_taken count_where update_where
claim_test = refl

others-IsForeign : All (IsForeign 7 40 (pos 100)) others
others-IsForeign = (
  tt,
  (
    λ e. refl,
    (λ e f. omega arith, (λ e f. omega arith, (λ e f. omega arith, (λ e. omega arith, tt)))),
  ),
)

abbrev claimed_job : JobRow
claimed_job = as_claimed 7 40 worker none (pos 10) (pos 100) ready (row_of render)

abbrev working : Store
working = record ready { jobs = claimed_job ∷ [] }

claimed_job-HoldsClaim : HoldsClaim 40 (pos 100) claimed_job
unfolding claim_columns
claimed_job-HoldsClaim = record { is_claimed = refl; has_token = refl; has_expiry = refl }

working_found : find_job 7 working.jobs ≡ some claimed_job
unfolding find_job
working_found = refl

ready-distinct : DistinctIds ready.jobs
unfolding find_job
ready-distinct = (refl, tt)

abbrev cancelled_job : JobRow
cancelled_job = record (row_of render) { state = cancelled }

cancelled_found : find_job 7 (cancelled_job ∷ []) ≡ some cancelled_job
unfolding find_job
cancelled_found = refl

abbrev by_then : Store
by_then = later 7 40 worker none (pos 10) (pos 100) ready the_job_claim ready-Inv claim_test others

fail_job-holder_example :
    ((fail_job 7 40 (pos 80) "disk full" by_then).0 ≡ ok tt)
    × (r : JobRow) × (find_job 7 by_then.jobs ≡ some r)
    × (find_job 7 (fail_job 7 40 (pos 80) "disk full" by_then).1.jobs
        ≡ some
            (record r { state = failed; claim = no_claim; failure_diagnostic = some "disk full" }))
fail_job-holder_example =
    fail_job-holder 7 40 worker none (pos 10) (pos 100) ready the_job_claim ready-Inv claim_test
      others others-IsForeign (pos 80) "disk full" refl

-- The same calls, and the job cancelled by one of the others.
abbrev with_cancel : List Call
with_cancel = cancel 7 ∷ others

with_cancel-IsWithoutToken : All (IsWithoutToken 7 40 (pos 100)) with_cancel
with_cancel-IsWithoutToken = (
  tt,
  (tt, (λ e. refl, (λ e f. omega arith, (λ e f. omega arith, (λ e f. omega arith, (tt, tt)))))),
)

abbrev cancelled_by_then : Store
cancelled_by_then =
    later 7 40 worker none (pos 10) (pos 100) ready the_job_claim ready-Inv claim_test with_cancel

fail_job-stale_example : fail_job 7 41 (pos 80) "disk full" cancelled_by_then ≡ (
  err (record { kind = conflict; message = "job cannot be failed by this claim" }),
  cancelled_by_then,
)
fail_job-stale_example =
    fail_job-stale 7 40 worker none (pos 10) (pos 100) ready the_job_claim ready-Inv claim_test
      with_cancel with_cancel-IsWithoutToken 41 (pos 80) "disk full" (λ e. omega arith)

perform_all-Inv_example :
    Inv (perform_all (claim 7 40 worker none (pos 10) (pos 100) ∷ others) ready).jobs
perform_all-Inv_example =
    perform_all-Inv (claim 7 40 worker none (pos 10) (pos 100) ∷ others) ready ready-Inv

perform_all-claimed_example : find_job 7 (perform_all others working).jobs ≡ some claimed_job
perform_all-claimed_example =
    perform_all-claimed others working 7 40 (pos 100) claimed_job working_found
      claimed_job-HoldsClaim others-IsForeign

perform_all-terminal_example :
    find_job 7 (perform_all others (record ready { jobs = cancelled_job ∷ [] })).jobs
    ≡ some cancelled_job
perform_all-terminal_example =
    perform_all-terminal others (record ready { jobs = cancelled_job ∷ [] }) 7 cancelled_job
      cancelled_found tt

claim_job_with_id-outcome_example :
    claim_job_with_id 7 40 worker none (pos 10) (pos 100) ready
    ≡ claim_outcome 7 40 worker none (pos 10) (pos 100) ready (find_job 7 ready.jobs)
claim_job_with_id-outcome_example =
    claim_job_with_id-outcome 7 40 worker none (pos 10) (pos 100) ready refl refl ready-distinct
