-- ===== src/Storage/Jobs/Effects.antt =====
-- One job operation of crates/postproject-storage-sqlite/src/transaction.rs on the table of jobs,
-- branch by branch.
use Prim.Native.String.{String}
use postproject.Base.{
  ℕ, subst, ◌+◌, any, ◌≡◌, refl, inl, inr, Bool, false, not, ◌&&◌, Option, none, List, [], ◌∷◌,
  ◌++◌, arith, ok, err, if◌then◌else◌, Bool-cases, ◌==◌, sym, ap,
}
use postproject.Base.Int.{ℤ, ltb_ℤ}
use postproject.Storage.Jobs.Row.{ToolIdentity, AgentIdentity, JobClaim, JobRow}
use postproject.Storage.Jobs.Table.{update_where, job_exists, find_job, matches, count_where}
use postproject.Storage.Jobs.Operations.{
  JobRequest, row_of, request_job, claim_job_with_id, renew_job_claim, release_job_claim, fail_job,
  cancel_job, claimable, is_requested, root_missing, claim_taken, insert_request, inputs_exist,
  insert_inputs, insert_job, validate_future_job_expiry, unique_claim,
}
use postproject.Storage.Jobs.Store.{
  Store, Outcome, M, and_then, pure, transition, JobEvent, is_open, job_claimed, job_requested,
  ensure_open, push_event,
}
use postproject.Storage.Jobs.Calls.{
  Call, request, claim, renew, release, fails, cancel, perform, target, guard, change, Effect,
}

transition-jobs :
    (id : ℕ) (g : JobRow → Bool) (f : JobRow → JobRow) (m : String) (e : JobEvent) (s : Store)
    → (transition id g f m e s).1.jobs
      ≡ (if is_open s.lifecycle then update_where (matches id g) f s.jobs else s.jobs)
unfolding transition
transition-jobs id g f m e s = ground arith

inputs_exist-unchanged : (is : List ℕ) (s : Store) → (inputs_exist is s).1 ≡ s
unfolding inputs_exist
inputs_exist-unchanged [] s = refl
inputs_exist-unchanged (i ∷ is) s = ground (arith, inputs_exist-unchanged is s)

insert_inputs-jobs :
    (job position : ℕ) (is : List ℕ) (s : Store) → (insert_inputs job position is s).1.jobs ≡ s.jobs
unfolding insert_inputs
insert_inputs-jobs job position [] s = refl
insert_inputs-jobs job position (i ∷ is) s = ground (
  arith,
  insert_inputs-jobs job (position + 1) is
      (record s { job_inputs = s.job_inputs ++ (job, position, i) ∷ [] }),
)

job_exists-find_job-none :
    (id : ℕ) (rs : List JobRow) → job_exists id rs ≡ false → find_job id rs ≡ none
unfolding job_exists find_job
job_exists-find_job-none id [] h = refl
job_exists-find_job-none id (r ∷ rs) h = ground (arith, job_exists-find_job-none id rs)

-- A step after an operation that keeps the jobs.
followed :
    {A B : Type 0} (P : List JobRow → Type 0) (o : Outcome A) (f : A → M B)
    → ((a : A) (s : Store) → (f a s).1.jobs ≡ s.jobs)
    → P o.1.jobs
    → P (and_then o f).1.jobs
followed P (ok a, s) f keeps h = subst P (sym (keeps a s)) h
followed P (err e, s) f keeps h = h

transition-Effect :
    (c : Call) (m : String) (e : JobEvent) (s : Store)
    → Effect c s.jobs (transition (target c) (guard c) (change c) m e s).1.jobs
transition-Effect c m e s =
    let h = transition-jobs (target c) (guard c) (change c) m e s in
    elim (Bool-cases (is_open s.lifecycle)) [
      | inl y ↦ inr (inl (rw y at h))
      | inr n ↦ inl (rw n at h)
    ]

claim-Effect :
    (id token : ℕ) (tool : ToolIdentity) (agent : Option AgentIdentity) (now expires_at : ℤ)
    (s : Store)
    → let c = claim id token tool agent now expires_at in
      Effect c s.jobs (claim_job_with_id id token tool agent now expires_at s).1.jobs
unfolding claim_job_with_id validate_future_job_expiry ensure_open unique_claim
claim-Effect id token tool agent now expires_at s =
    let c : Call = claim id token tool agent now expires_at in
    elim (Bool-cases (ltb_ℤ now expires_at)) [
      | inr n ↦ rw n (inl refl)
      | inl y ↦ rw y (elim (Bool-cases (is_open s.lifecycle)) [
        | inr n ↦ rw n (inl refl)
        | inl y' ↦ rw y' (elim (Bool-cases (taken s)) [
          | inl t ↦ rw t (inl refl)
          | inr t ↦ rw t (
              followed (Effect c s.jobs)
                (transition id (claimable now) (change c) "job is not claimable" (job_claimed id) s)
                (λ _. pure claimed_as) (λ _ _. refl) (transition-Effect c _ _ s))
        ])
      ])
    ]
  where
    taken : Store → Bool
    taken s =
        not (count_where (matches id (claimable now)) s.jobs == 0) && claim_taken token id s.jobs

    claimed_as : JobClaim
    claimed_as = record { id = token; tool = tool; agent = agent; expires_at = expires_at }

push_event-jobs : (e : JobEvent) (s : Store) → (push_event e s).1.jobs ≡ s.jobs
unfolding push_event
push_event-jobs e s = refl

inserted-Effect :
    (job : JobRequest) (s : Store) → Effect (request job) s.jobs (insert_request job s).1.jobs
unfolding insert_request insert_job
inserted-Effect job s = elim (Bool-cases (job_exists job.id s.jobs)) [
  | inl y ↦ rw y (inl refl)
  | inr n ↦ rw n (
      followed (Effect (request job) s.jobs) (insert_inputs job.id 0 job.inputs with_row)
        (λ _. push_event (job_requested job.id)) (λ _ _. push_event-jobs _ _)
        (inr (
          inr (
            job,
            refl,
            job_exists-find_job-none job.id s.jobs n,
            insert_inputs-jobs job.id 0 job.inputs with_row,
          ))))
]
  where
    with_row : Store
    with_row = record s { jobs = s.jobs ++ row_of job ∷ [] }

then_insert-Effect :
    (job : JobRequest) (s : Store) (o : Outcome (Unit {0}))
    → o.1 ≡ s
    → Effect (request job) s.jobs (and_then o (λ _. insert_request job)).1.jobs
then_insert-Effect job s (ok a, s') e =
    subst (λ t. Effect (request job) s.jobs (insert_request job t).1.jobs) (sym e)
      (inserted-Effect job s)
then_insert-Effect job s (err x, s') e = inl (ap (λ t. t.jobs) e)

request-Effect :
    (job : JobRequest) (s : Store) → Effect (request job) s.jobs (request_job job s).1.jobs
unfolding request_job ensure_open
request-Effect job s = elim (Bool-cases (is_open s.lifecycle)) [
  | inr n ↦ rw n (inl refl)
  | inl y ↦ rw y (elim (Bool-cases (is_requested job.state)) [
    | inr n ↦ rw n (inl refl)
    | inl y' ↦ rw y' (elim (Bool-cases (root_missing job.target_root s.pending_roots)) [
      | inl m ↦ rw m (inl refl)
      | inr n ↦ rw n (elim (Bool-cases (any (λ a. a == job.asset_id) s.assets)) [
        | inr n' ↦ rw n' (inl refl)
        | inl y'' ↦ rw y'' (
            then_insert-Effect job s (inputs_exist job.inputs s)
              (inputs_exist-unchanged job.inputs s))
      ])
    ])
  ])
]

renew-Effect :
    (id token : ℕ) (now expires_at : ℤ) (s : Store)
    → Effect
        (renew id token now expires_at)
        s.jobs
        (renew_job_claim id token now expires_at s).1.jobs
unfolding renew_job_claim validate_future_job_expiry
renew-Effect id token now expires_at s = elim (Bool-cases (ltb_ℤ now expires_at)) [
  | inr n ↦ rw n (inl refl)
  | inl y ↦ rw y (transition-Effect (renew id token now expires_at) _ _ s)
]

-- What a call does to the jobs, on every branch.
pub perform-Effect : (c : Call) (s : Store) → Effect c s.jobs (perform c s).jobs
unfolding perform renew_job_claim validate_future_job_expiry release_job_claim fail_job cancel_job
perform-Effect (request job) s = request-Effect job s
perform-Effect (claim id token tool agent now expires_at) s =
    claim-Effect id token tool agent now expires_at s
perform-Effect (renew id token now expires_at) s = renew-Effect id token now expires_at s
perform-Effect (release id token) s = transition-Effect (release id token) _ _ s
perform-Effect (fails id token now diagnostic) s =
    transition-Effect (fails id token now diagnostic) _ _ s
perform-Effect (cancel id) s = transition-Effect (cancel id) _ _ s
