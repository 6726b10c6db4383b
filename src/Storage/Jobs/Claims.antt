-- ===== src/Storage/Jobs/Claims.antt =====
-- `claim_job_with_id` of crates/postproject-storage-sqlite/src/transaction.rs, branch by branch.
use postproject.Base.{
  ℕ, ◌≡◌, refl, sym, ap, ◌∙◌, inl, inr, true, Option, none, some, [], ◌∷◌, ◌++◌, arith,
  if◌then◌else◌, Bool-cases, Option-cases, ok, err, Error, conflict, already_exists,
}
use postproject.Base.Int.{ℤ, ltb_ℤ}
use postproject.Storage.Jobs.Row.{JobRow, JobClaim, ToolIdentity, AgentIdentity, claimed}
use postproject.Storage.Jobs.Table.{
  find_job, matches, update_where, DistinctIds, count_where-some, count_where-none,
}
use postproject.Storage.Jobs.Operations.{
  claimable, claim_columns, claim_job_with_id, validate_future_job_expiry, unique_claim,
  claim_taken,
}
use postproject.Core.Transaction.{opened}
use postproject.Storage.Jobs.Store.{Store, ensure_open, job_claimed, Outcome}
use postproject.Storage.Jobs.Cases.{
  missing, transition-missing, transition-refused, transition-done,
}

abbrev pub not_claimable : Error
not_claimable = record { kind = conflict; message = "job is not claimable" }

abbrev pub token_taken : Error
token_taken = record { kind = already_exists; message = "claim job" }

module _ (id token : ℕ) (tool : ToolIdentity) (agent : Option AgentIdentity) (now expires_at : ℤ)
    (s : Store) where
  abbrev pub as_claimed : JobRow → JobRow
  as_claimed r = record r { state = claimed; claim = claim_columns token tool agent expires_at }

  -- The store after a claim.
  abbrev pub with_claim : Store
  with_claim = record s {
    jobs = update_where (matches id (claimable now)) as_claimed s.jobs;
    pending_events = s.pending_events ++ job_claimed id ∷ [];
  }

  abbrev pub the_claim : JobClaim
  the_claim = record { id = token; tool = tool; agent = agent; expires_at = expires_at }

  abbrev pub claim_outcome : Option JobRow → Outcome JobClaim
  claim_outcome none = (err missing, s)
  claim_outcome (some r) =
      if claimable now r
      then (if claim_taken token id s.jobs
          then (err token_taken, s)
          else (ok the_claim, with_claim))
      else (err not_claimable, s)

  module _ (is_opened : s.lifecycle ≡ opened) (future : ltb_ℤ now expires_at ≡ true)
      (distinct : DistinctIds s.jobs) where
    claim_found :
        (r : JobRow)
        → find_job id s.jobs ≡ some r
        → claim_job_with_id id token tool agent now expires_at s ≡ claim_outcome (some r)
    unfolding claim_job_with_id validate_future_job_expiry ensure_open unique_claim
    claim_found r e = elim (Bool-cases (claimable now r)) [
      | inl y ↦ ground (
        arith,
        count_where-some id (claimable now) as_claimed (λ _. refl) s.jobs r distinct e,
        transition-done id (claimable now) as_claimed "job is not claimable" (job_claimed id) s
            (λ _. refl) is_opened r distinct e y,
      )
      | inr n ↦ ground (
        arith,
        count_where-some id (claimable now) as_claimed (λ _. refl) s.jobs r distinct e,
        transition-refused id (claimable now) as_claimed "job is not claimable" (job_claimed id) s
            (λ _. refl) is_opened r distinct e n,
      )
    ]

    claim_missing :
        find_job id s.jobs ≡ none
        → claim_job_with_id id token tool agent now expires_at s ≡ claim_outcome none
    unfolding claim_job_with_id validate_future_job_expiry ensure_open unique_claim
    claim_missing e = ground (
      arith,
      count_where-none id (claimable now) as_claimed (λ _. refl) s.jobs e,
      transition-missing id (claimable now) as_claimed "job is not claimable" (job_claimed id) s
          (λ _. refl) is_opened e,
    )

    -- In an open transaction, with an expiry after the clock, the outcome of a claim is decided by
    -- the row: an absent job is not found; a row that is not claimable is a conflict; else a token
    -- that another row holds is refused; and else the row is claimed and the event is recorded.
    -- A failed claim leaves the whole store as it was.
    pub claim_job_with_id-outcome :
        claim_job_with_id id token tool agent now expires_at s ≡ claim_outcome (find_job id s.jobs)
    claim_job_with_id-outcome = elim (Option-cases (find_job id s.jobs)) [
      | inl e ↦ claim_missing e ∙ ap claim_outcome (sym e)
      | inr (r, e) ↦ claim_found r e ∙ ap claim_outcome (sym e)
    ]
