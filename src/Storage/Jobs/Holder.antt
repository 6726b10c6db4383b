-- ===== src/Storage/Jobs/Holder.antt =====
-- Calls of the holder of a claim, and of others, after the claim (over the operations of
-- crates/postproject-storage-sqlite/src/transaction.rs).
use mathlib.Core.Option
use Prim.Native.String.{String}
use postproject.Base.{
  inl, inr, ℕ, ◌≡◌, ◌≢◌, refl, sym, ap, ◌∙◌, Bool, true, false, Option, none, some, List, ◌∷◌,
  arith, if◌then◌else◌, ok, err, conflict, All,
}
use postproject.Base.Int.{ℤ, ltb_ℤ}
use postproject.Storage.Jobs.Row.{JobRow, JobClaim, ToolIdentity, AgentIdentity, failed, no_claim}
use postproject.Storage.Jobs.Table.{find_job, matches, find_job-update, update_where, DistinctIds}
use postproject.Storage.Jobs.Operations.{
  claimable, failable, claim_columns, claim_job_with_id, fail_job, validate_future_job_expiry,
}
use postproject.Core.Transaction.{opened}
use postproject.Storage.Jobs.Store.{Store, ensure_open, job_failed, is_open}
use postproject.Storage.Jobs.Calls.{Call, claim, fails, perform, perform_all, change}
use postproject.Storage.Jobs.Cases.{transition-refused, transition-done}
use postproject.Storage.Jobs.Claims.{
  claim_outcome, claim_job_with_id-outcome, as_claimed, with_claim,
}
use postproject.Storage.Jobs.Invariant.{Inv, perform_all-Inv}
use postproject.Storage.Jobs.Leases.{
  HoldsClaim, IsForeign, perform_all-claimed, find_job-id, guard-terminal,
}
use postproject.Storage.Jobs.Settled.{IsWithoutToken, perform_all-IsSettled}
use postproject.Storage.Jobs.Lifecycle.{perform-lifecycle, perform_all-lifecycle}

-- What the success of a claim says of its premises.
claim_ok-premises :
    (id token : ℕ) (tool : ToolIdentity) (agent : Option AgentIdentity) (now expires_at : ℤ)
    (s : Store) (c : JobClaim)
    → (claim_job_with_id id token tool agent now expires_at s).0 ≡ ok c
    → (is_open s.lifecycle ≡ true) × (ltb_ℤ now expires_at ≡ true)
unfolding claim_job_with_id validate_future_job_expiry ensure_open
claim_ok-premises id token tool agent now expires_at s c h = ground arith

is_open-opened : (s : Store) → is_open s.lifecycle ≡ true → s.lifecycle ≡ opened
is_open-opened s h = ground arith

claim_outcome-found :
    (id token : ℕ) (tool : ToolIdentity) (agent : Option AgentIdentity) (now expires_at : ℤ)
    (s : Store) (c : JobClaim) (o : Option JobRow)
    → (claim_outcome id token tool agent now expires_at s o).0 ≡ ok c
    → (r : JobRow) × (o ≡ some r)
      × (claimable now r ≡ true)
      × ((claim_outcome id token tool agent now expires_at s o).1
          ≡ with_claim id token tool agent now expires_at s)
claim_outcome-found id token tool agent now expires_at s c none h = cc
claim_outcome-found id token tool agent now expires_at s c (some r) h =
    (r, refl, ground arith, ground arith)

found_updated :
    (id : ℕ) (g : JobRow → Bool) (f : JobRow → JobRow)
    → ((x : JobRow) → (f x).id ≡ x.id)
    → (rs : List JobRow) (r : JobRow) → find_job id rs ≡ some r
    → g r ≡ true
    → find_job id (update_where (matches id g) f rs) ≡ some (f r)
found_updated id g f keeps rs r found y =
    find_job-update id g f keeps rs id
    ∙ ap (Option.map (λ x. if matches id g x then f x else x)) found
    ∙ ap (λ b. some (if b then f r else r)) (select (find_job-id id rs r found))
  where
    select : r.id ≡ id → matches id g r ≡ true
    select e = rw y (ground arith)

module _ (id token : ℕ) (tool : ToolIdentity) (agent : Option AgentIdentity) (now expires_at : ℤ)
    (s : Store) (c : JobClaim) (v : Inv s.jobs)
    (claims : (claim_job_with_id id token tool agent now expires_at s).0 ≡ ok c) where
  abbrev pub after_claim : Store
  after_claim = (claim_job_with_id id token tool agent now expires_at s).1

  claimed_row :
      (r : JobRow) × (find_job id after_claim.jobs
        ≡ some (as_claimed id token tool agent now expires_at s r))
  claimed_row =
      let premises = claim_ok-premises id token tool agent now expires_at s c claims in
      let outcome =
        claim_job_with_id-outcome id token tool agent now expires_at s (is_open-opened s premises.0)
          premises.1 v.distinct in
      let (r, found, matched, after) =
        claim_outcome-found id token tool agent now expires_at s c (find_job id s.jobs)
          (ap (λ o. o.0) (sym outcome) ∙ claims) in
      (
        r,
        ap (λ o. find_job id o.1.jobs) outcome
            ∙ ap (λ t. find_job id t.jobs) after
            ∙ found_updated id (claimable now) (as_claimed id token tool agent now expires_at s)
                (λ _. refl) s.jobs r found matched,
      )

  module _ (cs : List Call) where
    -- The store once the others have made their calls.
    abbrev pub later : Store
    later = perform_all cs after_claim

    later-opened : later.lifecycle ≡ opened
    unfolding perform
    later-opened =
        perform_all-lifecycle cs after_claim
        ∙ perform-lifecycle (claim id token tool agent now expires_at) s
        ∙ is_open-opened s (claim_ok-premises id token tool agent now expires_at s c claims).0

    later-distinct : DistinctIds later.jobs
    unfolding perform perform_all
    later-distinct = (perform_all-Inv (claim id token tool agent now expires_at ∷ cs) s v).distinct

    module _ (others : All (IsForeign id token expires_at) cs) where
      held_row : (r : JobRow) × (find_job id later.jobs ≡ some r) × HoldsClaim token expires_at r
      unfolding claim_columns
      held_row =
          let (r, found) = claimed_row in
          let held : HoldsClaim token expires_at
              (as_claimed id token tool agent now expires_at s r) =
            record { is_claimed = refl; has_token = refl; has_expiry = refl } in
          (
            as_claimed id token tool agent now expires_at s r,
            perform_all-claimed cs after_claim id token expires_at
                (as_claimed id token tool agent now expires_at s r) found held others,
            held,
          )

      -- From jobs that satisfy the invariant: after a successful claim, and whatever the others then
      -- do with other tokens, short of cancelling the job, before the claim expires, the holder of
      -- the token can fail the job at any time before the expiry: the call succeeds, and the job is
      -- then found failed, without a claim and with the diagnostic.
      pub fail_job-holder :
          (t : ℤ) (diagnostic : String)
          → ltb_ℤ t expires_at ≡ true
          → ((fail_job id token t diagnostic later).0 ≡ ok tt)
            × (r : JobRow) × (find_job id later.jobs ≡ some r)
            × (find_job id (fail_job id token t diagnostic later).1.jobs
                ≡ some (record r {
                  state = failed;
                  claim = no_claim;
                  failure_diagnostic = some diagnostic;
                }))
      unfolding fail_job failable
      fail_job-holder t diagnostic before =
          let (r, found, held) = held_row in
          let able : failable token t r ≡ true =
            ground (arith, held.is_claimed, held.has_token, held.has_expiry) in
          let done =
            transition-done id (failable token t) (change (fails id token t diagnostic))
              "job cannot be failed by this claim" (job_failed id) later (λ _. refl) later-opened r
              later-distinct found able in
          (
            ap (λ o. o.0) done,
            r,
            found,
            ap (λ o. find_job id o.1.jobs) done
                ∙ found_updated id (failable token t) (change (fails id token t diagnostic))
                    (λ _. refl) later.jobs r found able,
          )

    -- From jobs that satisfy the invariant: after a successful claim, and whatever calls follow that
    -- do not use its token to renew, release or fail the job, and claim the job only by a clock
    -- before its expiry - the job may be cancelled among them -, an attempt to fail the job with
    -- another token is a conflict at any time, and changes nothing.
    pub fail_job-stale :
        (without : All (IsWithoutToken id token expires_at) cs) (other : ℕ) (t : ℤ)
        (diagnostic : String)
        → other ≢ token
        → fail_job id other t diagnostic later ≡ (
          err (record { kind = conflict; message = "job cannot be failed by this claim" }),
          later,
        )
    unfolding fail_job failable claim_columns
    fail_job-stale without other t diagnostic ne =
        let (r, found) = claimed_row in
        let held : HoldsClaim token expires_at (as_claimed id token tool agent now expires_at s r) =
          record { is_claimed = refl; has_token = refl; has_expiry = refl } in
        let (q, kept, settled) =
          perform_all-IsSettled cs after_claim id token expires_at
            (as_claimed id token tool agent now expires_at s r) found (inl held) without in
        let unable : failable other t q ≡ false = elim settled [
          | inl h ↦ ground (arith, ne, h.is_claimed, h.has_token, h.has_expiry)
          | inr h ↦ guard-terminal (fails id other t diagnostic) q h
        ] in
        transition-refused id (failable other t) (change (fails id other t diagnostic))
          "job cannot be failed by this claim" (job_failed id) later (λ _. refl) later-opened q
          later-distinct kept unable
