-- ===== src/Storage/Jobs/Leases.antt =====
-- One job over histories of calls of the job operations.
use mathlib.Core.Option
use postproject.Base.{
  ℕ, ◌≡◌, ◌≢◌, refl, ap, ◌∙◌, inl, inr, Bool, true, false, ◌&&◌, some, List, [], ◌∷◌, ◌++◌, arith,
  if◌then◌else◌, ◌==◌, All, Bool-cases,
}
use mathlib.Core.Bool.{true≢false}
use postproject.Base.Int.{ℤ, ltb_ℤ}
use postproject.Storage.Jobs.Row.{
  JobRow, JobStateKind, requested, claimed, succeeded, failed, cancelled,
}
use postproject.Storage.Jobs.Table.{find_job, matches, find_job-update}
use postproject.Storage.Jobs.Operations.{
  row_of, is_requested, is_claimed, claimable, renewable, releasable, failable,
}
use postproject.Storage.Jobs.Store.{Store}
use postproject.Storage.Jobs.Calls.{
  Call, request, claim, renew, release, fails, cancel, perform, perform_all, target, guard, change,
}
use postproject.Storage.Jobs.Effects.{perform-Effect}

pub find_job-id : (j : ℕ) (rs : List JobRow) (r : JobRow) → find_job j rs ≡ some r → r.id ≡ j
unfolding find_job
find_job-id j [] r h = cc
find_job-id j (x ∷ rs) r h = ground (arith, find_job-id j rs r)

pub find_job-append :
    (j : ℕ) (rs xs : List JobRow) (r : JobRow)
    → find_job j rs ≡ some r
    → find_job j (rs ++ xs) ≡ some r
unfolding find_job
find_job-append j [] xs r h = cc
find_job-append j (x ∷ rs) xs r h = ground (arith, find_job-append j rs xs r)

pub change-id : (c : Call) (r : JobRow) → (change c r).id ≡ r.id
change-id (request job) r = refl
change-id (claim id token tool agent now expires_at) r = refl
change-id (renew id token now expires_at) r = refl
change-id (release id token) r = refl
change-id (fails id token now diagnostic) r = refl
change-id (cancel id) r = refl

pub unmatched : (a t : ℕ) (g : Bool) → (t ≡ a → g ≡ false) → (a == t && g) ≡ false
unmatched a t true h = elim (Bool-cases (a == t)) [
  | inl y ↦ absurd (true≢false (h (ground arith)))
  | inr n ↦ rw n
]
unmatched a t false h = ground arith

-- A row that the call does not guard is found as it was.
pub perform-unguarded :
    (c : Call) (s : Store) (j : ℕ) (r : JobRow)
    → find_job j s.jobs ≡ some r
    → (target c ≡ j → guard c r ≡ false)
    → find_job j (perform c s).jobs ≡ some r
perform-unguarded c s j r found unguarded = elim (perform-Effect c s) [
  | inl same ↦ rw same found
  | inr (inl updated) ↦ rw updated (
      find_job-update (target c) (guard c) (change c) (change-id c) s.jobs j
      ∙ ap (Option.map (λ x. if matches (target c) (guard c) x then change c x else x)) found
      ∙ ap (λ b. some (if b then change c r else r))
          (unmatched r.id (target c) (guard c r)
            (λ e. unguarded (e ∙ find_job-id j s.jobs r found))))
  | inr (inr (job, _, _, added)) ↦ rw added (find_job-append j s.jobs (row_of job ∷ []) r found)
]

abbrev pub IsTerminal : JobStateKind → Type 0
IsTerminal requested = ⊥
IsTerminal claimed = ⊥
IsTerminal succeeded = Unit
IsTerminal failed = Unit
IsTerminal cancelled = Unit

terminal_tests :
    (k : JobStateKind) → IsTerminal k → (is_requested k ≡ false) × (is_claimed k ≡ false)
terminal_tests requested t = absurd t
terminal_tests claimed t = absurd t
terminal_tests succeeded t = (refl, refl)
terminal_tests failed t = (refl, refl)
terminal_tests cancelled t = (refl, refl)

pub guard-terminal : (c : Call) (r : JobRow) → IsTerminal r.state → guard c r ≡ false
unfolding claimable renewable releasable failable
guard-terminal (request job) r t = refl
guard-terminal (claim id token tool agent now expires_at) r t =
    ground (arith, terminal_tests r.state t)
guard-terminal (renew id token now expires_at) r t = ground (arith, terminal_tests r.state t)
guard-terminal (release id token) r t = ground (arith, terminal_tests r.state t)
guard-terminal (fails id token now diagnostic) r t = ground (arith, terminal_tests r.state t)
guard-terminal (cancel id) r t = ground (arith, terminal_tests r.state t)

-- A job that has succeeded, failed or been cancelled stays exactly as it is under every further
-- history of operations.
pub perform_all-terminal :
    (cs : List Call) (s : Store) (j : ℕ) (r : JobRow)
    → find_job j s.jobs ≡ some r
    → IsTerminal r.state
    → find_job j (perform_all cs s).jobs ≡ some r
unfolding perform_all
perform_all-terminal [] s j r found t = found
perform_all-terminal (c ∷ cs) s j r found t =
    perform_all-terminal cs (perform c s) j r
      (perform-unguarded c s j r found (λ _. guard-terminal c r t)) t

-- The call is not made with the token of the claim on job `j`, and is no cancellation of it; if it
-- claims the job, its clock is before `expiry`.
abbrev pub IsForeign : ℕ → ℕ → ℤ → Call → Type 0
IsForeign j token expiry (request job) = Unit
IsForeign j token expiry (claim id _ _ _ now _) = id ≡ j → ltb_ℤ now expiry ≡ true
IsForeign j token expiry (renew id t _ _) = id ≡ j → t ≢ token
IsForeign j token expiry (release id t) = id ≡ j → t ≢ token
IsForeign j token expiry (fails id t _ _) = id ≡ j → t ≢ token
IsForeign j token expiry (cancel id) = id ≢ j

-- The row is claimed with the token, until the expiry.
pub record HoldsClaim (token : ℕ) (expiry : ℤ) (r : JobRow) : Type 0 where
  pub is_claimed : r.state ≡ claimed
  pub has_token : r.claim_id ≡ some token
  pub has_expiry : r.claim_expires_at_micros ≡ some expiry

pub guard-foreign :
    (c : Call) (j token : ℕ) (expiry : ℤ) (r : JobRow)
    → HoldsClaim token expiry r
    → IsForeign j token expiry c
    → target c ≡ j
    → guard c r ≡ false
unfolding claimable renewable releasable failable
guard-foreign (request job) j token expiry r h f e = refl
guard-foreign (claim id t tool agent now expires_at) j token expiry r h f e = ground (arith, f e)
guard-foreign (renew id t now expires_at) j token expiry r h f e = ground (arith, f e)
guard-foreign (release id t) j token expiry r h f e = ground (arith, f e)
guard-foreign (fails id t now diagnostic) j token expiry r h f e = ground (arith, f e)
guard-foreign (cancel id) j token expiry r h f e = absurd (f e)

-- A claim is exclusive: until its expiry, whatever the others do with other tokens, with requests
-- or with claims whose clock is before the expiry, the claimed job stays exactly as it is.
pub perform_all-claimed :
    (cs : List Call) (s : Store) (j token : ℕ) (expiry : ℤ) (r : JobRow)
    → find_job j s.jobs ≡ some r
    → HoldsClaim token expiry r
    → All (IsForeign j token expiry) cs
    → find_job j (perform_all cs s).jobs ≡ some r
unfolding perform_all
perform_all-claimed [] s j token expiry r found h a = found
perform_all-claimed (c ∷ cs) s j token expiry r found h a =
    perform_all-claimed cs (perform c s) j token expiry r
      (perform-unguarded c s j r found (guard-foreign c j token expiry r h a.0)) h a.1
