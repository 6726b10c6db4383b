-- ===== src/Storage/Jobs/Settled.antt =====
-- A claimed job over histories of calls that may cancel it.
use mathlib.Core.Option
use postproject.Base.{
  ℕ, ◌≡◌, ap, ◌∙◌, ◌⊎◌, inl, inr, false, some, List, [], ◌∷◌, if◌then◌else◌, All, Bool-cases,
}
use postproject.Base.Int.{ℤ}
use postproject.Storage.Jobs.Row.{JobRow}
use postproject.Storage.Jobs.Table.{find_job, matches, find_job-update}
use postproject.Storage.Jobs.Operations.{row_of}
use postproject.Storage.Jobs.Store.{Store}
use postproject.Storage.Jobs.Calls.{
  Call, request, claim, renew, release, fails, cancel, perform, perform_all, target, guard, change,
}
use postproject.Storage.Jobs.Effects.{perform-Effect}
use postproject.Storage.Jobs.Leases.{
  HoldsClaim, IsTerminal, IsForeign, guard-terminal, guard-foreign, perform-unguarded,
  find_job-append, change-id,
}

-- The call does not renew, release or fail job `j` with the token; if it claims the job, its clock
-- is before `expiry`.
abbrev pub IsWithoutToken : ℕ → ℕ → ℤ → Call → Type 0
IsWithoutToken j token expiry (cancel id) = Unit
IsWithoutToken j token expiry c = IsForeign j token expiry c

abbrev pub IsSettled : ℕ → ℤ → JobRow → Type 0
IsSettled token expiry r = HoldsClaim token expiry r ⊎ IsTerminal r.state

-- A row is found after a call as it was or as the call changes it.
perform-found :
    (c : Call) (s : Store) (j : ℕ) (r : JobRow)
    → find_job j s.jobs ≡ some r
    → (find_job j (perform c s).jobs ≡ some r) ⊎ (find_job j (perform c s).jobs ≡ some (change c r))
perform-found c s j r found = elim (perform-Effect c s) [
  | inl same ↦ inl (rw same found)
  | inr (inl updated) ↦
      let after =
        ap (find_job j) updated
        ∙ find_job-update (target c) (guard c) (change c) (change-id c) s.jobs j
        ∙ ap (Option.map (λ x. if matches (target c) (guard c) x then change c x else x)) found in
      elim (Bool-cases (matches (target c) (guard c) r)) [
        | inl y ↦ inr (after ∙ ap (λ b. some (if b then change c r else r)) y)
        | inr n ↦ inl (after ∙ ap (λ b. some (if b then change c r else r)) n)
      ]
  | inr (inr (job, _, _, added)) ↦
      inl (rw added (find_job-append j s.jobs (row_of job ∷ []) r found))
]

Unguarded : Call → ℕ → JobRow → Type 0
Unguarded c j r = target c ≡ j → guard c r ≡ false

settled-guard :
    (c : Call) (j token : ℕ) (expiry : ℤ) (r : JobRow)
    → IsSettled token expiry r
    → IsForeign j token expiry c
    → Unguarded c j r
unfolding Unguarded
settled-guard c j token expiry r (inl h) f = guard-foreign c j token expiry r h f
settled-guard c j token expiry r (inr t) f = λ _. guard-terminal c r t

-- Each call keeps a settled row settled.
Kept : ℕ → ℤ → ℕ → Store → Type 0
Kept token expiry j s = (q : JobRow) × (find_job j s.jobs ≡ some q) × IsSettled token expiry q

perform-settled :
    (c : Call) (s : Store) (j token : ℕ) (expiry : ℤ) (r : JobRow)
    → find_job j s.jobs ≡ some r
    → IsSettled token expiry r
    → IsWithoutToken j token expiry c
    → Kept token expiry j (perform c s)
unfolding Kept Unguarded
perform-settled (cancel id) s j token expiry r found h f =
    elim (perform-found (cancel id) s j r found) [
      | inl same ↦ (r, same, h)
      | inr changed ↦ (change (cancel id) r, changed, inr tt)
    ]
perform-settled (request job) s j token expiry r found h f =
    (r, perform-unguarded _ s j r found (settled-guard (request job) j token expiry r h f), h)
perform-settled (claim id t tool agent now expires_at) s j token expiry r found h f = (
  r,
  perform-unguarded _ s j r found
      (settled-guard (claim id t tool agent now expires_at) j token expiry r h f),
  h,
)
perform-settled (renew id t now expires_at) s j token expiry r found h f = (
  r,
  perform-unguarded _ s j r found (settled-guard (renew id t now expires_at) j token expiry r h f),
  h,
)
perform-settled (release id t) s j token expiry r found h f =
    (r, perform-unguarded _ s j r found (settled-guard (release id t) j token expiry r h f), h)
perform-settled (fails id t now diagnostic) s j token expiry r found h f = (
  r,
  perform-unguarded _ s j r found (settled-guard (fails id t now diagnostic) j token expiry r h f),
  h,
)

pub perform_all-IsSettled :
    (cs : List Call) (s : Store) (j token : ℕ) (expiry : ℤ) (r : JobRow)
    → find_job j s.jobs ≡ some r
    → IsSettled token expiry r
    → All (IsWithoutToken j token expiry) cs
    → (q : JobRow) × (find_job j (perform_all cs s).jobs ≡ some q) × IsSettled token expiry q
unfolding perform_all Kept
perform_all-IsSettled [] s j token expiry r found h a = (r, found, h)
perform_all-IsSettled (c ∷ cs) s j token expiry r found h a =
    let (q, next, settled) = perform-settled c s j token expiry r found h a.0 in
    perform_all-IsSettled cs (perform c s) j token expiry q next settled a.1
