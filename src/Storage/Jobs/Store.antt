-- ===== src/Storage/Jobs/Store.antt =====
-- What the job operations of `SqliteTransaction` read and write, as a state monad with errors, and
-- the guarded `UPDATE` of one job. No error of SQLite is raised here.
-- A message that the source formats with a value or a constant is given by its fixed words.
use Prim.Native.String.{String}
use postproject.Base.{
  ℕ, Bool, true, false, not, List, [], ◌∷◌, ◌++◌, ◌==◌, if◌then◌else◌, Result, ok, err, ErrorKind,
  not_found, conflict,
}
use postproject.Core.Transaction.{TransactionState, opened}
use postproject.Storage.Jobs.Row.{JobRow}
use postproject.Storage.Jobs.Table.{update_where, count_where, job_exists, matches}

pub data JobEvent : Type 0 where
  job_requested job_claimed job_claim_renewed job_claim_released : ℕ → JobEvent
  job_failed job_cancelled : ℕ → JobEvent

-- What the operations read and write: the tables, and the fields of the transaction.
pub record Store : Type 0 where
  pub lifecycle : TransactionState
  pub assets : List ℕ
  pub representations : List ℕ
  pub pending_roots : List String
  pub jobs : List JobRow
  pub job_inputs : List (ℕ × ℕ × ℕ)
  pub pending_events : List JobEvent

abbrev pub Outcome : Type 0 → Type 0
Outcome A = Result A × Store

abbrev pub M : Type 0 → Type 0
M A = Store → Outcome A

abbrev pub and_then : {A B : Type 0} → Outcome A → (A → M B) → Outcome B
and_then (ok a, s) f = f a s
and_then (err e, s) f = (err e, s)

infixl 5 ◌>>=◌ ◌>>◌
abbrev pub ◌>>=◌ : {A B : Type 0} → M A → (A → M B) → M B
◌>>=◌ m f s = and_then (m s) f

abbrev pub ◌>>◌ : {B : Type 0} → M (Unit {0}) → M B → M B
◌>>◌ m k s = and_then (m s) (λ _. k)

abbrev pub pure : {A : Type 0} → A → M A
pure a s = (ok a, s)

abbrev pub throw : {A : Type 0} → ErrorKind → String → M A
throw k m s = (err (record { kind = k; message = m }), s)

abbrev pub when_bad : Bool → ErrorKind → String → M (Unit {0})
when_bad true k m = throw k m
when_bad false k m = pure tt

abbrev pub is_open : TransactionState → Bool
is_open opened = true
is_open _ = false

unfoldable pub ensure_open : M (Unit {0})
ensure_open s = when_bad (not (is_open s.lifecycle)) conflict "transaction is already closed" s

-- `execute` of an `UPDATE`: the count of the rows that match.
unfoldable pub execute_update : (JobRow → Bool) → (JobRow → JobRow) → M ℕ
execute_update p f s = (ok (count_where p s.jobs), record s { jobs = update_where p f s.jobs })

unfoldable pub push_event : JobEvent → M (Unit {0})
push_event e s = (ok tt, record s { pending_events = s.pending_events ++ e ∷ [] })

unfoldable pub job_transition_error : {A : Type 0} → ℕ → String → M A
job_transition_error id conflict_message s =
    if job_exists id s.jobs
    then throw conflict conflict_message s
    else throw not_found "job does not exist" s

-- One guarded `UPDATE` with its error and its event.
unfoldable pub transition :
    ℕ → (JobRow → Bool) → (JobRow → JobRow) → String → JobEvent → M (Unit {0})
unfolding ensure_open execute_update push_event job_transition_error
transition id condition change message event = do
  ensure_open
  changed ← execute_update (matches id condition) change
  if changed == 0 then job_transition_error id message else push_event event
