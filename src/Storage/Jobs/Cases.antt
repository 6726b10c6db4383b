-- ===== src/Storage/Jobs/Cases.antt =====
-- What a guarded `UPDATE` of one job does, case by case.
use Prim.Native.String.{String}
use postproject.Base.{
  ℕ, ◌≡◌, refl, Bool, true, false, Option, none, some, List, [], ◌∷◌, ◌++◌, arith, ok, err, Error,
  not_found, conflict,
}
use postproject.Storage.Jobs.Row.{JobRow}
use postproject.Storage.Jobs.Table.{
  update_where, count_where, job_exists, find_job, DistinctIds, matches, count_where-none,
  count_where-some,
}
use postproject.Core.Transaction.{opened}
use postproject.Storage.Jobs.Store.{Store, JobEvent, transition}

abbrev is_some : {A : Type 0} → Option A → Bool
is_some none = false
is_some (some a) = true

job_exists-find_job : (id : ℕ) (rs : List JobRow) → job_exists id rs ≡ is_some (find_job id rs)
unfolding job_exists find_job
job_exists-find_job id [] = refl
job_exists-find_job id (r ∷ rs) = ground (arith, job_exists-find_job id rs)

-- Where no row matches, nothing changes.
update_where_unmatched :
    (p : JobRow → Bool) (f : JobRow → JobRow) (rs : List JobRow)
    → count_where p rs ≡ 0
    → update_where p f rs ≡ rs
unfolding count_where update_where
update_where_unmatched p f [] h = refl
update_where_unmatched p f (r ∷ rs) h = ground (arith, update_where_unmatched p f rs)

pub missing : Error
missing = record { kind = not_found; message = "job does not exist" }

module _ (id : ℕ) (c : JobRow → Bool) (f : JobRow → JobRow) (m : String) (e : JobEvent) (s : Store)
    (keeps_id : (r : JobRow) → (f r).id ≡ r.id) (is_open : s.lifecycle ≡ opened) where
  pub transition-missing : find_job id s.jobs ≡ none → transition id c f m e s ≡ (err missing, s)
  unfolding transition missing
  transition-missing h = ground (
    arith,
    count_where-none id c f keeps_id s.jobs h,
    job_exists-find_job id s.jobs,
    update_where_unmatched (matches id c) f s.jobs,
  )

  pub transition-refused :
      (r : JobRow)
      → DistinctIds s.jobs
      → find_job id s.jobs ≡ some r
      → c r ≡ false
      → transition id c f m e s ≡ (err (record { kind = conflict; message = m }), s)
  unfolding transition
  transition-refused r d h no_match = ground (
    arith,
    count_where-some id c f keeps_id s.jobs r d h,
    job_exists-find_job id s.jobs,
    update_where_unmatched (matches id c) f s.jobs,
  )

  pub transition-done :
      (r : JobRow)
      → DistinctIds s.jobs
      → find_job id s.jobs ≡ some r
      → c r ≡ true
      → transition id c f m e s ≡ (
        ok tt,
        record s {
          jobs = update_where (matches id c) f s.jobs;
          pending_events = s.pending_events ++ e ∷ [];
        },
      )
  unfolding transition
  transition-done r d h match = ground (arith, count_where-some id c f keeps_id s.jobs r d h)
