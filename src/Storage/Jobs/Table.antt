-- ===== src/Storage/Jobs/Table.antt =====
-- `UPDATE jobs SET … WHERE id = ? AND …` and its count of changed rows, and lookups by identity.
use mathlib.Core.Option
use postproject.Base.{
  ℕ, ◌+◌, ◌≡◌, refl, sym, ap, subst, ◌∙◌, Bool, false, ◌&&◌, ◌||◌, Option, none, some, List, [],
  ◌∷◌, arith, ◌==◌, if◌then◌else◌,
}
use postproject.Storage.Jobs.Row.{JobRow}

unfoldable pub update_where : (JobRow → Bool) → (JobRow → JobRow) → List JobRow → List JobRow
update_where p f [] = []
update_where p f (r ∷ rs) = (if p r then f r else r) ∷ update_where p f rs

unfoldable pub count_where : (JobRow → Bool) → List JobRow → ℕ
count_where p [] = 0
count_where p (r ∷ rs) = (if p r then 1 else 0) + count_where p rs

-- `SELECT EXISTS(SELECT 1 FROM jobs WHERE id = ?1)`.
unfoldable pub job_exists : ℕ → List JobRow → Bool
job_exists id [] = false
job_exists id (r ∷ rs) = (r.id == id) || job_exists id rs

unfoldable pub find_job : ℕ → List JobRow → Option JobRow
find_job id [] = none
find_job id (r ∷ rs) = if r.id == id then some r else find_job id rs

-- `id BLOB PRIMARY KEY`.
abbrev pub DistinctIds : List JobRow → Type 0
DistinctIds [] = Unit {0}
DistinctIds (r ∷ rs) = (find_job r.id rs ≡ none) × DistinctIds rs

-- The `WHERE` clause of every transition.
abbrev pub matches : ℕ → (JobRow → Bool) → JobRow → Bool
matches id c r = r.id == id && c r

module _ (id : ℕ) (c : JobRow → Bool) (f : JobRow → JobRow)
    (keeps_id : (r : JobRow) → (f r).id ≡ r.id) where
  pub count_where-none :
      (rs : List JobRow) → find_job id rs ≡ none → count_where (matches id c) rs ≡ 0
  unfolding count_where find_job
  count_where-none [] h = refl
  count_where-none (r ∷ rs) h = ground (arith, count_where-none rs)

  pub count_where-some :
      (rs : List JobRow) (r : JobRow)
      → DistinctIds rs
      → find_job id rs ≡ some r
      → count_where (matches id c) rs ≡ (if c r then 1 else 0)
  unfolding count_where find_job
  count_where-some [] r d h = cc
  count_where-some (x ∷ rs) r d h = ground (arith, count_where-none rs, count_where-some rs r d.1)

  -- A row is found as before, changed if it matches.
  pub find_job-update :
      (rs : List JobRow) (j : ℕ)
      → find_job j (update_where (matches id c) f rs)
        ≡ Option.map (λ r. if matches id c r then f r else r) (find_job j rs)
  unfolding update_where find_job
  find_job-update [] j = refl
  find_job-update (r ∷ rs) j = ground (arith, keeps_id r, find_job-update rs j)

  pub update_where-DistinctIds :
      (rs : List JobRow) → DistinctIds rs → DistinctIds (update_where (matches id c) f rs)
  unfolding update_where
  update_where-DistinctIds [] d = tt
  update_where-DistinctIds (r ∷ rs) d = (
    subst (λ k. find_job k (update_where (matches id c) f rs) ≡ none) (sym same_id)
        (find_job-update rs r.id ∙ ap (Option.map (λ r. if matches id c r then f r else r)) d.0),
    update_where-DistinctIds rs d.1,
  )
    where
      same_id : (if matches id c r then f r else r).id ≡ r.id
      same_id = ground (arith, keeps_id r)
