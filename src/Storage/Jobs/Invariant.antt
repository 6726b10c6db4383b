-- ===== src/Storage/Jobs/Invariant.antt =====
-- The primary key of the `jobs` table and the `CHECK`s on the columns of its states and agents
-- (crates/postproject-storage-sqlite/src/migrations/009_jobs.sql), over histories of calls.
-- `UNIQUE (claim_id)` and the `CHECK`s on lengths are not part of it.
use mathlib.Core.Option
use postproject.Base.{
  ℕ, ◌≡◌, ◌≢◌, refl, ◌⊎◌, inl, inr, Bool, true, false, ◌&&◌, Option, none, some, List, [], ◌∷◌,
  ◌++◌, arith, ◌==◌, Bool-cases, All,
}
use postproject.Base.Int.{ℤ}
use postproject.Storage.Jobs.Row.{
  JobRow, JobStateKind, requested, claimed, succeeded, failed, cancelled, no_claim, ToolIdentity,
  AgentIdentity, ExternalIdentifier, IsChecked, StateColumns, AgentColumns, IsUnclaimed,
  HasNoOutcome, IsFilled,
}
use postproject.Storage.Jobs.Table.{
  find_job, matches, update_where, DistinctIds, update_where-DistinctIds,
}
use postproject.Storage.Jobs.Operations.{
  row_of, bind_qualifier, JobRequest, claimable, renewable, releasable, failable, claim_columns,
}
use postproject.Storage.Jobs.Store.{Store}
use postproject.Storage.Jobs.Calls.{
  Call, request, claim, renew, release, fails, cancel, perform, perform_all, target, guard, change,
}
use postproject.Storage.Jobs.Effects.{perform-Effect}
use postproject.Storage.Jobs.Leases.{change-id}

pub record Inv (rs : List JobRow) : Type 0 where
  pub distinct : DistinctIds rs
  pub checked : All IsChecked rs

All-update :
    (P : JobRow → Type 0) (p : JobRow → Bool) (f : JobRow → JobRow)
    → ((r : JobRow) → P r → p r ≡ true → P (f r))
    → (rs : List JobRow) → All P rs
    → All P (update_where p f rs)
unfolding update_where
All-update P p f keep [] a = tt
All-update P p f keep (r ∷ rs) a = (
  elim (Bool-cases (p r)) [ inl y ↦ rw y (keep r a.0 y) | inr n ↦ rw n a.0 ],
  All-update P p f keep rs a.1,
)

All-append :
    (P : JobRow → Type 0) (rs : List JobRow) (r : JobRow) → All P rs → P r → All P (rs ++ r ∷ [])
All-append P [] r a p = (p, tt)
All-append P (x ∷ rs) r a p = (a.0, All-append P rs r a.1 p)

find_job-append_none :
    (j : ℕ) (rs : List JobRow) (r : JobRow)
    → find_job j rs ≡ none
    → j ≢ r.id
    → find_job j (rs ++ r ∷ []) ≡ none
unfolding find_job
find_job-append_none j [] r h ne = ground arith
find_job-append_none j (x ∷ rs) r h ne = ground (arith, find_job-append_none j rs r)

DistinctIds-append :
    (rs : List JobRow) (r : JobRow)
    → DistinctIds rs
    → find_job r.id rs ≡ none
    → DistinctIds (rs ++ r ∷ [])
unfolding find_job
DistinctIds-append [] r d h = (refl, tt)
DistinctIds-append (x ∷ rs) r d h =
    (find_job-append_none x.id rs r d.0 (ground arith), DistinctIds-append rs r d.1 (ground arith))

row_of-IsChecked : (job : JobRequest) → IsChecked (row_of job)
row_of-IsChecked job = record {
  state_columns = (
    record { no_columns = refl },
    record { no_activity = refl; no_representation = refl; no_failure = refl },
  );
  agent_columns = inl (refl, refl, refl);
}

HasNoOutcome-of :
    (r : JobRow) (k : JobStateKind)
    → (k ≡ requested) ⊎ (k ≡ claimed)
    → StateColumns k r
    → HasNoOutcome r
HasNoOutcome-of r requested h c = c.1
HasNoOutcome-of r claimed h c = c.3
HasNoOutcome-of r succeeded h c = absurd (ground arith)
HasNoOutcome-of r failed h c = absurd (ground arith)
HasNoOutcome-of r cancelled h c = absurd (ground arith)

identifier_columns :
    (i : Option ExternalIdentifier)
    → ((Option.map (λ x. x.scheme) i ≡ none)
        × (Option.map (λ x. x.value) i ≡ none)
        × (bind_qualifier i ≡ none))
      ⊎ (IsFilled (Option.map (λ x. x.scheme) i) × IsFilled (Option.map (λ x. x.value) i))
identifier_columns none = inl (refl, refl, refl)
identifier_columns (some i) = inr ((i.scheme, refl), (i.value, refl))

claim_columns-AgentColumns :
    (token : ℕ) (tool : ToolIdentity) (agent : Option AgentIdentity) (expires_at : ℤ)
    → AgentColumns (claim_columns token tool agent expires_at)
unfolding claim_columns
claim_columns-AgentColumns token tool none expires_at = inl (refl, refl, refl)
claim_columns-AgentColumns token tool (some a) expires_at = identifier_columns a.identifier

-- A guarded row is requested or claimed.
guard_states :
    (c : Call) (r : JobRow) → guard c r ≡ true → (r.state ≡ requested) ⊎ (r.state ≡ claimed)
unfolding claimable renewable releasable failable
guard_states (request job) r g = cc
guard_states (claim id token tool agent now expires_at) r g = ground arith
guard_states (renew id token now expires_at) r g = ground arith
guard_states (release id token) r g = ground arith
guard_states (fails id token now diagnostic) r g = ground arith
guard_states (cancel id) r g = ground arith

renewable-claimed :
    (token : ℕ) (now expires_at : ℤ) (r : JobRow)
    → renewable token now expires_at r ≡ true
    → r.state ≡ claimed
unfolding renewable
renewable-claimed token now expires_at r g = ground arith

renewed-StateColumns :
    (e : ℤ) (r : JobRow) (k : JobStateKind)
    → k ≡ claimed
    → StateColumns k r
    → StateColumns k (record r { claim = record (r.claim) { claim_expires_at_micros = some e } })
renewed-StateColumns e r claimed h c = (
  c.0,
  c.1,
  (e, refl),
  record {
    no_activity = c.3.no_activity;
    no_representation = c.3.no_representation;
    no_failure = c.3.no_failure;
  },
)
renewed-StateColumns e r requested h c = absurd (ground arith)
renewed-StateColumns e r succeeded h c = absurd (ground arith)
renewed-StateColumns e r failed h c = absurd (ground arith)
renewed-StateColumns e r cancelled h c = absurd (ground arith)

change-IsChecked : (c : Call) (r : JobRow) → IsChecked r → guard c r ≡ true → IsChecked (change c r)
unfolding claim_columns
change-IsChecked c r h g = go c g (HasNoOutcome-of r r.state (guard_states c r g) h.state_columns)
  where
    none_columns : AgentColumns no_claim
    none_columns = inl (refl, refl, refl)

    unclaimed : {x : JobRow} → x.claim ≡ no_claim → IsUnclaimed x
    unclaimed e = record { no_columns = e }

    go : (c : Call) → guard c r ≡ true → HasNoOutcome r → IsChecked (change c r)
    go (request job) g o = h
    go (claim id token tool agent now expires_at) g o = record {
      state_columns = (
        (token, refl),
        (tool.name, refl),
        (expires_at, refl),
        record {
          no_activity = o.no_activity;
          no_representation = o.no_representation;
          no_failure = o.no_failure;
        },
      );
      agent_columns = claim_columns-AgentColumns token tool agent expires_at;
    }
    go (renew id token now expires_at) g o = record {
      state_columns =
          renewed-StateColumns expires_at r r.state (renewable-claimed token now expires_at r g)
            h.state_columns;
      agent_columns = h.agent_columns;
    }
    go (release id token) g o = record {
      state_columns = (
        record { no_columns = refl },
        record {
          no_activity = o.no_activity;
          no_representation = o.no_representation;
          no_failure = o.no_failure;
        },
      );
      agent_columns = none_columns;
    }
    go (fails id token now diagnostic) g o = record {
      state_columns =
          (record { no_columns = refl }, o.no_activity, o.no_representation, (diagnostic, refl));
      agent_columns = none_columns;
    }
    go (cancel id) g o = record {
      state_columns = (
        record { no_columns = refl },
        record {
          no_activity = o.no_activity;
          no_representation = o.no_representation;
          no_failure = o.no_failure;
        },
      );
      agent_columns = none_columns;
    }

-- A row that the `UPDATE` of a call matches is guarded.
matches-guard : (c : Call) (r : JobRow) → matches (target c) (guard c) r ≡ true → guard c r ≡ true
matches-guard c r h = second (r.id == target c) (guard c r) h
  where
    second : (a b : Bool) → (a && b) ≡ true → b ≡ true
    second true b h = h
    second false b h = cc

perform-Inv : (c : Call) (s : Store) → Inv s.jobs → Inv (perform c s).jobs
perform-Inv c s v = elim (perform-Effect c s) [
  | inl same ↦ rw same v
  | inr (inl updated) ↦ rw updated (record {
    distinct =
        update_where-DistinctIds (target c) (guard c) (change c) (change-id c) s.jobs v.distinct;
    checked =
        All-update IsChecked _ (change c) (λ r h m. change-IsChecked c r h (matches-guard c r m))
          s.jobs v.checked;
  })
  | inr (inr (job, _, fresh, added)) ↦ rw added (record {
    distinct = DistinctIds-append s.jobs (row_of job) v.distinct fresh;
    checked = All-append IsChecked s.jobs (row_of job) v.checked (row_of-IsChecked job);
  })
]

-- From jobs whose identities are distinct and whose rows have exactly the columns set that their
-- state requires: after every history of job operations both still hold.
pub perform_all-Inv : (cs : List Call) (s : Store) → Inv s.jobs → Inv (perform_all cs s).jobs
unfolding perform_all
perform_all-Inv [] s v = v
perform_all-Inv (c ∷ cs) s v = perform_all-Inv cs (perform c s) (perform-Inv c s v)
