-- ===== src/Storage/Snapshot/Knowledge.antt =====
-- What a part of a capture has learnt where it has recorded no issue: the visited representations
-- whose required dependencies all lead to visited ones.
use postproject.Base.{
  ℕ, ◌≤◌, ◌<◌, ◌≡◌, refl, sym, subst, ◌⊎◌, inl, inr, true, false, some, List, arith, In, Result, ok,
  ◌>>=◌,
}
use postproject.Base.Int.{ℤ}
use postproject.Core.Dependency.{Dependency, DependencySet}
use postproject.Storage.Dependencies.Rows.{PathRow, Production}
use postproject.Storage.Dependencies.Segments.{load_dependency_set, waits}
use postproject.Storage.Snapshot.Persist.{CaptureContext, max_dependency_representations}
use postproject.Storage.Snapshot.Capture.{target_of, contains, mark}
use postproject.Storage.Snapshot.Steps.{
  count_issues, Written, Step, issue, visit, Reach, start, continue, Reach-trans, Grows,
  Reach-Grows, row_issues,
}

-- A run that succeeds, with what holds of the context after it.
abbrev pub Returns : (CaptureContext → Type 0) → Result CaptureContext → Type 0
Returns Q r = (c : CaptureContext) × (r ≡ ok c) × Q c

pub Returns-bind :
    {Q R : CaptureContext → Type 0} (r : Result CaptureContext)
    (f : CaptureContext → Result CaptureContext)
    → Returns Q r
    → ((c : CaptureContext) → Q c → Returns R (f c))
    → Returns R (r >>= f)
Returns-bind {Q} {R} r f (c, e, q) k = subst (λ r. Returns R (r >>= f)) (sym e) (k c q)

-- No issue is recorded between the two contexts.
abbrev pub IsQuiet : CaptureContext → CaptureContext → Type 0
IsQuiet c c' = count_issues c'.path_rows ≤ count_issues c.path_rows

-- The dependency is resolved to a visited representation.
abbrev pub LeadsTo : List ℕ → Dependency → Type 0
LeadsTo visited d = (t : ℕ) × (target_of d ≡ some t) × In t visited

abbrev pub AllLead : List ℕ → List Dependency → Type 0
AllLead visited ds = (d : Dependency) → In d ds → d.required ≡ true → LeadsTo visited d

module _ (production : Production) where
  -- The recorded dependencies are up to date, and the required ones lead to visited ones.
  abbrev pub Knows : ℕ → CaptureContext → Type 0
  Knows i c =
      (set : DependencySet)
      → load_dependency_set production i ≡ some set
      → (waits set.status ≡ false) × AllLead c.visited set.dependencies

module _ (next_rowid : List PathRow → ℤ) (production : Production) (activity_input_id : ℤ) where
  pub record Post (K : CaptureContext → Type 0) (c c' : CaptureContext) : Type 0 where
    pub reach : Reach next_rowid activity_input_id c c'
    pub learnt : IsQuiet c c' → K c'
    pub fresh : IsQuiet c c' → (i : ℕ) → In i c'.visited → (In i c.visited) ⊎ Knows production i c'

  abbrev pub IsKept : (CaptureContext → Type 0) → Type 0
  IsKept K = (c c' : CaptureContext) → Grows next_rowid activity_input_id c c' → K c → K c'

  pub Knows-IsKept : (i : ℕ) → IsKept (Knows production i)
  Knows-IsKept i c c' g k set e =
      let (up, lead) = k set e in
      (up, λ d m r. (let (t, f, n) = lead d m r in (t, f, g.visited_grows t n)))

  pub Post-trans :
      (K L : CaptureContext → Type 0)
      → IsKept K
      → {c c' c'' : CaptureContext} → Post K c c'
      → Post L c' c''
      → Post (λ x. K x × L x) c c''
  Post-trans K L kept {c} {c'} {c''} p q =
      let g = Reach-Grows next_rowid activity_input_id p.reach in
      let h = Reach-Grows next_rowid activity_input_id q.reach in
      record {
        reach = Reach-trans next_rowid activity_input_id p.reach q.reach;
        learnt = λ quiet. (
          kept c' c'' h (p.learnt (omega (arith, h.issues_grow))),
          q.learnt (omega (arith, g.issues_grow)),
        );
        fresh = λ quiet i m. elim (q.fresh (omega (arith, g.issues_grow)) i m) [
          | inr k ↦ inr k
          | inl n ↦ elim (p.fresh (omega (arith, h.issues_grow)) i n) [
            | inl o ↦ inl o
            | inr k ↦ inr (Knows-IsKept i c' c'' h k)
          ]
        ];
      }

  pub Post-weaken :
      (K L : CaptureContext → Type 0)
      → ((c : CaptureContext) → K c → L c)
      → {c c' : CaptureContext} → Post K c c'
      → Post L c c'
  Post-weaken K L f {c} {c'} p = record {
    reach = p.reach;
    learnt = λ quiet. f c' (p.learnt quiet);
    fresh = p.fresh;
  }

  pub Post-stay : (K : CaptureContext → Type 0) (c : CaptureContext) → K c → Post K c c
  Post-stay K c k = record { reach = start; learnt = λ _. k; fresh = λ _ i m. inl m }

  -- After an issue nothing is claimed.
  loud-Post :
      (K : CaptureContext → Type 0) {c c' : CaptureContext}
      → Step next_rowid activity_input_id c c'
      → count_issues c.path_rows < count_issues c'.path_rows
      → Post K c c'
  loud-Post K {c} {c'} s lt = record {
    reach = continue start s;
    learnt = λ quiet. absurd (omega (arith, lt, quiet));
    fresh = λ quiet. absurd (omega (arith, lt, quiet));
  }

  one_more :
      (status subject : ℕ) (c c' : CaptureContext)
      → 0 < status
      → Written next_rowid activity_input_id status subject c c'
      → count_issues c.path_rows < count_issues c'.path_rows
  one_more status subject c c' p w =
      ground (arith, row_issues next_rowid activity_input_id status subject c c' w)

  pub issue-Post :
      (K : CaptureContext → Type 0) (status subject : ℕ) (c c' : CaptureContext)
      → 0 < status
      → status ≤ 4
      → Written next_rowid activity_input_id status subject c c'
      → Post K c c'
  issue-Post K status subject c c' p q w =
      loud-Post K (issue status subject p q w) (one_more status subject c c' p w)

  -- The first visit of a target, with an issue or with what the rest learns of the target.
  module _ (target : ℕ) (c : CaptureContext) (unseen : contains target c.visited ≡ false)
      (below : ¬ (c.dependency_count ≡ max_dependency_representations)) where
    pub visited_issue-Post :
        (K : CaptureContext → Type 0) (status : ℕ) (c' : CaptureContext)
        → 0 < status
        → status ≤ 4
        → Written next_rowid activity_input_id status target (mark target c) c'
        → Post K c c'
    visited_issue-Post K status c' p q w =
        loud-Post K (visit status target q unseen below w)
          (one_more status target (mark target c) c' p w)

    pub visited-Post :
        (c' c'' : CaptureContext)
        → Written next_rowid activity_input_id 0 target (mark target c) c'
        → Post (Knows production target) c' c''
        → Post (λ x. In target x.visited) c c''
    visited-Post c' c'' w p =
        let g = Reach-Grows next_rowid activity_input_id p.reach in
        let same : count_issues c'.path_rows ≡ count_issues c.path_rows =
          ground (arith, row_issues next_rowid activity_input_id 0 target (mark target c) c' w) in
        record {
          reach =
              Reach-trans next_rowid activity_input_id
                (continue start (visit 0 target (omega arith) unseen below w)) p.reach;
          learnt = λ _. g.visited_grows target (rw w.same_visited (inl refl));
          fresh = λ quiet i m. elim (p.fresh (omega (arith, same)) i m) [
            | inr k ↦ inr k
            | inl n ↦ elim (subst (In i) w.same_visited n) [
              | inl e ↦
                  inr (subst (λ j. Knows production j c'') (sym e) (p.learnt (omega (arith, same))))
              | inr o ↦ inl o
            ]
          ];
        }
