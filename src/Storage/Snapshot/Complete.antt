-- ===== src/Storage/Snapshot/Complete.antt =====
-- The result of a capture of crates/postproject-storage-sqlite/src/dependency_snapshot.rs, and
-- the representations that required dependencies lead to.
use postproject.Base.{
  ℕ, ◌+◌, ◌≡◌, refl, sym, subst, ap, ◌∙◌, ◌⊎◌, inl, inr, true, some, List, [], ◌∷◌, ◌++◌, arith, In,
  ok, Bool-cases, some_injective, ok_injective,
}
use mathlib.Core.List
use postproject.Base.Int.{ℤ, pos}
use postproject.Base.Sorting.{eq_ℤ, eq_ℤ-true}
use postproject.Core.Dependency.{Dependency, DependencySet}
use postproject.Storage.Dependencies.Rows.{PathRow, Production}
use postproject.Storage.Dependencies.Segments.{load_dependency_set}
use postproject.Storage.Snapshot.Persist.{CaptureContext, as_bytes}
use postproject.Storage.Snapshot.Capture.{target_of, capture, first_context}
use postproject.Storage.Snapshot.Steps.{
  count_issues, count_issues-append, count_complete, Reach-Grows,
}
use postproject.Storage.Snapshot.Bounds.{IsCaptured, Reach-Captured, Numbered}
use postproject.Storage.Snapshot.Knowledge.{Knows, Post, IsQuiet}
use postproject.Storage.Snapshot.Total.{HasBoundedSets, capture-Returns}

-- What the required dependencies of the recorded sets lead to.
pub data Required (production : Production) (input : ℕ) : ℕ → Type 0 where
  itself : Required production input input
  along :
      {i : ℕ} (set : DependencySet) (d : Dependency) (t : ℕ)
      → Required production input i
      → load_dependency_set production i ≡ some set
      → In d set.dependencies
      → d.required ≡ true
      → target_of d ≡ some t
      → Required production input t

-- The row of a complete path to a representation.
pub record IsCompletePath (activity_input_id : ℤ) (i : ℕ) (row : PathRow) : Type 0 where
  pub of_input : row.activity_input_id ≡ activity_input_id
  pub is_complete : row.status ≡ pos 0
  pub has_subject : row.subject ≡ as_bytes i

no_issue : (rs : List PathRow) (r : PathRow) → count_issues rs ≡ 0 → In r rs → r.status ≡ pos 0
unfolding count_issues
no_issue [] r h m = elim m [ ]
no_issue (x ∷ rs) r h m = elim (Bool-cases (eq_ℤ x.status (pos 0))) [
  | inr n ↦ absurd (omega (arith, rw n at h))
  | inl y ↦ elim m [
    | inl e ↦ subst (λ r. r.status ≡ pos 0) (sym e) (eq_ℤ-true x.status (pos 0) y)
    | inr k ↦ no_issue rs r (omega (arith, rw y at h)) k
  ]
]

Numbered-input :
    (activity_input_id : ℤ) (i : ℕ) (rs : List PathRow) (r : PathRow)
    → Numbered activity_input_id i rs
    → In r rs
    → r.activity_input_id ≡ activity_input_id
Numbered-input a i [] r h m = elim m [ ]
Numbered-input a i (x ∷ rs) r h (inl e) = ap (λ r. r.activity_input_id) e ∙ h.1
Numbered-input a i (x ∷ rs) r h (inr m) = Numbered-input a (i + 1) rs r h.2 m

In-append-right : {A : Type 0} (a : A) (xs ys : List A) → In a ys → In a (xs ++ ys)
In-append-right a [] ys m = m
In-append-right a (x ∷ xs) ys m = inr (In-append-right a xs ys m)

module _ (next_rowid : List PathRow → ℤ) (production : Production) (activity_input_id : ℤ)
    (bounded : HasBoundedSets production) (input : ℕ) where
  -- The rows after a capture, in the limits: see `IsCaptured`.
  abbrev pub IsBounded : CaptureContext → Type 0
  IsBounded = IsCaptured activity_input_id input production.path_rows

  first-IsBounded : IsBounded (first_context next_rowid production activity_input_id input)
  unfolding count_complete
  first-IsBounded = record {
    added = [];
    rows = sym (List.append-nil production.path_rows);
    numbered = tt;
    next = refl;
    once = (refl, tt);
    counted = refl;
    bounded = omega arith;
    complete = omega arith;
    seen = λ i m. elim m [ inl e ↦ inl e | inr k ↦ absurd k ];
  }

  module _ (c : CaptureContext)
      (captured : capture next_rowid production activity_input_id input ≡ ok c)
      (quiet : count_issues c.path_rows ≡ count_issues production.path_rows) where
    run :
        Post next_rowid production activity_input_id
          (Knows production input)
          (first_context next_rowid production activity_input_id input)
          c
    run =
        let (c', e, p) = capture-Returns next_rowid production activity_input_id bounded input in
        subst
          (Post next_rowid production activity_input_id (Knows production input)
            (first_context next_rowid production activity_input_id input))
          (ok_injective (sym e ∙ captured)) p

    still : IsQuiet (first_context next_rowid production activity_input_id input) c
    still = omega (arith, quiet)

    visited-Knows : (i : ℕ) → In i c.visited → Knows production i c
    visited-Knows i m = elim (run.fresh still i m) [
      | inr k ↦ k
      | inl (inl e) ↦ subst (λ i. Knows production i c) (sym e) (run.learnt still)
      | inl (inr n) ↦ absurd n
    ]

    input_visited : In input c.visited
    input_visited =
        (Reach-Grows next_rowid activity_input_id run.reach).visited_grows input (inl refl)

    Required-visited : {i : ℕ} → Required production input i → In i c.visited
    Required-visited itself = input_visited
    Required-visited (along {i} set d t r e m req f) =
        let (up, lead) = visited-Knows i (Required-visited r) set e in
        let (t', f', n) = lead d m req in
        subst (λ t. In t c.visited) (some_injective (sym f' ∙ f)) n

    -- Where no recorded set has more dependencies than a set may have and a capture adds no issue,
    -- every representation that required dependencies lead to from the input has dependencies that
    -- are up to date and whose required ones are all resolved; and, if it is not the input, a
    -- complete path to it is recorded.
    pub capture-Required :
        (i : ℕ)
        → Required production input i
        → Knows production i c
          × ((i ≡ input)
              ⊎ ((row : PathRow) × In row c.path_rows × IsCompletePath activity_input_id i row))
    capture-Required i r =
        let v =
          Reach-Captured next_rowid activity_input_id input production.path_rows run.reach
            first-IsBounded in
        (
          visited-Knows i (Required-visited r),
          elim (v.seen i (Required-visited r)) [
            | inl e ↦ inl e
            | inr (row, m, e) ↦ inr (
              row,
              rw v.rows (In-append-right row production.path_rows v.added m),
              record {
                of_input = Numbered-input activity_input_id 0 v.added row v.numbered m;
                is_complete = no_issue v.added row (none_added v) m;
                has_subject = e;
              },
            )
          ],
        )
      where
        none_added : (v : IsBounded c) → count_issues v.added ≡ 0
        none_added v =
            omega (
              arith,
              quiet,
              ap count_issues v.rows,
              count_issues-append production.path_rows v.added,
            )
