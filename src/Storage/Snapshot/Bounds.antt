-- ===== src/Storage/Snapshot/Bounds.antt =====
-- The numbering of the paths and the limits, over the steps of a capture of
-- crates/postproject-storage-sqlite/src/dependency_snapshot.rs.
use postproject.Base.{
  ℕ, ◌+◌, ◌≤◌, ◌<◌, ◌≡◌, refl, sym, ap, subst, ◌∙◌, ◌⊎◌, inl, inr, false, List, [], ◌∷◌, ◌++◌, suc,
  length, arith, In, length-append,
}
use mathlib.Core.List
use postproject.Base.Int.{ℤ, pos}
use postproject.Storage.Dependencies.Rows.{PathRow}
use postproject.Storage.Snapshot.Persist.{CaptureContext, as_bytes, max_dependency_representations}
use postproject.Storage.Snapshot.Capture.{contains, mark}
use postproject.Storage.Snapshot.Steps.{
  path_row, count_complete, count_complete-append, Step, issue, visit, Reach, start, continue,
}

-- The rows of the input have the positions from `i` on.
abbrev pub Numbered : ℤ → ℕ → List PathRow → Type 0
Numbered activity_input_id i [] = Unit {0}
Numbered activity_input_id i (r ∷ rs) =
    (r.position ≡ pos i)
    × (r.activity_input_id ≡ activity_input_id)
    × Numbered activity_input_id (i + 1) rs

abbrev pub Distinct : List ℕ → Type 0
Distinct [] = Unit {0}
Distinct (i ∷ is) = (contains i is ≡ false) × Distinct is

-- The rows that a capture has added to those before it.
pub record IsCaptured (activity_input_id : ℤ) (input_representation_id : ℕ) (before : List PathRow)
    (c : CaptureContext) : Type 0 where
  pub added : List PathRow
  pub rows : c.path_rows ≡ before ++ added
  pub numbered : Numbered activity_input_id 0 added
  pub next : c.next_path_position ≡ length added
  pub once : Distinct c.visited
  pub counted : length c.visited ≡ suc c.dependency_count
  pub bounded : c.dependency_count ≤ max_dependency_representations
  pub complete : count_complete added ≤ c.dependency_count
  pub seen :
      (i : ℕ)
      → In i c.visited
      → (i ≡ input_representation_id)
        ⊎ ((row : PathRow) × In row added × (row.subject ≡ as_bytes i))

Numbered-snoc :
    (activity_input_id : ℤ) (i : ℕ) (rs : List PathRow) (r : PathRow)
    → Numbered activity_input_id i rs
    → r.position ≡ pos (i + length rs)
    → r.activity_input_id ≡ activity_input_id
    → Numbered activity_input_id i (rs ++ r ∷ [])
Numbered-snoc a i [] r h p q = (p ∙ ap pos (omega arith), q, tt)
Numbered-snoc a i (x ∷ rs) r h p q =
    (h.0, h.1, Numbered-snoc a (i + 1) rs r h.2 (p ∙ ap pos (omega arith)) q)

In-snoc-left : {A : Type 0} (a b : A) (xs : List A) → In a xs → In a (xs ++ b ∷ [])
In-snoc-left a b [] m = elim m [ ]
In-snoc-left a b (x ∷ xs) (inl e) = inl e
In-snoc-left a b (x ∷ xs) (inr m) = inr (In-snoc-left a b xs m)

In-snoc-right : {A : Type 0} (b : A) (xs : List A) → In b (xs ++ b ∷ [])
In-snoc-right b [] = inl refl
In-snoc-right b (x ∷ xs) = inr (In-snoc-right b xs)

module _ (next_rowid : List PathRow → ℤ) (activity_input_id : ℤ) (input_representation_id : ℕ)
    (before : List PathRow) where
  abbrev pub Captured : CaptureContext → Type 0
  Captured = IsCaptured activity_input_id input_representation_id before

  complete_one :
      (status subject : ℕ) (c : CaptureContext)
      → count_complete (path_row next_rowid activity_input_id status subject c ∷ []) ≤ 1
  unfolding count_complete
  complete_one status subject c = ground arith

  complete_none :
      (status subject : ℕ) (c : CaptureContext)
      → 0 < status
      → count_complete (path_row next_rowid activity_input_id status subject c ∷ []) ≡ 0
  unfolding count_complete
  complete_none status subject c h = ground arith

  Step-Captured :
      {c c' : CaptureContext} → Step next_rowid activity_input_id c c' → Captured c → Captured c'
  Step-Captured {c} {c'} (issue status subject p q w) v =
      let row = path_row next_rowid activity_input_id status subject c in
      record {
        added = v.added ++ row ∷ [];
        rows =
            w.one_row
            ∙ ap (λ rs. rs ++ row ∷ []) v.rows
            ∙ List.append_assoc before v.added (row ∷ []);
        numbered =
            Numbered-snoc activity_input_id 0 v.added row v.numbered
              (ap pos (omega (arith, v.next))) refl;
        next = omega (arith, w.next_position, v.next, length-append v.added (row ∷ []));
        once = rw w.same_visited v.once;
        counted = ap length w.same_visited ∙ v.counted ∙ ap suc (sym w.same_count);
        bounded = omega (arith, w.same_count, v.bounded);
        complete = omega (
          arith,
          w.same_count,
          v.complete,
          complete_none status subject c p,
          count_complete-append v.added (row ∷ []),
        );
        seen = λ i m. elim (v.seen i (subst (In i) w.same_visited m)) [
          | inl e ↦ inl e
          | inr (r, n, e) ↦ inr (r, In-snoc-left r row v.added n, e)
        ];
      }
  Step-Captured {c} {c'} (visit status target p q r w) v =
      let row = path_row next_rowid activity_input_id status target (mark target c) in
      record {
        added = v.added ++ row ∷ [];
        rows =
            w.one_row
            ∙ ap (λ rs. rs ++ row ∷ []) v.rows
            ∙ List.append_assoc before v.added (row ∷ []);
        numbered =
            Numbered-snoc activity_input_id 0 v.added row v.numbered
              (ap pos (omega (arith, v.next))) refl;
        next = omega (arith, w.next_position, v.next, length-append v.added (row ∷ []));
        once = rw w.same_visited (q, v.once);
        counted = omega (arith, ap length w.same_visited, v.counted, w.same_count);
        bounded = omega (arith, w.same_count, v.bounded, r);
        complete = omega (
          arith,
          w.same_count,
          v.complete,
          complete_one status target (mark target c),
          count_complete-append v.added (row ∷ []),
        );
        seen = λ i m. elim (subst (In i) w.same_visited m) [
          | inl e ↦ inr (row, In-snoc-right row v.added, ap as_bytes (sym e))
          | inr n ↦ elim (v.seen i n) [
            | inl e ↦ inl e
            | inr (s, k, e) ↦ inr (s, In-snoc-left s row v.added k, e)
          ]
        ];
      }

  pub Reach-Captured :
      {c c' : CaptureContext} → Reach next_rowid activity_input_id c c' → Captured c → Captured c'
  Reach-Captured start v = v
  Reach-Captured (continue p s) v = Step-Captured s (Reach-Captured p v)
