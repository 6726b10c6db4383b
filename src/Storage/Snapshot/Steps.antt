-- ===== src/Storage/Snapshot/Steps.antt =====
-- The capture of crates/postproject-storage-sqlite/src/dependency_snapshot.rs as steps, each of which
-- writes one path: of an issue, or of a representation that it visits for the first time.
use postproject.Base.{
  ℕ, ◌+◌, ◌≤◌, ◌<◌, ◌≡◌, ◌≢◌, ◌∙◌, inr, false, List, [], ◌∷◌, ◌++◌, arith, In, if◌then◌else◌,
}
use postproject.Base.Int.{ℤ, pos}
use postproject.Base.Sorting.{eq_ℤ}
use postproject.Storage.Dependencies.Rows.{PathRow}
use postproject.Storage.Snapshot.Persist.{CaptureContext, as_bytes, max_dependency_representations}
use postproject.Storage.Snapshot.Capture.{contains, mark}

abbrev pub path_row : (List PathRow → ℤ) → ℤ → ℕ → ℕ → CaptureContext → PathRow
path_row next_rowid activity_input_id status subject c = record {
  id = next_rowid c.path_rows;
  activity_input_id = activity_input_id;
  position = pos c.next_path_position;
  status = pos status;
  subject = as_bytes subject;
}

-- The rows that record no complete path, and those that do.
unfoldable pub count_issues : List PathRow → ℕ
count_issues [] = 0
count_issues (r ∷ rs) = (if eq_ℤ r.status (pos 0) then 0 else 1) + count_issues rs

unfoldable pub count_complete : List PathRow → ℕ
count_complete [] = 0
count_complete (r ∷ rs) = (if eq_ℤ r.status (pos 0) then 1 else 0) + count_complete rs

pub count_issues-append :
    (rs ss : List PathRow) → count_issues (rs ++ ss) ≡ count_issues rs + count_issues ss
unfolding count_issues
count_issues-append [] ss = omega arith
count_issues-append (r ∷ rs) ss = omega (arith, count_issues-append rs ss)

pub count_complete-append :
    (rs ss : List PathRow) → count_complete (rs ++ ss) ≡ count_complete rs + count_complete ss
unfolding count_complete
count_complete-append [] ss = omega arith
count_complete-append (r ∷ rs) ss = omega (arith, count_complete-append rs ss)

module _ (next_rowid : List PathRow → ℤ) (activity_input_id : ℤ) where
  -- What `persist_path` changes of the fields that the traversal reads.
  pub record Written (status subject : ℕ) (c c' : CaptureContext) : Type 0 where
    pub one_row :
        c'.path_rows ≡ c.path_rows ++ path_row next_rowid activity_input_id status subject c ∷ []
    pub next_position : c'.next_path_position ≡ c.next_path_position + 1
    pub same_visited : c'.visited ≡ c.visited
    pub same_count : c'.dependency_count ≡ c.dependency_count

  pub data Step (c c' : CaptureContext) : Type 0 where
    issue : (status subject : ℕ) → 0 < status → status ≤ 4 → Written status subject c c' → Step c c'
    visit :
        (status target : ℕ)
        → status ≤ 4
        → contains target c.visited ≡ false
        → c.dependency_count ≢ max_dependency_representations
        → Written status target (mark target c) c'
        → Step c c'

  pub data Reach (c : CaptureContext) : CaptureContext → Type 0 where
    start : Reach c c
    continue : {c' c'' : CaptureContext} → Reach c c' → Step c' c'' → Reach c c''

  pub Reach-trans : {c c' c'' : CaptureContext} → Reach c c' → Reach c' c'' → Reach c c''
  Reach-trans p start = p
  Reach-trans p (continue q s) = continue (Reach-trans p q) s

  -- What the steps only add to.
  pub record Grows (c c' : CaptureContext) : Type 0 where
    pub visited_grows : (i : ℕ) → In i c.visited → In i c'.visited
    pub issues_grow : count_issues c.path_rows ≤ count_issues c'.path_rows

  pub row_issues :
      (status subject : ℕ) (c c' : CaptureContext)
      → Written status subject c c'
      → count_issues c'.path_rows
        ≡ count_issues c.path_rows + (if eq_ℤ (pos status) (pos 0) then 0 else 1)
  unfolding count_issues
  row_issues status subject c c' w = rw w.one_row (
      count_issues-append c.path_rows (path_row next_rowid activity_input_id status subject c ∷ [])
      ∙ omega arith)

  Step-Grows : {c c' : CaptureContext} → Step c c' → Grows c c'
  Step-Grows {c} {c'} (issue status subject p q w) = record {
    visited_grows = λ i m. rw w.same_visited m;
    issues_grow = omega (arith, row_issues status subject c c' w);
  }
  Step-Grows {c} {c'} (visit status target p q r w) = record {
    visited_grows = λ i m. rw w.same_visited (inr m);
    issues_grow = omega (arith, row_issues status target (mark target c) c' w);
  }

  pub Reach-Grows : {c c' : CaptureContext} → Reach c c' → Grows c c'
  Reach-Grows start = record { visited_grows = λ i m. m; issues_grow = omega arith }
  Reach-Grows (continue p s) =
      let g = Reach-Grows p in
      let h = Step-Grows s in
      record {
        visited_grows = λ i m. h.visited_grows i (g.visited_grows i m);
        issues_grow = omega (arith, g.issues_grow, h.issues_grow);
      }
