-- ===== src/Storage/Snapshot/Visits.antt =====
-- The visit of one target in a capture of
-- crates/postproject-storage-sqlite/src/dependency_snapshot.rs.
use postproject.Base.{
  ℕ, ◌+◌, ◌^◌, ◌≤◌, ◌<◌, ◌≡◌, refl, inl, inr, Bool, true, false, ◌&&◌, Option, List, [], ◌∷◌, ◌++◌,
  arith, All, In, ok, ltb, ◌==◌, length, Bool-cases,
}
use postproject.Base.Int.{ℤ}
use postproject.Core.Dependency.{DependencySet}
use postproject.Storage.Dependencies.Rows.{PathRow, EdgeRow, Production}
use postproject.Storage.Dependencies.Segments.{load_dependency_set}
use postproject.Storage.Snapshot.Persist.{
  PathEdge, CaptureContext, stored_position, persist_path_edge, persist_edges, persist_path,
  max_dependency_depth, max_dependency_representations,
}
use postproject.Storage.Snapshot.Capture.{
  Visit, set_waits, has_required, contains, mark, capture_target,
}
use postproject.Storage.Snapshot.Steps.{Written}
use postproject.Storage.Snapshot.Knowledge.{
  Returns, Returns-bind, Knows, Post, issue-Post, visited_issue-Post, visited-Post,
}

-- A position below 2^63 is stored.
abbrev pub IsStorable : PathEdge → Type 0
IsStorable edge = edge.dependency_position < 2 ^ 63

persist_edges-ok :
    (path_id : ℤ) (position : ℕ) (path : List PathEdge) (rows : List EdgeRow)
    → position + length path < 2 ^ 63
    → All IsStorable path
    → (rows' : List EdgeRow) × (persist_edges path_id position path rows ≡ ok rows')
unfolding persist_edges persist_path_edge stored_position
persist_edges-ok path_id position [] rows h s = (rows, refl)
persist_edges-ok path_id position (edge ∷ path) rows h s =
    let here : ltb position (2 ^ 63) ≡ true = ground arith in
    let there : ltb edge.dependency_position (2 ^ 63) ≡ true = ground (arith, s.0) in
    rw (here, there) (persist_edges-ok path_id (position + 1) path _ (omega (arith, h)) s.1)

-- A path that can be persisted.
pub record IsPath (path : List PathEdge) : Type 0 where
  pub short : length path ≤ max_dependency_depth
  pub storable : All IsStorable path

pub All-snoc :
    {A : Type 0} (P : A → Type 0) (a : A) (xs : List A) → All P xs → P a → All P (xs ++ a ∷ [])
All-snoc P a [] h p = (p, tt)
All-snoc P a (x ∷ xs) h p = (h.0, All-snoc P a xs h.1 p)

pub contains-In : (i : ℕ) (is : List ℕ) → contains i is ≡ true → In i is
contains-In i [] h = cc
contains-In i (j ∷ is) h = elim (Bool-cases (j == i)) [
  | inl y ↦ inl (ground arith)
  | inr n ↦ inr (contains-In i is (ground arith))
]

-- At the depth limit only representations without required dependencies are visited.
abbrev pub IsLeafAtLimit : List PathEdge → Option DependencySet → Type 0
IsLeafAtLimit path set = length path ≡ max_dependency_depth → has_required set ≡ false

module _ (next_rowid : List PathRow → ℤ) (production : Production) (activity_input_id : ℤ) where
  persist_path-Returns :
      (status subject : ℕ) (path : List PathEdge) (flag : Bool) (c : CaptureContext)
      → IsPath path
      → Returns
          (Written next_rowid activity_input_id status subject c)
          (persist_path next_rowid production activity_input_id status subject path flag c)
  unfolding persist_path
  persist_path-Returns status subject path flag c v =
      let (rows, e) =
        persist_edges-ok (next_rowid c.path_rows) 0 path c.edge_rows (omega (arith, v.short))
          v.storable in
      rw e (
        _,
        refl,
        record { one_row = refl; next_position = refl; same_visited = refl; same_count = refl },
      )

  -- What a visit promises of every path that it is called with.
  abbrev pub IsGood : ℕ → Visit → Type 0
  IsGood least visit =
      (source : ℕ) (path : List PathEdge) (c : CaptureContext)
      → least ≤ length path
      → IsPath path
      → IsLeafAtLimit path (load_dependency_set production source)
      → Returns (Post next_rowid production activity_input_id (Knows production source) c)
          (visit source path c)

  pub issue-Returns :
      (K : CaptureContext → Type 0) (status subject : ℕ) (path : List PathEdge) (c : CaptureContext)
      → 0 < status
      → status ≤ 4
      → IsPath path
      → Returns
          (Post next_rowid production activity_input_id K c)
          (persist_path next_rowid production activity_input_id status subject path false c)
  issue-Returns K status subject path c p q v =
      let (c', e, w) = persist_path-Returns status subject path false c v in
      (c', e, issue-Post next_rowid production activity_input_id K status subject c c' p q w)

  module _ (least : ℕ) (visit : Visit) (good : IsGood least visit) where
    pub capture_target-Returns :
        (target : ℕ) (path : List PathEdge) (c : CaptureContext)
        → contains target c.visited ≡ false
        → ¬ (c.dependency_count ≡ max_dependency_representations)
        → least ≤ length path
        → IsPath path
        → Returns (Post next_rowid production activity_input_id (λ x. In target x.visited) c) (
            capture_target next_rowid production activity_input_id visit target path
              (mark target c))
    unfolding capture_target
    capture_target-Returns target path c unseen below deep v =
        let set = load_dependency_set production target in
        elim (Bool-cases (set_waits set)) [
          | inl y ↦ rw y (noted 1 (omega arith) (omega arith))
          | inr n ↦
              rw n (elim (Bool-cases ((length path == max_dependency_depth) && has_required set)) [
                | inl y' ↦ rw y' (noted 3 (omega arith) (omega arith))
                | inr n' ↦ rw n' (
                    Returns-bind _ _ (persist_path-Returns 0 target path true (mark target c) v)
                      (λ c' w.
                        (let (c'', e, p) = good target path c' deep v (λ at. leaf at n') in
                          (
                            c'',
                            e,
                            visited-Post next_rowid production activity_input_id target c unseen
                                below c' c'' w p,
                          ))))
              ])
        ]
      where
        noted :
            (status : ℕ)
            → 0 < status
            → status ≤ 4
            → Returns (Post next_rowid production activity_input_id (λ x. In target x.visited) c) (
                persist_path next_rowid production activity_input_id status target path false
                  (mark target c))
        noted status p q =
            let (c', e, w) = persist_path-Returns status target path false (mark target c) v in
            (
              c',
              e,
              visited_issue-Post next_rowid production activity_input_id target c unseen below _
                  status c' p q w,
            )

        leaf :
            length path ≡ max_dependency_depth
            → ((length path == max_dependency_depth)
                && has_required (load_dependency_set production target))
              ≡ false
            → has_required (load_dependency_set production target) ≡ false
        leaf at h = ground arith
