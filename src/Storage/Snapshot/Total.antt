-- ===== src/Storage/Snapshot/Total.antt =====
-- The success of a capture of crates/postproject-storage-sqlite/src/dependency_snapshot.rs: its
-- fuel and the positions that it stores.
use postproject.Base.{
  ℕ, zero, suc, ◌+◌, ◌≤◌, ◌≡◌, refl, sym, subst, ap, ◌∙◌, inl, inr, Bool, true, false, Option, none,
  some, List, [], ◌∷◌, ◌++◌, arith, In, ok, if◌then◌else◌, ◌==◌, length, length-append, any,
  Bool-cases, some_injective, none≢some,
}
use postproject.Base.Int.{ℤ}
use postproject.Core.Dependency.{Dependency, DependencySet, max_dependencies_per_set}
use postproject.Storage.Dependencies.Rows.{PathRow, Production}
use postproject.Storage.Dependencies.Segments.{load_dependency_set, waits}
use postproject.Storage.Snapshot.Persist.{
  PathEdge, CaptureContext, max_dependency_depth, max_dependency_representations,
}
use postproject.Storage.Snapshot.Capture.{
  Visit, target_of, contains, capture_edge, capture_each, capture_set, capture_from, capture,
  first_context,
}
use postproject.Storage.Snapshot.Visits.{
  IsPath, IsStorable, All-snoc, contains-In, IsGood, issue-Returns, capture_target-Returns,
  IsLeafAtLimit,
}
use postproject.Storage.Snapshot.Knowledge.{
  Returns, Returns-bind, LeadsTo, AllLead, Knows, Post, IsKept, Post-trans, Post-weaken, Post-stay,
}

-- No recorded set has more dependencies than `DependencySet::new` accepts.
abbrev pub HasBoundedSets : Production → Type 0
HasBoundedSets production =
    (id : ℕ) (set : DependencySet)
    → load_dependency_set production id ≡ some set
    → length set.dependencies ≤ max_dependencies_per_set

module _ (next_rowid : List PathRow → ℤ) (production : Production) (activity_input_id : ℤ) where
  module _ (least : ℕ) (visit : Visit)
      (good : IsGood next_rowid production activity_input_id least visit) where
    -- The edge is resolved to a visited representation.
    abbrev Leads : Option ℕ → CaptureContext → Type 0
    Leads target c = (t : ℕ) × (target ≡ some t) × In t c.visited

    capture_edge-Returns :
        (source : ℕ) (path : List PathEdge) (target : Option ℕ) (c : CaptureContext)
        → least ≤ length path
        → IsPath path
        → Returns
            (Post next_rowid production activity_input_id (Leads target) c)
            (capture_edge next_rowid production activity_input_id visit source path target c)
    unfolding capture_edge
    capture_edge-Returns source path none c deep v =
        issue-Returns next_rowid production activity_input_id (Leads none) 2 source path c
          (omega arith) (omega arith) v
    capture_edge-Returns source path (some target) c deep v =
        elim (Bool-cases (contains target c.visited)) [
          | inl y ↦ rw y (
            c,
            refl,
            Post-stay next_rowid production activity_input_id (Leads (some target)) c
                (target, refl, contains-In target c.visited y),
          )
          | inr n ↦ rw n (elim (Bool-cases (c.dependency_count == max_dependency_representations)) [
            | inl y ↦ rw y (
                issue-Returns next_rowid production activity_input_id (Leads (some target)) 4 target
                  path c (omega arith) (omega arith) v)
            | inr n' ↦ rw n' (
                let (c', e, p) =
                  capture_target-Returns next_rowid production activity_input_id least visit good
                    target path c n (λ at. ground arith) deep v in
                (
                  c',
                  e,
                  Post-weaken next_rowid production activity_input_id (λ x. In target x.visited)
                      (Leads (some target)) (λ x m. (target, refl, m)) p,
                ))
          ])
        ]

    capture_each-Returns :
        (source : ℕ) (path : List PathEdge) (position : ℕ) (ds : List Dependency)
        (c : CaptureContext)
        → least ≤ suc (length path)
        → IsPath path
        → position + length ds ≤ max_dependencies_per_set
        → (length path ≡ max_dependency_depth → any (λ d. d.required) ds ≡ false)
        → Returns
            (Post next_rowid production activity_input_id (λ x. AllLead x.visited ds) c)
            (capture_each next_rowid production activity_input_id visit source path position ds c)
    unfolding capture_each
    capture_each-Returns source path position [] c deep v room leaf = (
      c,
      refl,
      Post-stay next_rowid production activity_input_id (λ x. AllLead x.visited []) c
          (λ d m r. absurd m),
    )
    capture_each-Returns source path position (d ∷ ds) c deep v room leaf =
        Returns-bind _ _ (first (d.required) refl) (λ c' p.
          (let (c'', e, q) =
              capture_each-Returns source path (position + 1) ds c' deep v (omega (arith, room))
                (λ at. rest_leaf (leaf at)) in
            (
              c'',
              e,
              Post-weaken next_rowid production activity_input_id _
                  (λ x. AllLead x.visited (d ∷ ds)) (λ x k. both x k)
                  (Post-trans next_rowid production activity_input_id Head
                    (λ x. AllLead x.visited ds) head_kept p q),
            )))
      where
        Head : CaptureContext → Type 0
        Head x = d.required ≡ true → LeadsTo x.visited d

        head_kept : IsKept next_rowid production activity_input_id Head
        head_kept x x' g k r = let (t, f, m) = k r in (t, f, g.visited_grows t m)

        both : (x : CaptureContext) → Head x × AllLead x.visited ds → AllLead x.visited (d ∷ ds)
        both x k d' (inl e) r =
            subst (LeadsTo x.visited) (sym e) (k.0 (ap (λ d. d.required) (sym e) ∙ r))
        both x k d' (inr m) r = k.1 d' m r

        rest_leaf : any (λ d. d.required) (d ∷ ds) ≡ false → any (λ d. d.required) ds ≡ false
        rest_leaf h = ground arith

        edge : PathEdge
        edge = record {
          source_representation_id = source;
          dependency_position = position;
          dependency = d;
        }

        longer : d.required ≡ true → IsPath (path ++ edge ∷ [])
        longer r = record {
          short = omega (arith, length-append path (edge ∷ []), v.short, below);
          storable = All-snoc IsStorable edge path v.storable (omega (arith, room));
        }
          where
            below : ¬ (length path ≡ max_dependency_depth)
            below at = ground (arith, leaf at, r)

        first :
            (b : Bool)
            → d.required ≡ b
            → Returns (Post next_rowid production activity_input_id Head c) (
                if b
                then capture_edge next_rowid production activity_input_id visit source
                    (path ++ edge ∷ [])
                    (target_of d)
                    c
                else ok c)
        first true r =
            let (c', e, p) =
              capture_edge-Returns source (path ++ edge ∷ []) (target_of d) c
                (omega (arith, deep, length-append path (edge ∷ []))) (longer r) in
            (
              c',
              e,
              Post-weaken next_rowid production activity_input_id (Leads (target_of d)) Head
                  (λ x k _. k) p,
            )
        first false r =
            (c, refl, Post-stay next_rowid production activity_input_id Head c (λ r'. absurd (cc)))

    capture_set-Returns :
        (source : ℕ) (path : List PathEdge) (set : Option DependencySet) (c : CaptureContext)
        → load_dependency_set production source ≡ set
        → least ≤ suc (length path)
        → IsPath path
        → ((s : DependencySet) → set ≡ some s → length s.dependencies ≤ max_dependencies_per_set)
        → IsLeafAtLimit path set
        → Returns
            (Post next_rowid production activity_input_id (Knows production source) c)
            (capture_set next_rowid production activity_input_id visit source path set c)
    unfolding capture_set
    capture_set-Returns source path none c e deep v room leaf = (
      c,
      refl,
      Post-stay next_rowid production activity_input_id (Knows production source) c
          (λ s f. absurd (none≢some (sym e ∙ f))),
    )
    capture_set-Returns source path (some set) c e deep v room leaf =
        elim (Bool-cases (waits set.status)) [
          | inl y ↦ rw y (
              issue-Returns next_rowid production activity_input_id (Knows production source) 1
                source path c (omega arith) (omega arith) v)
          | inr n ↦ rw n (
              let (c', f, p) =
                capture_each-Returns source path 0 set.dependencies c deep v
                  (omega (arith, room set refl)) leaf in
              (
                c',
                f,
                Post-weaken next_rowid production activity_input_id _ (Knows production source)
                    (λ x k. recorded n x k) p,
              ))
        ]
      where
        recorded :
            waits set.status ≡ false
            → (x : CaptureContext) → AllLead x.visited set.dependencies
            → Knows production source x
        recorded up x k s f =
            let same : set ≡ s = some_injective (sym e ∙ f) in
            subst (λ s. (waits s.status ≡ false) × AllLead x.visited s.dependencies) same (up, k)

  module _ (bounded : HasBoundedSets production) where
    pub capture_from-IsGood :
        (fuel least : ℕ)
        → 65 ≤ fuel + least
        → IsGood next_rowid production activity_input_id least
            (capture_from next_rowid production activity_input_id fuel)
    unfolding capture_from
    capture_from-IsGood zero least enough source path c deep v leaf =
        absurd (omega (arith, enough, deep, v.short))
    capture_from-IsGood (suc fuel) least enough source path c deep v leaf =
        capture_set-Returns (suc least) (capture_from next_rowid production activity_input_id fuel)
          (capture_from-IsGood fuel (suc least) (omega (arith, enough))) source path
          (load_dependency_set production source) c refl (omega (arith, deep)) v
          (λ s e. bounded source s e) leaf

    -- The whole capture.
    pub capture-Returns :
        (input_representation_id : ℕ)
        → Returns
            (Post next_rowid production activity_input_id
              (Knows production input_representation_id)
              (first_context next_rowid production activity_input_id input_representation_id))
            (capture next_rowid production activity_input_id input_representation_id)
    unfolding capture
    capture-Returns input_representation_id =
        capture_from-IsGood 65 0 (omega arith) input_representation_id []
          (first_context next_rowid production activity_input_id input_representation_id)
          (omega arith) (record { short = omega arith; storable = tt })
          (λ at. absurd (omega (arith, at)))
