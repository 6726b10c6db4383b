-- ===== src/Storage/Artifact/Cuts.antt =====
-- The reasons of an evaluation of crates/postproject-storage-sqlite/src/artifact.rs that say that
-- a limit was hit.
use postproject.Base.{
  ℕ, ◌≡◌, refl, sym, ap, ◌∙◌, Bool, true, false, ◌||◌, Option, none, some, List, [], ◌∷◌, ◌++◌, map,
  is_empty, any, inl, inr, Bool-cases,
}
use postproject.Core.Text.{Bytes, eq_bytes}
use postproject.Storage.Dependencies.Rows.{
  ArtifactKnowledgeState, ArtifactKnowledgeReason, DependencyEvaluation, Domain, Fingerprints,
  Production,
}
use postproject.Storage.Dependencies.Evaluation.{representation_fingerprint_dirty, domains, lookup}
use postproject.Storage.Artifact.Activities.{
  NodeReason, NodeEvaluation, ActivityEdgeSnapshot, ArtifactEdgeKind, traversal_truncated,
  of_dependency, upstream_not_current,
}
use postproject.Storage.Artifact.Edges.{
  note, compare_edge, compare_each, compare_domain, add_missing_evidence, captured_fingerprints,
}
use postproject.Storage.Artifact.Nodes.{
  downstream_state, is_current, add_dependencies, add_upstream,
}

abbrev pub is_truncation : NodeReason → Bool
is_truncation (traversal_truncated limit id) = true
is_truncation _ = false

abbrev pub cut : NodeEvaluation → Bool
cut e = any is_truncation e.reasons

pub ||-assoc : (a b c : Bool) → ((a || b) || c) ≡ (a || (b || c))
||-assoc true b c = refl
||-assoc false b c = refl

pub ||-false : (a : Bool) → (a || false) ≡ a
||-false true = refl
||-false false = refl

any-append :
    (xs ys : List NodeReason)
    → any is_truncation (xs ++ ys) ≡ (any is_truncation xs || any is_truncation ys)
any-append [] ys = refl
any-append (x ∷ xs) ys =
    ap (is_truncation x ||◌) (any-append xs ys)
    ∙ sym (||-assoc (is_truncation x) (any is_truncation xs) (any is_truncation ys))

note-cut :
    (s : ArtifactKnowledgeState) (r : NodeReason) (e : NodeEvaluation)
    → is_truncation r ≡ false
    → cut (note s r e) ≡ cut e
unfolding note
note-cut s r e h = any-append e.reasons (r ∷ []) ∙ rw h (||-false (cut e))

module _ (a id : ℕ) (edge : ArtifactEdgeKind) where
  compare_domain-cut :
      (d : Domain) (s l : Option Bytes) (e : NodeEvaluation)
      → cut (compare_domain a id edge d s l e) ≡ cut e
  unfolding compare_domain add_missing_evidence
  compare_domain-cut d (some v) (some w) e = elim (Bool-cases (eq_bytes v w)) [
    | inl y ↦ rw y refl
    | inr n ↦ rw n (note-cut _ _ e refl)
  ]
  compare_domain-cut d none l e = note-cut _ _ e refl
  compare_domain-cut d (some v) none e = note-cut _ _ e refl

  compare_each-cut :
      (captured live : Fingerprints) (ds : List Domain) (e : NodeEvaluation)
      → cut (compare_each a id edge captured live ds e) ≡ cut e
  unfolding compare_each
  compare_each-cut captured live [] e = refl
  compare_each-cut captured live (d ∷ ds) e =
      compare_each-cut captured live ds _
      ∙ compare_domain-cut d (lookup d captured) (lookup d live) e

  pub compare_edge-cut :
      (production : Production) (live : Fingerprints) (snapshot : Option ActivityEdgeSnapshot)
      (e : NodeEvaluation)
      → cut (compare_edge a id edge production live snapshot e) ≡ cut e
  unfolding compare_edge add_missing_evidence
  compare_edge-cut production live none e = note-cut _ _ e refl
  compare_edge-cut production live (some taken) e =
      elim (Bool-cases (representation_fingerprint_dirty production id)) [
        | inl y ↦ rw y (note-cut _ _ e refl)
        | inr n ↦ elim (Bool-cases (is_empty (domains (captured_fingerprints taken) live))) [
          | inl y ↦ rw (n, y) (note-cut _ _ e refl)
          | inr m ↦
              rw (n, m)
                (compare_each-cut (captured_fingerprints taken) live
                  (domains (captured_fingerprints taken) live) e)
        ]
      ]

dependencies-cut :
    (reasons : List ArtifactKnowledgeReason) → any is_truncation (map of_dependency reasons) ≡ false
dependencies-cut [] = refl
dependencies-cut (r ∷ reasons) = dependencies-cut reasons

pub add_dependencies-cut :
    (d : DependencyEvaluation) (e : NodeEvaluation) → cut (add_dependencies d e) ≡ cut e
unfolding add_dependencies
add_dependencies-cut d e =
    any-append e.reasons (map of_dependency d.reasons)
    ∙ rw (dependencies-cut d.reasons) (||-false (cut e))

pub add_upstream-cut :
    (id : ℕ) (upstream e : NodeEvaluation)
    → cut (add_upstream id upstream e) ≡ (cut e || cut upstream)
unfolding add_upstream
add_upstream-cut id upstream e = elim (Bool-cases (is_current upstream.state)) [
  | inl y ↦ rw y (any-append e.reasons upstream.reasons)
  | inr n ↦
      let noted =
        note (downstream_state upstream.state) (upstream_not_current id upstream.state) e in
      rw n (
        any-append noted.reasons upstream.reasons
        ∙ ap (λ t. t || cut upstream)
            (note-cut (downstream_state upstream.state) (upstream_not_current id upstream.state) e
              refl))
]
