-- ===== src/Storage/Artifact/Known.antt =====
-- What it means that the knowledge of a produced representation is current, edge by edge, for
-- crates/postproject-storage-sqlite/src/artifact.rs.
use postproject.Base.{
  ℕ, ◌≡◌, refl, true, false, Option, none, some, List, [], ◌∷◌, All, ok, is_empty, inl, inr,
  Bool-cases,
}
use postproject.Core.Text.{Bytes, eq_bytes}
use postproject.Storage.Dependencies.Rows.{
  ArtifactKnowledgeState, current, stale, indeterminate, diverged, Domain, Fingerprints, Production,
  DependencyEvaluation,
}
use postproject.Storage.Dependencies.Segments.{promote_state}
use postproject.Storage.Dependencies.Evaluation.{
  lookup, domains, representation_fingerprint_dirty, current_fingerprints,
  evaluate_input_dependencies,
}
use postproject.Storage.Artifact.Activities.{
  Activity, ActivityInput, ActivityOutput, Provenance, ActivityEdgeSnapshot, ArtifactEdgeKind,
  input, output, NodeReason, NodeEvaluation, activities_producing,
}
use postproject.Storage.Artifact.Edges.{
  note, changed_state, captured_fingerprints, add_missing_evidence, compare_domain, compare_each,
  compare_edge,
}
use postproject.Storage.Artifact.Nodes.{
  dependency_context, find_output, add_dependencies, add_upstream, downstream_state, is_current,
}

-- Both maps have the domain, with the same bytes.
abbrev pub Agrees : Fingerprints → Fingerprints → Domain → Type 0
Agrees captured live d =
    (v : Bytes) × (w : Bytes) × (lookup d captured ≡ some v)
    × (lookup d live ≡ some w)
    × (eq_bytes v w ≡ true)

-- The fingerprints captured at an edge are still those of the representation, at least one.
pub record IsUnchanged (production : Production) (id : ℕ) (snapshot : Option ActivityEdgeSnapshot)
    : Type 0 where
  pub taken : ActivityEdgeSnapshot
  pub present : snapshot ≡ some taken
  pub clean : representation_fingerprint_dirty production id ≡ false
  pub live : Fingerprints
  pub loaded : current_fingerprints production id ≡ ok live
  pub evidence : is_empty (domains (captured_fingerprints taken) live) ≡ false
  pub agree :
      All (Agrees (captured_fingerprints taken) live) (domains (captured_fingerprints taken) live)

-- An input is unchanged, and so are its dependencies.
pub record IsKnownInput (p : Provenance) (a : Activity) (i : ActivityInput) : Type 0 where
  pub unchanged : IsUnchanged p.production i.representation_id i.snapshot
  pub found : DependencyEvaluation
  pub evaluated :
      evaluate_input_dependencies p.production (dependency_context a i) i.role ≡ ok found
  pub is_current : found.state ≡ current

-- One activity alone produces the representation; its output and its inputs are unchanged.
pub record IsUpToDate (p : Provenance) (id : ℕ) : Type 0 where
  pub activity : Activity
  pub unique : activities_producing p id ≡ ok (activity ∷ [])
  pub edge : ActivityOutput
  pub at : find_output id activity ≡ ok edge
  pub unchanged : IsUnchanged p.production id edge.snapshot
  pub inputs : All (IsKnownInput p activity) activity.inputs

promote_state-current :
    (s t : ArtifactKnowledgeState) → promote_state s t ≡ current → (s ≡ current) × (t ≡ current)
unfolding promote_state
promote_state-current current current h = (refl, refl)
promote_state-current current stale h = cc
promote_state-current current indeterminate h = cc
promote_state-current current diverged h = cc
promote_state-current stale current h = cc
promote_state-current stale stale h = cc
promote_state-current stale indeterminate h = cc
promote_state-current stale diverged h = cc
promote_state-current indeterminate current h = cc
promote_state-current indeterminate stale h = cc
promote_state-current indeterminate indeterminate h = cc
promote_state-current indeterminate diverged h = cc
promote_state-current diverged current h = cc
promote_state-current diverged stale h = cc
promote_state-current diverged indeterminate h = cc
promote_state-current diverged diverged h = cc

note-current :
    (s : ArtifactKnowledgeState) (r : NodeReason) (e : NodeEvaluation)
    → (note s r e).state ≡ current
    → (e.state ≡ current) × (s ≡ current)
unfolding note
note-current s r e h = promote_state-current e.state s h

pub add_dependencies-current :
    (d : DependencyEvaluation) (e : NodeEvaluation)
    → (add_dependencies d e).state ≡ current
    → (e.state ≡ current) × (d.state ≡ current)
unfolding add_dependencies
add_dependencies-current d e h = promote_state-current e.state d.state h

downstream_bad : (s : ArtifactKnowledgeState) → ¬ (downstream_state s ≡ current)
downstream_bad current h = cc
downstream_bad stale h = cc
downstream_bad indeterminate h = cc
downstream_bad diverged h = cc

indeterminate_bad : ¬ (indeterminate ≡ current)
indeterminate_bad h = cc

is_current-eq : (s : ArtifactKnowledgeState) → is_current s ≡ true → s ≡ current
is_current-eq current h = refl
is_current-eq stale h = cc
is_current-eq indeterminate h = cc
is_current-eq diverged h = cc

pub add_upstream-current :
    (id : ℕ) (upstream e : NodeEvaluation)
    → (add_upstream id upstream e).state ≡ current
    → (e.state ≡ current) × (upstream.state ≡ current)
unfolding add_upstream
add_upstream-current id upstream e h = elim (Bool-cases (is_current upstream.state)) [
  | inl y ↦ (rw y at h, is_current-eq upstream.state y)
  | inr n ↦ absurd (downstream_bad upstream.state (note-current _ _ e (rw n at h)).1)
]

changed_bad : (edge : ArtifactEdgeKind) → ¬ (changed_state edge ≡ current)
changed_bad input h = cc
changed_bad output h = cc

module _ (activity_id representation_id : ℕ) (edge : ArtifactEdgeKind) where
  compare_domain-current :
      (d : Domain) (s l : Option Bytes) (e : NodeEvaluation)
      → (compare_domain activity_id representation_id edge d s l e).state ≡ current
      → (e.state ≡ current)
        × ((v : Bytes) × (w : Bytes) × (s ≡ some v) × (l ≡ some w) × (eq_bytes v w ≡ true))
  unfolding compare_domain add_missing_evidence
  compare_domain-current d (some v) (some w) e h = elim (Bool-cases (eq_bytes v w)) [
    | inl y ↦ (rw y at h, (v, w, refl, refl, y))
    | inr n ↦ absurd (changed_bad edge (note-current _ _ e (rw n at h)).1)
  ]
  compare_domain-current d none l e h = absurd (indeterminate_bad (note-current _ _ e h).1)
  compare_domain-current d (some v) none e h = absurd (indeterminate_bad (note-current _ _ e h).1)

  compare_each-current :
      (captured live : Fingerprints) (ds : List Domain) (e : NodeEvaluation)
      → (compare_each activity_id representation_id edge captured live ds e).state ≡ current
      → (e.state ≡ current) × All (Agrees captured live) ds
  unfolding compare_each
  compare_each-current captured live [] e h = (h, tt)
  compare_each-current captured live (d ∷ ds) e h =
      let next =
        compare_domain activity_id representation_id edge d (lookup d captured) (lookup d live) e in
      let (before, rest) = compare_each-current captured live ds next h in
      let (start, agree) = compare_domain-current d (lookup d captured) (lookup d live) e before in
      (start, (agree, rest))

  pub compare_edge-current :
      (production : Production) (live : Fingerprints) (snapshot : Option ActivityEdgeSnapshot)
      (e : NodeEvaluation)
      → current_fingerprints production representation_id ≡ ok live
      → (compare_edge activity_id representation_id edge production live snapshot e).state ≡ current
      → (e.state ≡ current) × IsUnchanged production representation_id snapshot
  unfolding compare_edge add_missing_evidence
  compare_edge-current production live none e l h =
      absurd (indeterminate_bad (note-current _ _ e h).1)
  compare_edge-current production live (some taken) e l h =
      elim (Bool-cases (representation_fingerprint_dirty production representation_id)) [
        | inl y ↦ absurd (changed_bad edge (note-current _ _ e (rw y at h)).1)
        | inr n ↦ elim (Bool-cases (is_empty (domains (captured_fingerprints taken) live))) [
          | inl y ↦ absurd (indeterminate_bad (note-current _ _ e (rw y at (rw n at h))).1)
          | inr m ↦
              let (start, agree) =
                compare_each-current (captured_fingerprints taken) live
                  (domains (captured_fingerprints taken) live) e (rw m at (rw n at h)) in
              (
                start,
                record {
                  taken = taken;
                  present = refl;
                  clean = n;
                  live = live;
                  loaded = l;
                  evidence = m;
                  agree = agree;
                },
              )
        ]
      ]
