-- ===== src/Storage/Dependencies/Exactly.antt =====
-- Which captured paths the evaluation of
-- crates/postproject-storage-sqlite/src/dependency_evaluation.rs adds nothing for.
use postproject.Base.{
  ℕ, ◌+◌, ◌≤◌, ◌≡◌, ◌↔◌, ◌⊎◌, refl, sym, ap, ◌∙◌, inl, inr, true, false, Option, none, some, List,
  [], ◌∷◌, arith, ok, All, is_empty, get_elem?, length, length-append, >>=-eq-ok, Bool-cases,
  ok_injective,
}
use postproject.Base.Int.{ℤ, pos}
use postproject.Base.Sorting.{eq_ℤ, eq_ℤ-true}
use postproject.Core.Text.{Bytes, eq_bytes, eq_bytes-true}
use postproject.Core.Dependency.{DependencySet}
use postproject.Storage.Dependencies.Rows.{
  ArtifactDependencyPathSegment, ArtifactDependencyIssue, ArtifactKnowledgeState,
  ArtifactKnowledgeReason, Context, CapturedPath, DependencyEvaluation, Production, Domain,
  Fingerprints,
}
use postproject.Storage.Dependencies.Evaluation.{
  lookup, domains, add_missing_fingerprint, compare_values, compare_domains, compare_fingerprints,
  evaluate_segments, evaluate_issue, evaluate_path, representation_fingerprint_dirty,
  current_fingerprints,
}
use postproject.Storage.Dependencies.Segments.{
  add, add_path_changed, captured_issue, check_segment, check_segments, load_dependency_set, waits,
  matches_at, or_else,
}
use postproject.Storage.Dependencies.Holds.{SegmentHolds, SameValue, Holds, evaluate_path_complete}

abbrev size : DependencyEvaluation → ℕ
size e = length e.reasons

size-add :
    (s : ArtifactKnowledgeState) (r : ArtifactKnowledgeReason) (e : DependencyEvaluation)
    → size (add s r e) ≡ size e + 1
unfolding add
size-add s r e = length-append e.reasons (r ∷ [])

grown :
    (s : ArtifactKnowledgeState) (r : ArtifactKnowledgeReason) (e : DependencyEvaluation)
    → ¬ (add s r e ≡ e)
grown s r e h = absurd (omega (arith, size-add s r e, ap size h))

-- One segment: it holds, or it ends the evaluation with a reason more.
check_segment-cases :
    (c : Context) (path : CapturedPath) (index : ℕ) (segment : ArtifactDependencyPathSegment)
    (o : Option DependencySet) (e : DependencyEvaluation)
    → ((set : DependencySet) × (o ≡ some set)
        × (waits set.status ≡ false)
        × (matches_at segment (get_elem? set.dependencies segment.dependency_position) ≡ true)
        × (check_segment c path index segment o e ≡ none))
      ⊎ ((f : DependencyEvaluation) × (check_segment c path index segment o e ≡ some f)
          × (size f ≡ size e + 1))
unfolding check_segment add_path_changed
check_segment-cases c path index segment none e = inr (_, refl, size-add _ _ e)
check_segment-cases c path index segment (some set) e = elim (Bool-cases (waits set.status)) [
  | inl y ↦ rw y (inr (_, refl, size-add _ _ e))
  | inr n ↦
      elim (Bool-cases
        (matches_at segment (get_elem? set.dependencies segment.dependency_position))) [
          | inl y ↦ rw (n, y) (inl (set, refl, n, y, refl))
          | inr m ↦ rw (n, m) (inr (_, refl, size-add _ _ e))
        ]
]

check_segments-cases :
    (production : Production) (c : Context) (path : CapturedPath) (index : ℕ)
    (segments : List ArtifactDependencyPathSegment) (e : DependencyEvaluation)
    → (All (SegmentHolds production) segments
        × (check_segments production c path index segments e ≡ none))
      ⊎ ((f : DependencyEvaluation) × (check_segments production c path index segments e ≡ some f)
          × (size f ≡ size e + 1))
unfolding check_segments
check_segments-cases production c path index [] e = inl (tt, refl)
check_segments-cases production c path index (segment ∷ segments) e =
    let set = load_dependency_set production segment.source_representation_id in
    let rest = check_segments production c path (index + 1) segments e in
    elim (check_segment-cases c path index segment set e) [
      | inr (f, h, k) ↦ inr (f, ap (λ o. or_else o rest) h, k)
      | inl (found, at, ready, match, passed) ↦
          let through = ap (λ o. or_else o rest) passed in
          elim (check_segments-cases production c path (index + 1) segments e) [
            | inl (others, none_left) ↦
                inl (((found, at, ready, match), others), through ∙ none_left)
            | inr (f, h, k) ↦ inr (f, through ∙ h, k)
          ]
    ]

-- One domain: its value is the same, or there is a reason more.
compare_values-cases :
    (c : Context) (path : CapturedPath) (d : Domain) (s l : Option Bytes) (e : DependencyEvaluation)
    → ((v : Bytes) × (s ≡ some v) × (l ≡ some v) × (compare_values c path d s l e ≡ e))
      ⊎ (size (compare_values c path d s l e) ≡ size e + 1)
unfolding compare_values add_missing_fingerprint
compare_values-cases c path d (some v) (some w) e = elim (Bool-cases (eq_bytes v w)) [
  | inl y ↦ rw y (inl (v, refl, ap some (sym (eq_bytes-true v w y)), refl))
  | inr n ↦ rw n (inr (size-add _ _ e))
]
compare_values-cases c path d none l e = inr (size-add _ _ e)
compare_values-cases c path d (some v) none e = inr (size-add _ _ e)

compare_domains-grows :
    (c : Context) (path : CapturedPath) (live : Fingerprints) (ds : List Domain)
    (e : DependencyEvaluation)
    → (size e ≤ size (compare_domains c path live ds e))
      × (size (compare_domains c path live ds e) ≡ size e
          → All (SameValue path.fingerprints live) ds)
unfolding compare_domains
compare_domains-grows c path live [] e = (omega arith, λ _. tt)
compare_domains-grows c path live (d ∷ ds) e =
    let next = compare_values c path d (lookup d path.fingerprints) (lookup d live) e in
    let (more, all) = compare_domains-grows c path live ds next in
    elim (compare_values-cases c path d (lookup d path.fingerprints) (lookup d live) e) [
      | inr k ↦ (omega (arith, more, k), λ h. absurd (omega (arith, h, more, k)))
      | inl (v, s, l, same) ↦
          let kept = ap size same in
          (omega (arith, more, kept), λ h. ((v, s, l), all (omega (arith, h, kept))))
    ]

captured_issue-none : (z : ℤ) → captured_issue z ≡ ok none → z ≡ pos 0
unfolding captured_issue
captured_issue-none z h = elim (Bool-cases (eq_ℤ z (pos 0))) [
  | inl y ↦ eq_ℤ-true z (pos 0) y
  | inr n ↦ absurd (ground (arith, n))
]

module _ (production : Production) (c : Context) (path : CapturedPath)
    (e : DependencyEvaluation) where
  live-Holds :
      path.status ≡ pos 0
      → All (SegmentHolds production) path.segments
      → representation_fingerprint_dirty production path.subject_representation_id ≡ false
      → compare_fingerprints production c path e ≡ ok e
      → Holds production path
  unfolding compare_fingerprints add_missing_fingerprint
  live-Holds complete segments clean h =
      let (live, at, rest) =
        >>=-eq-ok (current_fingerprints production path.subject_representation_id) _ h in
      elim (Bool-cases (is_empty (domains path.fingerprints live))) [
        | inl y ↦ absurd (grown _ _ e (ok_injective (rw y at rest)))
        | inr n ↦
            let (_, all) = compare_domains-grows c path live (domains path.fingerprints live) e in
            record {
              complete = complete;
              segments_hold = segments;
              is_clean = clean;
              live = live;
              is_live = at;
              has_evidence = n;
              same_values = all (ap size (ok_injective (rw n at rest)));
            }
      ]

  segments_hold :
      path.status ≡ pos 0
      → evaluate_segments production c path e (check_segments production c path 0 path.segments e)
        ≡ ok e
      → Holds production path
  unfolding evaluate_segments
  segments_hold complete h = elim (check_segments-cases production c path 0 path.segments e) [
    | inr (f, found, k) ↦
        let same = ok_injective (ap (evaluate_segments production c path e) (sym found) ∙ h) in
        absurd (omega (arith, k, ap size same))
    | inl (segments, found) ↦
        let after = ap (evaluate_segments production c path e) (sym found) ∙ h in
        elim (Bool-cases
          (representation_fingerprint_dirty production path.subject_representation_id)) [
            | inl y ↦ absurd (grown _ _ e (ok_injective (rw y at after)))
            | inr n ↦ live-Holds complete segments n (rw n at after)
          ]
  ]

  issue-Holds :
      (issue : Option ArtifactDependencyIssue)
      → captured_issue path.status ≡ ok issue
      → evaluate_issue production c path e issue ≡ ok e
      → Holds production path
  unfolding evaluate_issue
  issue-Holds none at h = segments_hold (captured_issue-none path.status at) h
  issue-Holds (some issue) at h = absurd (grown _ _ e (ok_injective h))

  -- Evaluating a captured path adds nothing exactly where all of these hold: its status says that
  -- the knowledge was complete; every segment is still the required dependency at its position in
  -- the recorded set of its source, which does not wait for an extraction; no recomputation of the
  -- fingerprints of its subject is pending; its subject exists; and the captured fingerprints are
  -- those of the subject now, in the same domains and at least one.
  pub evaluate_path-Holds : (evaluate_path production c path e ≡ ok e) ↔ Holds production path
  unfolding evaluate_path
  evaluate_path-Holds = (
    (λ h.
        let (issue, at, rest) =
          >>=-eq-ok (captured_issue path.status) (evaluate_issue production c path e) h in
        issue-Holds issue at rest),
    evaluate_path_complete production c path e,
  )
