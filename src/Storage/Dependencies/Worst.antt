-- ===== src/Storage/Dependencies/Worst.antt =====
-- The state of an evaluation of
-- crates/postproject-storage-sqlite/src/dependency_evaluation.rs.
use postproject.Base.{
  ℕ, ◌+◌, ◌≡◌, get_elem?, refl, sym, ap, subst, ◌∙◌, Option, none, some, List, [], ◌∷◌, ok, any,
  is_empty, >>=-eq-ok, Bool-cases, Option-cases, inl, inr, some_injective, ok_injective, none≢some,
}
use postproject.Base.Sorting.{eq_ℤ}
use postproject.Core.Text.{Bytes, eq_bytes}
use postproject.Core.Dependency.{DependencySet}
use postproject.Storage.Dependencies.Rows.{
  ArtifactDependencyPathSegment, Context, CapturedPath, DependencyEvaluation, InputRow, Production,
  Domain, Fingerprints, dependency_knowledge_incomplete, dependency_path_changed,
  dependency_fingerprint_changed, dependency_fingerprint_recomputation_pending,
  dependency_fingerprint_evidence_missing, ArtifactDependencyIssue,
}
use postproject.Storage.Dependencies.Decode.{load_paths}
use postproject.Storage.Dependencies.Evaluation.{
  lookup, domains, add_missing_fingerprint, compare_values, compare_domains, compare_fingerprints,
  evaluate_segments, evaluate_issue, evaluate_path, evaluate_paths, find_input, evaluate_snapshot,
  evaluate_input_dependencies, nothing_found, representation_fingerprint_dirty,
  current_fingerprints,
}
use postproject.Storage.Dependencies.Segments.{
  captured_issue, add_path_changed, check_segment, check_segments, load_dependency_set, waits,
  matches_at, or_else,
}
use postproject.Storage.Dependencies.Reasons.{worst, IsWorst, add-IsWorst}

check_segment-IsWorst :
    (c : Context) (path : CapturedPath) (index : ℕ) (segment : ArtifactDependencyPathSegment)
    (o : Option DependencySet) (e e' : DependencyEvaluation)
    → IsWorst e
    → check_segment c path index segment o e ≡ some e'
    → IsWorst e'
unfolding check_segment add_path_changed
check_segment-IsWorst c path index segment none e e' h k =
    subst IsWorst (some_injective k) (add-IsWorst (dependency_path_changed c path.segments) e h)
check_segment-IsWorst c path index segment (some set) e e' h k =
    elim (Bool-cases (waits set.status)) [
      | inl y ↦
          subst IsWorst (some_injective (rw y at k))
            (add-IsWorst (dependency_knowledge_incomplete c _ _ _) e h)
      | inr n ↦
          elim (Bool-cases
            (matches_at segment (get_elem? set.dependencies segment.dependency_position))) [
              | inl y ↦ absurd (none≢some (rw y at (rw n at k)))
              | inr m ↦
                  subst IsWorst (some_injective (rw m at (rw n at k)))
                    (add-IsWorst (dependency_path_changed c path.segments) e h)
            ]
    ]

check_segments-IsWorst :
    (production : Production) (c : Context) (path : CapturedPath) (index : ℕ)
    (segments : List ArtifactDependencyPathSegment) (e e' : DependencyEvaluation)
    → IsWorst e
    → check_segments production c path index segments e ≡ some e'
    → IsWorst e'
unfolding check_segments
check_segments-IsWorst production c path index [] e e' h k = absurd (none≢some k)
check_segments-IsWorst production c path index (segment ∷ segments) e e' h k =
    let set = load_dependency_set production segment.source_representation_id in
    let rest = check_segments production c path (index + 1) segments e in
    elim (Option-cases (check_segment c path index segment set e)) [
      | inl n ↦
          check_segments-IsWorst production c path (index + 1) segments e e' h
            (ap (λ o. or_else o rest) (sym n) ∙ k)
      | inr (returned, y) ↦
          subst IsWorst (some_injective (ap (λ o. or_else o rest) (sym y) ∙ k))
            (check_segment-IsWorst c path index segment set e returned h y)
    ]

compare_values-IsWorst :
    (c : Context) (path : CapturedPath) (domain : Domain) (snapshot live : Option Bytes)
    (e : DependencyEvaluation)
    → IsWorst e
    → IsWorst (compare_values c path domain snapshot live e)
unfolding compare_values add_missing_fingerprint
compare_values-IsWorst c path domain (some x) (some y) e h = elim (Bool-cases (eq_bytes x y)) [
  | inl same ↦ rw same h
  | inr n ↦ rw n (add-IsWorst (dependency_fingerprint_changed c _ _ domain x y) e h)
]
compare_values-IsWorst c path domain (some x) none e h =
    add-IsWorst (dependency_fingerprint_evidence_missing c _ _ (some domain) (some x) none) e h
compare_values-IsWorst c path domain none live e h =
    add-IsWorst (dependency_fingerprint_evidence_missing c _ _ (some domain) none live) e h

compare_domains-IsWorst :
    (c : Context) (path : CapturedPath) (live : Fingerprints) (ds : List Domain)
    (e : DependencyEvaluation)
    → IsWorst e
    → IsWorst (compare_domains c path live ds e)
unfolding compare_domains
compare_domains-IsWorst c path live [] e h = h
compare_domains-IsWorst c path live (d ∷ ds) e h =
    compare_domains-IsWorst c path live ds _
      (compare_values-IsWorst c path d (lookup d path.fingerprints) (lookup d live) e h)

compare_fingerprints-IsWorst :
    (production : Production) (c : Context) (path : CapturedPath) (e e' : DependencyEvaluation)
    → IsWorst e
    → compare_fingerprints production c path e ≡ ok e'
    → IsWorst e'
unfolding compare_fingerprints add_missing_fingerprint
compare_fingerprints-IsWorst production c path e e' h k =
    let (live, loaded, made) =
      >>=-eq-ok (current_fingerprints production path.subject_representation_id) _ k in
    subst IsWorst (ok_injective made)
      (elim (Bool-cases (is_empty (domains path.fingerprints live))) [
        | inl y ↦
            rw y (add-IsWorst (dependency_fingerprint_evidence_missing c _ _ none none none) e h)
        | inr n ↦ rw n (compare_domains-IsWorst c path live (domains path.fingerprints live) e h)
      ])

evaluate_segments-IsWorst :
    (production : Production) (c : Context) (path : CapturedPath) (e e' : DependencyEvaluation)
    (o : Option DependencyEvaluation)
    → IsWorst e
    → ((returned : DependencyEvaluation) → o ≡ some returned → IsWorst returned)
    → evaluate_segments production c path e o ≡ ok e'
    → IsWorst e'
unfolding evaluate_segments
evaluate_segments-IsWorst production c path e e' (some returned) h w k =
    subst IsWorst (ok_injective k) (w returned refl)
evaluate_segments-IsWorst production c path e e' none h w k =
    elim (Bool-cases (representation_fingerprint_dirty production path.subject_representation_id)) [
      | inl y ↦
          subst IsWorst (ok_injective (rw y at k))
            (add-IsWorst (dependency_fingerprint_recomputation_pending c _ _) e h)
      | inr n ↦ compare_fingerprints-IsWorst production c path e e' h (rw n at k)
    ]

evaluate_issue-IsWorst :
    (production : Production) (c : Context) (path : CapturedPath) (e e' : DependencyEvaluation)
    (o : Option ArtifactDependencyIssue)
    → IsWorst e
    → evaluate_issue production c path e o ≡ ok e'
    → IsWorst e'
unfolding evaluate_issue
evaluate_issue-IsWorst production c path e e' (some issue) h k =
    subst IsWorst (ok_injective k) (add-IsWorst (dependency_knowledge_incomplete c _ _ issue) e h)
evaluate_issue-IsWorst production c path e e' none h k =
    evaluate_segments-IsWorst production c path e e'
      (check_segments production c path 0 path.segments e) h
      (λ returned. check_segments-IsWorst production c path 0 path.segments e returned h) k

evaluate_paths-IsWorst :
    (production : Production) (c : Context) (paths : List CapturedPath)
    (e e' : DependencyEvaluation)
    → IsWorst e
    → evaluate_paths production c paths e ≡ ok e'
    → IsWorst e'
unfolding evaluate_paths evaluate_path
evaluate_paths-IsWorst production c [] e e' h k = subst IsWorst (ok_injective k) h
evaluate_paths-IsWorst production c (path ∷ paths) e e' h k =
    let (next, one, rest) =
      >>=-eq-ok (evaluate_path production c path e) (evaluate_paths production c paths) k in
    let (issue, _, made) =
      >>=-eq-ok (captured_issue path.status) (evaluate_issue production c path e) one in
    evaluate_paths-IsWorst production c paths next e'
      (evaluate_issue-IsWorst production c path e next issue h made) rest

evaluate_snapshot-IsWorst :
    (production : Production) (c : Context) (o : Option InputRow) (e : DependencyEvaluation)
    → evaluate_snapshot production c o ≡ ok e
    → IsWorst e
unfolding evaluate_snapshot worst
evaluate_snapshot-IsWorst production c none e k = cc
evaluate_snapshot-IsWorst production c (some input) e k =
    elim (Bool-cases (any (λ marker. eq_ℤ marker input.id) production.snapshot_markers)) [
      | inl y ↦
          let (paths, loaded, made) =
            >>=-eq-ok (load_paths production input.id)
              (λ paths. evaluate_paths production c paths nothing_found) (rw y at k) in
          evaluate_paths-IsWorst production c paths nothing_found e refl made
      | inr n ↦ subst IsWorst (ok_injective (rw n at k)) refl
    ]

-- The state of an evaluation that succeeds is current exactly where there is no reason against it,
-- stale where one reason is a change or a pending recomputation, and else indeterminate.
pub evaluate_input_dependencies-worst :
    (production : Production) (c : Context) (role : Option Bytes) (e : DependencyEvaluation)
    → evaluate_input_dependencies production c role ≡ ok e
    → e.state ≡ worst e.reasons
unfolding evaluate_input_dependencies
evaluate_input_dependencies-worst production c role e h =
    evaluate_snapshot-IsWorst production c (find_input production c role) e h
