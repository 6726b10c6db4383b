-- ===== src/Storage/Dependencies/Holds.antt =====
-- When a captured path of crates/postproject-storage-sqlite/src/dependency_evaluation.rs holds.
use postproject.Base.{
  ℕ, ◌+◌, ◌≡◌, refl, ap, ◌∙◌, true, false, none, some, List, [], ◌∷◌, ok, All, is_empty, get_elem?,
  ◌>>=◌,
}
use postproject.Base.Int.{pos}
use postproject.Core.Text.{Bytes, eq_bytes_refl}
use postproject.Core.Dependency.{DependencySet}
use postproject.Storage.Dependencies.Rows.{
  ArtifactDependencyPathSegment, Context, CapturedPath, DependencyEvaluation, Production, Domain,
  Fingerprints,
}
use postproject.Storage.Dependencies.Evaluation.{
  lookup, domains, compare_values, compare_domains, compare_fingerprints, evaluate_segments,
  evaluate_issue, evaluate_path, representation_fingerprint_dirty, current_fingerprints,
}
use postproject.Storage.Dependencies.Segments.{
  captured_issue, check_segment, check_segments, load_dependency_set, waits, matches_at, or_else,
}

-- The segment is a current dependency of the set that is recorded for its source.
abbrev pub SegmentHolds : Production → ArtifactDependencyPathSegment → Type 0
SegmentHolds production segment =
    (set : DependencySet) × (load_dependency_set production segment.source_representation_id
      ≡ some set)
    × (waits set.status ≡ false)
    × (matches_at segment (get_elem? set.dependencies segment.dependency_position) ≡ true)

-- The value is captured and current.
abbrev pub SameValue : Fingerprints → Fingerprints → Domain → Type 0
SameValue snapshot live d = (v : Bytes) × (lookup d snapshot ≡ some v) × (lookup d live ≡ some v)

pub record Holds (production : Production) (path : CapturedPath) : Type 0 where
  pub complete : path.status ≡ pos 0
  pub segments_hold : All (SegmentHolds production) path.segments
  pub is_clean : representation_fingerprint_dirty production path.subject_representation_id ≡ false
  pub live : Fingerprints
  pub is_live : current_fingerprints production path.subject_representation_id ≡ ok live
  pub has_evidence : is_empty (domains path.fingerprints live) ≡ false
  pub same_values : All (SameValue path.fingerprints live) (domains path.fingerprints live)

check_segments-hold :
    (production : Production) (c : Context) (path : CapturedPath) (index : ℕ)
    (segments : List ArtifactDependencyPathSegment) (e : DependencyEvaluation)
    → All (SegmentHolds production) segments
    → check_segments production c path index segments e ≡ none
unfolding check_segments check_segment
check_segments-hold production c path index [] e a = refl
check_segments-hold production c path index (segment ∷ segments) e a =
    let (set, found, settled, same) = a.0 in
    let rest = check_segments production c path (index + 1) segments e in
    ap (λ o. or_else (check_segment c path index segment o e) rest) found
    ∙ rw settled (rw same (check_segments-hold production c path (index + 1) segments e a.1))

compare_domains-hold :
    (c : Context) (path : CapturedPath) (live : Fingerprints) (ds : List Domain)
    (e : DependencyEvaluation)
    → All (SameValue path.fingerprints live) ds
    → compare_domains c path live ds e ≡ e
unfolding compare_domains compare_values
compare_domains-hold c path live [] e a = refl
compare_domains-hold c path live (d ∷ ds) e a =
    let (v, captured, now) = a.0 in
    let unchanged : compare_values c path d (lookup d path.fingerprints) (lookup d live) e ≡ e =
      rw captured (rw now (rw (eq_bytes_refl v) refl)) in
    ap (compare_domains c path live ds) unchanged ∙ compare_domains-hold c path live ds e a.1

captured_complete : captured_issue (pos 0) ≡ ok none
unfolding captured_issue
captured_complete = refl

pub evaluate_path_complete :
    (production : Production) (c : Context) (path : CapturedPath) (e : DependencyEvaluation)
    → Holds production path
    → evaluate_path production c path e ≡ ok e
unfolding evaluate_path evaluate_issue evaluate_segments compare_fingerprints
evaluate_path_complete production c path e h =
    ap (λ o. o >>= evaluate_issue production c path e)
      (ap captured_issue h.complete ∙ captured_complete)
    ∙ ap (evaluate_segments production c path e)
        (check_segments-hold production c path 0 path.segments e h.segments_hold)
    ∙ rw h.is_clean (
        rw h.is_live (
          rw h.has_evidence (
            ap ok (
              compare_domains-hold c path h.live (domains path.fingerprints h.live) e
                h.same_values))))
