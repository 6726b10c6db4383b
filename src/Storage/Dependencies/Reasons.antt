-- ===== src/Storage/Dependencies/Reasons.antt =====
-- The reasons of an evaluation of
-- crates/postproject-storage-sqlite/src/dependency_evaluation.rs, and the state that they stand
-- for.
use postproject.Base.{
  ◌≡◌, refl, Bool, true, false, ◌||◌, List, [], ◌∷◌, ◌++◌, arith, if◌then◌else◌, any, is_empty,
}
use postproject.Storage.Dependencies.Rows.{
  ArtifactKnowledgeState, current, stale, indeterminate, ArtifactKnowledgeReason,
  DependencyEvaluation, dependency_snapshot_absent, dependency_knowledge_incomplete,
  dependency_path_changed, dependency_fingerprint_changed,
  dependency_fingerprint_recomputation_pending, dependency_fingerprint_evidence_missing,
}
use postproject.Storage.Dependencies.Segments.{promote_state, add}

-- The state that one reason alone stands for.
abbrev pub reason_state : ArtifactKnowledgeReason → ArtifactKnowledgeState
reason_state (dependency_snapshot_absent _) = indeterminate
reason_state (dependency_knowledge_incomplete _ _ _ _) = indeterminate
reason_state (dependency_path_changed _ _) = stale
reason_state (dependency_fingerprint_changed _ _ _ _ _ _) = stale
reason_state (dependency_fingerprint_recomputation_pending _ _ _) = stale
reason_state (dependency_fingerprint_evidence_missing _ _ _ _ _ _) = indeterminate

-- A reason of that state is among them.
abbrev pub some_reason : (ArtifactKnowledgeState → Bool) → List ArtifactKnowledgeReason → Bool
some_reason p reasons = any (λ r. p (reason_state r)) reasons

abbrev pub is_stale : ArtifactKnowledgeState → Bool
is_stale stale = true
is_stale _ = false

-- Without a reason nothing is wrong; a stale one outweighs those that leave it undecided.
unfoldable pub worst : List ArtifactKnowledgeReason → ArtifactKnowledgeState
worst reasons =
    if is_empty reasons
    then current
    else if some_reason is_stale reasons
    then stale
    else indeterminate

some_reason-append :
    (p : ArtifactKnowledgeState → Bool) (xs : List ArtifactKnowledgeReason)
    (r : ArtifactKnowledgeReason)
    → some_reason p (xs ++ r ∷ []) ≡ (some_reason p xs || p (reason_state r))
some_reason-append p [] r = ground arith
some_reason-append p (x ∷ xs) r = ground (arith, some_reason-append p xs r)

is_empty-append :
    (xs : List ArtifactKnowledgeReason) (r : ArtifactKnowledgeReason)
    → is_empty (xs ++ r ∷ []) ≡ false
is_empty-append [] r = refl
is_empty-append (x ∷ xs) r = refl

abbrev pub IsWorst : DependencyEvaluation → Type 0
IsWorst e = e.state ≡ worst e.reasons

is_stale-empty :
    (xs : List ArtifactKnowledgeReason) → is_empty xs ≡ true → some_reason is_stale xs ≡ false
is_stale-empty [] h = refl
is_stale-empty (x ∷ xs) h = cc

promoted :
    (reason : ArtifactKnowledgeReason) (b t : Bool)
    → (b ≡ true → t ≡ false)
    → promote_state
        (if b then current else if t then stale else indeterminate)
        (reason_state reason)
      ≡ (if t || is_stale (reason_state reason) then stale else indeterminate)
unfolding promote_state
promoted (dependency_snapshot_absent _) b t h = ground (arith, h)
promoted (dependency_knowledge_incomplete _ _ _ _) b t h = ground (arith, h)
promoted (dependency_path_changed _ _) b t h = ground (arith, h)
promoted (dependency_fingerprint_changed _ _ _ _ _ _) b t h = ground (arith, h)
promoted (dependency_fingerprint_recomputation_pending _ _ _) b t h = ground (arith, h)
promoted (dependency_fingerprint_evidence_missing _ _ _ _ _ _) b t h = ground (arith, h)

pub add-IsWorst :
    (reason : ArtifactKnowledgeReason) (e : DependencyEvaluation)
    → IsWorst e
    → IsWorst (add (reason_state reason) reason e)
unfolding add worst
add-IsWorst reason e h = rw (some_reason-append is_stale e.reasons reason) (
    rw (is_empty-append e.reasons reason) (
      rw h (
        promoted reason (is_empty e.reasons) (some_reason is_stale e.reasons)
          (is_stale-empty e.reasons))))
