-- ===== src/Storage/Artifact/Nodes.antt =====
-- `evaluate_artifact` of crates/postproject-storage-sqlite/src/artifact.rs. The recursion is on the
-- levels that are left below `max_depth`, which the source counts upwards.
use postproject.Base.{
  ℕ, zero, suc, ◌^◌, ◌-◌, Bool, true, false, not, Option, none, some, List, [], ◌∷◌, ◌++◌, map,
  Result, ok, storage, if◌then◌else◌, ltb, ◌==◌, length, find?, any, is_empty, ◌>>=◌, fail,
}
use postproject.Storage.Dependencies.Rows.{
  ArtifactKnowledgeState, current, stale, indeterminate, diverged, Context, DependencyEvaluation,
}
use postproject.Storage.Dependencies.Segments.{promote_state}
use postproject.Storage.Dependencies.Evaluation.{current_fingerprints, evaluate_input_dependencies}
use postproject.Storage.Artifact.Activities.{
  Activity, ActivityInput, ActivityOutput, Provenance, ArtifactTraversalLimitKind, depth,
  representations, NodeEvaluation, ArtifactEvaluationLimits, ArtifactEvaluation,
  producing_activity_missing, producing_activity_ambiguous, upstream_not_current,
  traversal_truncated, of_dependency, activities_producing, input, output,
}
use postproject.Storage.Artifact.Edges.{note, compare_edge}

pub record EvaluationContext : Type 0 where
  pub limits : ArtifactEvaluationLimits
  pub visited : List ℕ
  pub cache : List (ℕ × NodeEvaluation)
  pub truncated : Bool

abbrev pub Evaluated : Type 0
Evaluated = Result (NodeEvaluation × EvaluationContext)

unfoldable pub cached : ℕ → List (ℕ × NodeEvaluation) → Option NodeEvaluation
cached id [] = none
cached id ((i, e) ∷ entries) = if i == id then some e else cached id entries

unfoldable pub truncated_evaluation : ArtifactTraversalLimitKind → ℕ → EvaluationContext → Evaluated
truncated_evaluation limit id c = ok (
  record { state = indeterminate; reasons = traversal_truncated limit id ∷ [] },
  record { limits = c.limits; visited = c.visited; cache = c.cache; truncated = true },
)

-- Insertion into the set of what is visited.
unfoldable pub visit : ℕ → EvaluationContext → EvaluationContext
visit id c = record {
  limits = c.limits;
  visited = if any (λ v. v == id) c.visited then c.visited else id ∷ c.visited;
  cache = c.cache;
  truncated = c.truncated;
}

unfoldable pub keep : ℕ → NodeEvaluation × EvaluationContext → NodeEvaluation × EvaluationContext
keep id (e, c) = (
  e,
  record {
    limits = c.limits;
    visited = c.visited;
    cache = (id, e) ∷ c.cache;
    truncated = c.truncated;
  },
)

-- What a state upstream means downstream.
abbrev pub downstream_state : ArtifactKnowledgeState → ArtifactKnowledgeState
downstream_state stale = stale
downstream_state diverged = stale
downstream_state _ = indeterminate

abbrev pub is_current : ArtifactKnowledgeState → Bool
is_current current = true
is_current _ = false

unfoldable pub add_upstream : ℕ → NodeEvaluation → NodeEvaluation → NodeEvaluation
add_upstream id upstream e =
    let next =
      if not (is_current upstream.state)
      then note (downstream_state upstream.state) (upstream_not_current id upstream.state) e
      else e in
    record { state = next.state; reasons = next.reasons ++ upstream.reasons }

unfoldable pub add_dependencies : DependencyEvaluation → NodeEvaluation → NodeEvaluation
add_dependencies d e = record {
  state = promote_state e.state d.state;
  reasons = e.reasons ++ map of_dependency d.reasons;
}

abbrev pub dependency_context : Activity → ActivityInput → Context
dependency_context a i = record {
  activity_id = a.id;
  input_representation_id = i.representation_id;
}

unfoldable pub find_output : ℕ → Activity → Result ActivityOutput
find_output id a = elim (find? (λ (o : ActivityOutput). o.representation_id == id) a.outputs) [
  | none ↦ fail storage "producing activity has no matching output edge"
  | some o ↦ ok o
]

-- `u32::try_from(n).unwrap_or(u32::MAX)`.
abbrev pub count_u32 : ℕ → ℕ
count_u32 n = if ltb n (2 ^ 32) then n else 2 ^ 32 - 1

module _ (p : Provenance) where
  -- An input without the recursion upstream.
  unfoldable pub evaluate_input : Activity → ActivityInput → NodeEvaluation → Result NodeEvaluation
  evaluate_input a i e = do
    live ← current_fingerprints p.production i.representation_id
    d ← evaluate_input_dependencies p.production (dependency_context a i) i.role
    ok (
        add_dependencies d
          (compare_edge a.id i.representation_id input p.production live i.snapshot e))

  -- The recursion upstream, for an input that something produces.
  unfoldable pub evaluate_upstream :
      (ℕ → EvaluationContext → Evaluated) → ℕ → NodeEvaluation → EvaluationContext → Evaluated
  evaluate_upstream child id e c = activities_producing p id >>= λ producers.
      if not (is_empty producers)
      then (child id c >>= λ (upstream, next). ok (add_upstream id upstream e, next))
      else ok (e, c)

  unfoldable pub evaluate_inputs :
      (ℕ → EvaluationContext → Evaluated)
      → Activity
      → List ActivityInput
      → NodeEvaluation
      → EvaluationContext
      → Evaluated
  evaluate_inputs child a [] e c = ok (e, c)
  evaluate_inputs child a (i ∷ inputs) e c = evaluate_input a i e >>= λ next.
      evaluate_upstream child i.representation_id next c >>= λ (next, d).
      evaluate_inputs child a inputs next d

  unfoldable pub evaluate_activity_output :
      (ℕ → EvaluationContext → Evaluated) → Activity → ℕ → EvaluationContext → Evaluated
  evaluate_activity_output child a id c = do
    o ← find_output id a
    live ← current_fingerprints p.production id
    evaluate_inputs child a a.inputs
        (compare_edge a.id id output p.production live o.snapshot
          (record { state = current; reasons = [] }))
        c

  -- The arms of the `match` on the producers.
  unfoldable pub evaluate_producers :
      (ℕ → EvaluationContext → Evaluated) → ℕ → List Activity → EvaluationContext → Evaluated
  evaluate_producers child id [] c =
      ok (record { state = indeterminate; reasons = producing_activity_missing id ∷ [] }, c)
  evaluate_producers child id (a ∷ []) c = evaluate_activity_output child a id c
  evaluate_producers child id (a ∷ b ∷ others) c = ok (
    record {
      state = indeterminate;
      reasons = producing_activity_ambiguous id (count_u32 (length (a ∷ b ∷ others))) ∷ [];
    },
    c,
  )

  -- The part of `evaluate_artifact_node` after the look into the cache.
  unfoldable pub evaluate_uncached :
      (ℕ → EvaluationContext → Evaluated) → ℕ → EvaluationContext → Evaluated
  evaluate_uncached child id c =
      if not (ltb (length c.visited) c.limits.max_representations)
      then truncated_evaluation representations id c
      else (activities_producing p id >>= λ producers.
          evaluate_producers child id producers (visit id c) >>= λ found. ok (keep id found))

  abbrev pub from_cache : Option NodeEvaluation → EvaluationContext → Evaluated → Evaluated
  from_cache (some e) c rest = ok (e, c)
  from_cache none c rest = rest

  unfoldable pub evaluate_artifact_node : ℕ → ℕ → EvaluationContext → Evaluated
  evaluate_artifact_node zero id c =
      from_cache (cached id c.cache) c (truncated_evaluation depth id c)
  evaluate_artifact_node (suc levels) id c =
      from_cache (cached id c.cache) c (evaluate_uncached (evaluate_artifact_node levels) id c)

  abbrev pub first_context : ArtifactEvaluationLimits → EvaluationContext
  first_context limits = record { limits = limits; visited = []; cache = []; truncated = false }

  unfoldable pub evaluate_artifact : ℕ → ArtifactEvaluationLimits → Result ArtifactEvaluation
  evaluate_artifact id limits = current_fingerprints p.production id >>= λ _.
      evaluate_artifact_node (suc limits.max_depth) id (first_context limits) >>= λ (e, c).
      if ltb (length c.visited) (2 ^ 32)
      then ok (record {
        representation_id = id;
        state = e.state;
        reasons = e.reasons;
        visited_representations = length c.visited;
        truncated = c.truncated;
      })
      else fail storage "artifact traversal count is unsupported"
