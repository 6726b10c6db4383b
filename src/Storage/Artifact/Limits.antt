-- ===== src/Storage/Artifact/Limits.antt =====
-- How the limits of an evaluation of crates/postproject-storage-sqlite/src/artifact.rs show.
use postproject.Base.{
  ℕ, zero, suc, ◌^◌, ◌≡◌, ◌≤◌, ◌<◌, refl, sym, ap, subst, ◌∙◌, Bool, true, false, ◌||◌, ◌==◌, List,
  [], ◌∷◌, All, arith, Result, ok, err, if◌then◌else◌, ltb, length, any, ◌>>=◌, inl, inr,
  Bool-cases, >>=-eq-ok, ok_injective, ok≢err, fail, storage,
}
use postproject.Storage.Dependencies.Rows.{current}
use postproject.Storage.Dependencies.Evaluation.{current_fingerprints}
use postproject.Storage.Artifact.Activities.{
  Activity, Provenance, ArtifactTraversalLimitKind, NodeEvaluation, ArtifactEvaluation,
  ArtifactEvaluationLimits, activities_producing, output, depth, representations,
}
use postproject.Storage.Artifact.Nodes.{
  EvaluationContext, Evaluated, cached, truncated_evaluation, visit, keep, find_output,
  evaluate_inputs, evaluate_activity_output, evaluate_producers, evaluate_uncached, from_cache,
  evaluate_artifact_node, first_context, evaluate_artifact,
}
use postproject.Storage.Artifact.Cuts.{cut, is_truncation, ||-false, compare_edge-cut}
use postproject.Storage.Artifact.Inputs.{
  IsWithin, Ends, Ends-bind, Ends-then, Ends-map, Counted, Counts, evaluate_inputs-Further,
}

module _ (p : Provenance) (limits : ArtifactEvaluationLimits) where
  evaluate_producers-Counted :
      (child : ℕ → EvaluationContext → Evaluated) (id : ℕ) (producers : List Activity)
      (c : EvaluationContext)
      → Counts p limits child
      → IsWithin limits c
      → Ends (Counted p limits c.truncated) (evaluate_producers p child id producers c)
  unfolding evaluate_producers evaluate_activity_output
  evaluate_producers-Counted child id [] c counts within = (within, sym (||-false c.truncated))
  evaluate_producers-Counted child id (a ∷ []) c counts within =
      Ends-then _ (find_output id a) _ (λ o _.
        Ends-then _ (current_fingerprints p.production id) _ (λ live _.
          Ends-map _ _ (evaluate_inputs p child a a.inputs _ c)
            (evaluate_inputs-Further p limits child a a.inputs _ c counts within)
            (λ e d (within', (t, h, k)). (
              within',
              k
                  ∙ ap (λ b. c.truncated || b)
                      (sym (
                        h
                        ∙ ap (λ b. b || t)
                            (compare_edge-cut a.id id output p.production live o.snapshot
                              (record { state = current; reasons = [] })))),
            ))))
  evaluate_producers-Counted child id (a ∷ b ∷ others) c counts within =
      (within, sym (||-false c.truncated))

  ||-true : (b : Bool) → true ≡ (b || true)
  ||-true true = refl
  ||-true false = refl

  absorbed : (t b : Bool) → (b ≡ true → t ≡ true) → t ≡ (t || b)
  absorbed true b h = refl
  absorbed false true h = h refl
  absorbed false false h = refl

  All-flagged :
      (entries : List (ℕ × NodeEvaluation))
      → All (λ entry. cut entry.1 ≡ true → true ≡ true) entries
  All-flagged [] = tt
  All-flagged (entry ∷ entries) = ((λ _. refl), All-flagged entries)

  truncated-Counted :
      (limit : ArtifactTraversalLimitKind) (id : ℕ) (c : EvaluationContext)
      → IsWithin limits c
      → Ends (Counted p limits c.truncated) (truncated_evaluation limit id c)
  unfolding truncated_evaluation
  truncated-Counted limit id c within = (
    record { own = within.own; bounded = within.bounded; flagged = All-flagged c.cache },
    ||-true c.truncated,
  )

  visit-IsWithin :
      (id : ℕ) (c : EvaluationContext)
      → IsWithin limits c
      → length c.visited < limits.max_representations
      → IsWithin limits (visit id c)
  unfolding visit
  visit-IsWithin id c within h = record {
    own = within.own;
    bounded = elim (Bool-cases (any (λ v. v == id) c.visited)) [
      | inl y ↦ rw y within.bounded
      | inr n ↦ rw n (omega (arith, h))
    ];
    flagged = within.flagged;
  }

  keep-Counted :
      (id : ℕ) (e : NodeEvaluation) (flag : Bool) (d : EvaluationContext)
      → Counted p limits flag e d
      → Ends (Counted p limits flag) (ok (keep id (e, d)))
  unfolding keep
  keep-Counted id e flag d (within, h) = (
    record {
      own = within.own;
      bounded = within.bounded;
      flagged = ((λ t. h ∙ ap (λ b. flag || b) t ∙ sym (||-true flag)), within.flagged);
    },
    h,
  )

  under_limit : (n m k : ℕ) → m ≡ k → ltb n m ≡ true → n < k
  under_limit n m k e h = ground (arith, e)

  evaluate_uncached-Counted :
      (child : ℕ → EvaluationContext → Evaluated) (id : ℕ) (c : EvaluationContext)
      → Counts p limits child
      → IsWithin limits c
      → Ends (Counted p limits c.truncated) (evaluate_uncached p child id c)
  unfolding evaluate_uncached visit
  evaluate_uncached-Counted child id c counts within =
      elim (Bool-cases (ltb (length c.visited) c.limits.max_representations)) [
        | inr n ↦ rw n (truncated-Counted representations id c within)
        | inl y ↦
            let small : length c.visited < limits.max_representations =
              under_limit _ _ _
                (ap (λ (l : ArtifactEvaluationLimits). l.max_representations) within.own) y in
            rw y (
              Ends-then _ (activities_producing p id) _ (λ producers _.
                Ends-bind _ _ (evaluate_producers p child id producers (visit id c)) _
                  (evaluate_producers-Counted child id producers (visit id c) counts
                    (visit-IsWithin id c within small))
                  (λ e d counted. keep-Counted id e c.truncated d counted)))
      ]

  from_cache-Counted :
      (id : ℕ) (c : EvaluationContext) (entries : List (ℕ × NodeEvaluation)) (rest : Evaluated)
      → IsWithin limits c
      → All (λ entry. cut entry.1 ≡ true → c.truncated ≡ true) entries
      → Ends (Counted p limits c.truncated) rest
      → Ends (Counted p limits c.truncated) (from_cache p (cached id entries) c rest)
  unfolding cached
  from_cache-Counted id c [] rest within flagged h = h
  from_cache-Counted id c ((i, e) ∷ entries) rest within flagged h = elim (Bool-cases (i == id)) [
    | inl y ↦ rw y (within, absorbed c.truncated (cut e) flagged.0)
    | inr n ↦ rw n (from_cache-Counted id c entries rest within flagged.1 h)
  ]

  evaluate_artifact_node-Counts : (levels : ℕ) → Counts p limits (evaluate_artifact_node p levels)
  unfolding evaluate_artifact_node
  evaluate_artifact_node-Counts zero id c within =
      from_cache-Counted id c c.cache _ within within.flagged (truncated-Counted depth id c within)
  evaluate_artifact_node-Counts (suc levels) id c within =
      from_cache-Counted id c c.cache _ within within.flagged (
        evaluate_uncached-Counted (evaluate_artifact_node p levels) id c
          (evaluate_artifact_node-Counts levels) within)

  abbrev finish : ℕ → NodeEvaluation × EvaluationContext → Result ArtifactEvaluation
  finish id (e, c) =
      if ltb (length c.visited) (2 ^ 32)
      then ok (record {
        representation_id = id;
        state = e.state;
        reasons = e.reasons;
        visited_representations = length c.visited;
        truncated = c.truncated;
      })
      else fail storage "artifact traversal count is unsupported"

  abbrev IsAccounted : ArtifactEvaluation → Type 0
  IsAccounted e =
      (e.visited_representations ≤ limits.max_representations)
      × (e.truncated ≡ any is_truncation e.reasons)

  finish-IsAccounted :
      (id : ℕ) (r : Evaluated) (e : ArtifactEvaluation)
      → Ends (Counted p limits false) r
      → (r >>= finish id) ≡ ok e
      → IsAccounted e
  finish-IsAccounted id (ok (n, c)) e h k = elim (Bool-cases (ltb (length c.visited) (2 ^ 32))) [
    | inl y ↦ subst IsAccounted (ok_injective (rw y at k)) (h.0.bounded, h.1)
    | inr m ↦ absurd (ok≢err (sym (rw m at k)))
  ]
  finish-IsAccounted id (err x) e h k = absurd (ok≢err (sym k))

  -- An evaluation visits at most as many representations as its limits allow, and says that it is
  -- truncated exactly where one of its reasons is that a limit was hit.
  pub evaluate_artifact-limits :
      (id : ℕ) (e : ArtifactEvaluation)
      → evaluate_artifact p id limits ≡ ok e
      → (e.visited_representations ≤ limits.max_representations)
        × (e.truncated ≡ any is_truncation e.reasons)
  unfolding evaluate_artifact
  evaluate_artifact-limits id e h =
      let (live, at, rest) = >>=-eq-ok (current_fingerprints p.production id) _ h in
      finish-IsAccounted id
        (evaluate_artifact_node p (suc limits.max_depth) id (first_context p limits)) e
        (evaluate_artifact_node-Counts (suc limits.max_depth) id (first_context p limits)
          (record { own = refl; bounded = omega arith; flagged = tt }))
        rest
