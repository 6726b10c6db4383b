-- ===== src/Storage/Artifact/Inputs.antt =====
-- What the loop over the inputs of crates/postproject-storage-sqlite/src/artifact.rs does to the
-- context and to the cuts among the reasons.
use postproject.Base.{
  ℕ, ◌≡◌, ◌≤◌, refl, sym, ap, ◌∙◌, Bool, true, false, ◌||◌, List, [], ◌∷◌, All, Result, ok, err,
  length, is_empty, ◌>>=◌, inl, inr, Bool-cases, >>=-eq-ok, ok_injective,
}
use postproject.Storage.Dependencies.Evaluation.{current_fingerprints, evaluate_input_dependencies}
use postproject.Storage.Artifact.Activities.{
  Activity, ActivityInput, Provenance, NodeEvaluation, ArtifactEvaluationLimits,
  activities_producing, input,
}
use postproject.Storage.Artifact.Edges.{compare_edge}
use postproject.Storage.Artifact.Nodes.{
  EvaluationContext, Evaluated, dependency_context, add_dependencies, evaluate_input,
  evaluate_upstream, evaluate_inputs,
}
use postproject.Storage.Artifact.Cuts.{
  cut, ||-assoc, ||-false, compare_edge-cut, add_dependencies-cut, add_upstream-cut,
}

-- The context is within its limits, and a cut evaluation in its cache has set the flag.
pub record IsWithin (limits : ArtifactEvaluationLimits) (c : EvaluationContext) : Type 0 where
  pub own : c.limits ≡ limits
  pub bounded : length c.visited ≤ limits.max_representations
  pub flagged : All (λ entry. cut entry.1 ≡ true → c.truncated ≡ true) c.cache

-- The property of a result and of the context after it.
abbrev pub Ends : (NodeEvaluation → EvaluationContext → Type 0) → Evaluated → Type 0
Ends Q (ok (e, c)) = Q e c
Ends Q (err x) = Unit {0}

pub Ends-bind :
    (Q R : NodeEvaluation → EvaluationContext → Type 0) (r : Evaluated)
    (f : NodeEvaluation × EvaluationContext → Evaluated)
    → Ends Q r
    → ((e : NodeEvaluation) (c : EvaluationContext) → Q e c → Ends R (f (e, c)))
    → Ends R (r >>= f)
Ends-bind Q R (ok (e, c)) f h k = k e c h
Ends-bind Q R (err x) f h k = tt

pub Ends-then :
    {A : Type 0} (R : NodeEvaluation → EvaluationContext → Type 0) (r : Result A)
    (f : A → Evaluated)
    → ((a : A) → r ≡ ok a → Ends R (f a))
    → Ends R (r >>= f)
Ends-then R (ok a) f k = k a refl
Ends-then R (err x) f k = tt

pub Ends-map :
    (Q R : NodeEvaluation → EvaluationContext → Type 0) (r : Evaluated)
    → Ends Q r
    → ((e : NodeEvaluation) (c : EvaluationContext) → Q e c → R e c)
    → Ends R r
Ends-map Q R (ok (e, c)) h k = k e c h
Ends-map Q R (err x) h k = tt

module _ (p : Provenance) (limits : ArtifactEvaluationLimits) where
  -- From an evaluation and a flag on, both are set further by the same cuts.
  abbrev pub Further : NodeEvaluation → Bool → NodeEvaluation → EvaluationContext → Type 0
  Further e flag f d =
      IsWithin limits d × ((t : Bool) × (cut f ≡ (cut e || t)) × (d.truncated ≡ (flag || t)))

  abbrev pub Counted : Bool → NodeEvaluation → EvaluationContext → Type 0
  Counted flag e d = IsWithin limits d × (d.truncated ≡ (flag || cut e))

  abbrev pub Counts : (ℕ → EvaluationContext → Evaluated) → Type 0
  Counts child =
      (id : ℕ) (c : EvaluationContext) → IsWithin limits c → Ends (Counted c.truncated) (child id c)

  evaluate_upstream-Further :
      (child : ℕ → EvaluationContext → Evaluated) (id : ℕ) (e : NodeEvaluation)
      (c : EvaluationContext)
      → Counts child
      → IsWithin limits c
      → Ends (Further e c.truncated) (evaluate_upstream p child id e c)
  unfolding evaluate_upstream
  evaluate_upstream-Further child id e c counts within =
      Ends-then _ (activities_producing p id) _ (λ producers at.
        elim (Bool-cases (is_empty producers)) [
          | inl y ↦ rw y (within, (false, sym (||-false (cut e)), sym (||-false c.truncated)))
          | inr n ↦ rw n (
              Ends-bind _ _ (child id c) _ (counts id c within) (λ upstream d known.
                (known.0, (cut upstream, add_upstream-cut id upstream e, known.1))))
        ])

  evaluate_input-cut :
      (a : Activity) (i : ActivityInput) (e next : NodeEvaluation)
      → evaluate_input p a i e ≡ ok next
      → cut next ≡ cut e
  unfolding evaluate_input
  evaluate_input-cut a i e next h =
      let compared = compare_edge a.id i.representation_id input p.production in
      let dependencies = evaluate_input_dependencies p.production (dependency_context a i) i.role in
      let (live, at, rest) =
        >>=-eq-ok (current_fingerprints p.production i.representation_id)
          (λ live. dependencies >>= λ d. ok (add_dependencies d (compared live i.snapshot e))) h in
      let (d, found, same) =
        >>=-eq-ok dependencies (λ d. ok (add_dependencies d (compared live i.snapshot e))) rest in
      ap cut (sym (ok_injective same))
      ∙ add_dependencies-cut d (compared live i.snapshot e)
      ∙ compare_edge-cut a.id i.representation_id input p.production live i.snapshot e

  Further-then :
      (e f g : NodeEvaluation) (flag : Bool) (d : EvaluationContext) (x : EvaluationContext)
      → Further e flag f d
      → Further f d.truncated g x
      → Further e flag g x
  Further-then e f g flag d x (within, (t, h, k)) (within', (t', h', k')) = (
    within',
    (
      t || t',
      h' ∙ ap (λ b. b || t') h ∙ ||-assoc (cut e) t t',
      k' ∙ ap (λ b. b || t') k ∙ ||-assoc flag t t',
    ),
  )

  pub evaluate_inputs-Further :
      (child : ℕ → EvaluationContext → Evaluated) (a : Activity) (is : List ActivityInput)
      (e : NodeEvaluation) (c : EvaluationContext)
      → Counts child
      → IsWithin limits c
      → Ends (Further e c.truncated) (evaluate_inputs p child a is e c)
  unfolding evaluate_inputs
  evaluate_inputs-Further child a [] e c counts within =
      (within, (false, sym (||-false (cut e)), sym (||-false c.truncated)))
  evaluate_inputs-Further child a (i ∷ is) e c counts within =
      Ends-then _ (evaluate_input p a i e) _ (λ next at.
        Ends-bind _ _ (evaluate_upstream p child i.representation_id next c) _
          (evaluate_upstream-Further child i.representation_id next c counts within)
          (λ after d one.
            Ends-map _ _ (evaluate_inputs p child a is after d)
              (evaluate_inputs-Further child a is after d counts one.0)
              (λ f x rest.
                let (within', (t, h, k)) = Further-then next after f c.truncated d x one rest in
                (within', (t, h ∙ ap (λ b. b || t) (evaluate_input-cut a i e next at), k)))))
