-- ===== src/Storage/Artifact/Upstream.antt =====
-- What is upstream of a representation, for the evaluation of
-- crates/postproject-storage-sqlite/src/artifact.rs, and its loop over the inputs.
use postproject.Base.{
  ℕ, ◌≡◌, refl, sym, ap, subst, ◌∙◌, false, List, [], ◌∷◌, All, In, Result, ok, err, is_empty,
  ◌>>=◌, inl, inr, Bool-cases, >>=-eq-ok, ok_injective,
}
use mathlib.Core.Bool.{true≢false}
use postproject.Storage.Dependencies.Rows.{current}
use postproject.Storage.Dependencies.Evaluation.{current_fingerprints, evaluate_input_dependencies}
use postproject.Storage.Artifact.Activities.{
  Activity, ActivityInput, Provenance, NodeEvaluation, activities_producing, input,
}
use postproject.Storage.Artifact.Edges.{compare_edge}
use postproject.Storage.Artifact.Nodes.{
  EvaluationContext, Evaluated, dependency_context, add_dependencies, evaluate_input,
  evaluate_upstream, evaluate_inputs,
}
use postproject.Storage.Artifact.Known.{
  IsKnownInput, IsUpToDate, add_dependencies-current, add_upstream-current, compare_edge-current,
}

-- `q` is the representation itself, or upstream of an input, which something produces, of an
-- activity that produces it.
pub data Upstream (p : Provenance) (q : ℕ) : ℕ → Type 0 where
  itself : Upstream p q q
  through :
      {id : ℕ} (producers : List Activity) (a : Activity) (i : ActivityInput)
      (above : List Activity)
      → activities_producing p id ≡ ok producers
      → In a producers
      → In i a.inputs
      → activities_producing p i.representation_id ≡ ok above
      → is_empty above ≡ false
      → Upstream p q i.representation_id
      → Upstream p q id

module _ (p : Provenance) where
  abbrev pub IsClean : ℕ → Type 0
  IsClean id = (q : ℕ) → Upstream p q id → IsUpToDate p q

  -- What the cache holds as current is clean.
  abbrev pub AllClean : List (ℕ × NodeEvaluation) → Type 0
  AllClean = All (λ entry. entry.1.state ≡ current → IsClean entry.0)

  -- The result keeps the cache so, and its evaluation has the property.
  abbrev pub Ends : (NodeEvaluation → Type 0) → Evaluated → Type 0
  Ends Q (ok (e, c)) = AllClean c.cache × Q e
  Ends Q (err x) = Unit {0}

  pub Ends-bind :
      (Q R : NodeEvaluation → Type 0) (r : Evaluated)
      (f : NodeEvaluation × EvaluationContext → Evaluated)
      → Ends Q r
      → ((e : NodeEvaluation) (c : EvaluationContext) → AllClean c.cache → Q e → Ends R (f (e, c)))
      → Ends R (r >>= f)
  Ends-bind Q R (ok (e, c)) f h k = k e c h.0 h.1
  Ends-bind Q R (err x) f h k = tt

  pub Ends-then :
      {A : Type 0} (R : NodeEvaluation → Type 0) (r : Result A) (f : A → Evaluated)
      → ((a : A) → r ≡ ok a → Ends R (f a))
      → Ends R (r >>= f)
  Ends-then R (ok a) f k = k a refl
  Ends-then R (err x) f k = tt

  pub Ends-map :
      (Q R : NodeEvaluation → Type 0) (r : Evaluated)
      → Ends Q r
      → ((e : NodeEvaluation) → Q e → R e)
      → Ends R r
  Ends-map Q R (ok (e, c)) h k = (h.0, k e h.1)
  Ends-map Q R (err x) h k = tt

  -- What the recursion gives.
  abbrev pub Sound : (ℕ → EvaluationContext → Evaluated) → Type 0
  Sound child =
      (id : ℕ) (c : EvaluationContext)
      → AllClean c.cache
      → Ends (λ e. e.state ≡ current → IsClean id) (child id c)

  abbrev pub IsCleanInput : Activity → ActivityInput → Type 0
  IsCleanInput a i =
      IsKnownInput p a i
      × ((above : List Activity)
          → activities_producing p i.representation_id ≡ ok above
          → is_empty above ≡ false
          → IsClean i.representation_id)

  All-In :
      {a : Activity} (is : List ActivityInput) (i : ActivityInput)
      → All (IsCleanInput a) is
      → In i is
      → IsCleanInput a i
  All-In [] i h m = absurd m
  All-In (j ∷ is) i h (inl e) = subst (IsCleanInput _) (sym e) h.0
  All-In (j ∷ is) i h (inr m) = All-In is i h.1 m

  single-In : (a b : Activity) → In a (b ∷ []) → a ≡ b
  single-In a b (inl e) = e
  single-In a b (inr m) = absurd m

  pub All-known :
      (a : Activity) (is : List ActivityInput) → All (IsCleanInput a) is → All (IsKnownInput p a) is
  All-known a [] h = tt
  All-known a (i ∷ is) h = (h.0.0, All-known a is h.1)

  pub IsClean-from :
      (id : ℕ) (known : IsUpToDate p id)
      → All (IsCleanInput known.activity) known.activity.inputs
      → IsClean id
  IsClean-from id known h q itself = known
  IsClean-from id known h q (through producers a i above at m n up found u) =
      let same : producers ≡ known.activity ∷ [] = ok_injective (sym at ∙ known.unique) in
      let one : a ≡ known.activity = single-In a known.activity (subst (In a) same m) in
      (All-In known.activity.inputs i h (subst (λ (b : Activity). In i b.inputs) one n)).1 above up
        found q u

  evaluate_upstream-Ends :
      (child : ℕ → EvaluationContext → Evaluated) (id : ℕ) (e : NodeEvaluation)
      (c : EvaluationContext)
      → Sound child
      → AllClean c.cache
      → Ends
          (λ f.
            f.state ≡ current
            → (e.state ≡ current)
              × ((above : List Activity)
                  → activities_producing p id ≡ ok above
                  → is_empty above ≡ false
                  → IsClean id))
          (evaluate_upstream p child id e c)
  unfolding evaluate_upstream
  evaluate_upstream-Ends child id e c sound clean =
      Ends-then _ (activities_producing p id) _ (λ producers at.
        elim (Bool-cases (is_empty producers)) [
          | inl y ↦ rw y (
            clean,
            λ h. (
              h,
              λ above up found.
                  absurd (true≢false (sym y ∙ ap is_empty (ok_injective (sym at ∙ up)) ∙ found)),
            ),
          )
          | inr n ↦ rw n (
              Ends-bind _ _ (child id c) _ (sound id c clean) (λ upstream d kept known. (
                kept,
                λ h.
                    let (start, above) = add_upstream-current id upstream e h in
                    (start, λ _ _ _. known above),
              )))
        ])

  evaluate_input-known :
      (a : Activity) (i : ActivityInput) (e next : NodeEvaluation)
      → evaluate_input p a i e ≡ ok next
      → next.state ≡ current
      → (e.state ≡ current) × IsKnownInput p a i
  unfolding evaluate_input
  evaluate_input-known a i e next h k =
      let compared = compare_edge a.id i.representation_id input p.production in
      let dependencies = evaluate_input_dependencies p.production (dependency_context a i) i.role in
      let (live, at, rest) =
        >>=-eq-ok (current_fingerprints p.production i.representation_id)
          (λ live. dependencies >>= λ d. ok (add_dependencies d (compared live i.snapshot e))) h in
      let (d, found, same) =
        >>=-eq-ok dependencies (λ d. ok (add_dependencies d (compared live i.snapshot e))) rest in
      let (edge, fresh) =
        add_dependencies-current d (compared live i.snapshot e)
          (ap (λ (n : NodeEvaluation). n.state) (ok_injective same) ∙ k) in
      let (start, unchanged) =
        compare_edge-current a.id i.representation_id input p.production live i.snapshot e at
          edge in
      (start, record { unchanged = unchanged; found = d; evaluated = found; is_current = fresh })

  pub evaluate_inputs-Ends :
      (child : ℕ → EvaluationContext → Evaluated) (a : Activity) (is : List ActivityInput)
      (e : NodeEvaluation) (c : EvaluationContext)
      → Sound child
      → AllClean c.cache
      → Ends
          (λ f. f.state ≡ current → (e.state ≡ current) × All (IsCleanInput a) is)
          (evaluate_inputs p child a is e c)
  unfolding evaluate_inputs
  evaluate_inputs-Ends child a [] e c sound clean = (clean, λ h. (h, tt))
  evaluate_inputs-Ends child a (i ∷ is) e c sound clean =
      Ends-then _ (evaluate_input p a i e) _ (λ next at.
        Ends-bind _ _ (evaluate_upstream p child i.representation_id next c) _
          (evaluate_upstream-Ends child i.representation_id next c sound clean)
          (λ after d kept up.
            Ends-map _ _ (evaluate_inputs p child a is after d)
              (evaluate_inputs-Ends child a is after d sound kept)
              (λ f rest h.
                let (now, others) = rest h in
                let (before, above) = up now in
                let (start, known) = evaluate_input-known a i e next at before in
                (start, ((known, above), others)))))
