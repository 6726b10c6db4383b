-- ===== src/Core/Resolution/Keyed.antt =====
-- The map from identities to results, as `aggregate` uses it.
use postproject.Base.{
  ℕ, ◌≡◌, refl, sym, ap, subst, ◌∙◌, inl, inr, Bool, true, false, ◌||◌, some, List, [], ◌∷◌, map,
  arith, ok, ◌==◌, any, In, Bool-cases, Option-cases,
}
use postproject.Core.Resolution.Resources.{ResourceResolution}
use postproject.Core.Resolution.Aggregate.{remove}

abbrev pub has : ℕ → List ResourceResolution → Bool
has id rs = any (λ r. r.resource_id == id) rs

abbrev pub ids_of : List ResourceResolution → List ℕ
ids_of rs = map (λ r. r.resource_id) rs

pub ok_injective : {A : Type 0} {a b : A} → ok a ≡ ok b → a ≡ b
ok_injective h = cc

pub remove_sound :
    (id : ℕ) (rs left : List ResourceResolution) (x : ResourceResolution)
    → remove id rs ≡ some (x, left)
    → (x.resource_id ≡ id)
      × In x rs
      × ((y : ResourceResolution) → In y left → In y rs)
      × ((j : ℕ) → (id == j) ≡ false → has j left ≡ has j rs)
unfolding remove
remove_sound id [] left x h = cc
remove_sound id (r ∷ rs) left x h = elim (Bool-cases (r.resource_id == id)) [
  | inl y ↦
      let found : (r ≡ x) × (rs ≡ left) = ground arith in
      (
        ground arith,
        inl (sym found.0),
        (λ u i. inr (subst (λ t. In u t) (sym found.1) i)),
        (λ j ne. ground arith),
      )
  | inr n ↦ elim (Option-cases (remove id rs)) [
    | inl e ↦ absurd (ground arith)
    | inr ((u, w), e) ↦
        let found : (u ≡ x) × ((r ∷ w) ≡ left) = ground arith in
        let (same, member, others, keeps) = remove_sound id rs w u e in
        (
          ap (λ t. t.resource_id) (sym found.0) ∙ same,
          inr (subst (λ t. In t rs) found.0 member),
          (λ v i. elim (subst (λ t. In v t) (sym found.1) i) [
            | inl first ↦ inl first
            | inr later ↦ inr (others v later)
          ]),
          (λ j ne. ap (has j) (sym found.1) ∙ ap (λ b. r.resource_id == j || b) (keeps j ne)),
        )
  ]
]

pub remove_present :
    (id : ℕ) (rs : List ResourceResolution)
    → has id rs ≡ true
    → (x : ResourceResolution) × (left : List ResourceResolution) × (remove id rs ≡ some (x, left))
unfolding remove
remove_present id [] h = cc
remove_present id (r ∷ rs) h = elim (Bool-cases (r.resource_id == id)) [
  | inl y ↦ (r, rs, rw y refl)
  | inr n ↦
      let (x, left, e) = remove_present id rs (ground arith) in (x, r ∷ left, rw n (rw e refl))
]
