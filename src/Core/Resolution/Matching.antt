-- ===== src/Core/Resolution/Matching.antt =====
-- The results that `aggregate` of crates/postproject-core/src/resolution.rs takes for a
-- structure, and their order.
use postproject.Base.{
  ℕ, ◌≡◌, refl, sym, ap, ap₂, subst, ◌∙◌, ◌⊎◌, inl, inr, true, false, ◌||◌, some, List, [], ◌∷◌,
  arith, Result, ok, err, ◌==◌, length, any, In, All, Bool-cases, Option-cases, ◌>>=◌, >>=-eq-ok,
  ==_iff,
}
use postproject.Core.Content.Structure.{ContentStructure, resource_ids}
use postproject.Core.Content.Laws.{Distinct}
use postproject.Core.Resolution.Resources.{ResourceResolution}
use postproject.Core.Resolution.Aggregate.{
  RepresentationResolution, insert_all, remove, remove_each, order_resource_resolutions, aggregate,
  inspect_availability,
}
use postproject.Core.Resolution.Keyed.{has, ids_of, ok_injective, remove_sound, remove_present}

insert_all_sound :
    (rs by_id m : List ResourceResolution) (y : ResourceResolution)
    → insert_all rs by_id ≡ ok m
    → In y m
    → In y rs ⊎ In y by_id
unfolding insert_all
insert_all_sound [] by_id m y h i = inr (subst (λ t. In y t) (ground arith) i)
insert_all_sound (r ∷ rs) by_id m y h i = ground (arith, insert_all_sound rs (r ∷ by_id) m y)

remove_each_sound :
    (ids : List ℕ) (by_id out : List ResourceResolution)
    → remove_each ids by_id ≡ ok out
    → (ids_of out ≡ ids) × ((y : ResourceResolution) → In y out → In y by_id)
unfolding remove_each
remove_each_sound [] by_id out h =
    (ap ids_of (sym (ok_injective h)), λ y i. absurd (subst (λ t. In y t) (sym (ok_injective h)) i))
remove_each_sound (id ∷ ids) by_id out h = elim (Option-cases (remove id by_id)) [
  | inl e ↦ absurd (ground arith)
  | inr ((x, left), e) ↦
      let (rest, done, made) = rest_of x (remove_each ids left) (sym (step x left e) ∙ h) in
      let (same, member, others, keeps) = remove_sound id by_id left x e in
      let (in_order, from) = remove_each_sound ids left rest done in
      (
        ap ids_of (sym made) ∙ ap₂ (λ i is. i ∷ is) same in_order,
        λ y i. elim (subst (λ t. In y t) (sym made) i) [
          | inl first ↦ subst (λ t. In t by_id) (sym first) member
          | inr later ↦ others y (from y later)
        ],
      )
]
  where
    step :
        (x : ResourceResolution) (left : List ResourceResolution)
        → remove id by_id ≡ some (x, left)
        → remove_each (id ∷ ids) by_id ≡ (remove_each ids left >>= λ rest. ok (x ∷ rest))
    step x left e = rw e refl

    rest_of :
        (x : ResourceResolution) (o : Result (List ResourceResolution))
        → (o >>= λ rest. ok (x ∷ rest)) ≡ ok out
        → (rest : List ResourceResolution) × (o ≡ ok rest) × ((x ∷ rest) ≡ out)
    rest_of x (ok rest) e = (rest, refl, ok_injective e)
    rest_of x (err b) e = cc

order-ok :
    (structure : ContentStructure) (rs out : List ResourceResolution)
    → order_resource_resolutions structure rs ≡ ok out
    → (length rs ≡ length (resource_ids structure))
      × (m : List ResourceResolution) × (insert_all rs [] ≡ ok m)
      × (remove_each (resource_ids structure) m ≡ ok out)
unfolding order_resource_resolutions
order-ok structure rs out h = elim (Bool-cases (length rs == length (resource_ids structure))) [
  | inr n ↦ absurd (ground arith)
  | inl y ↦
      let (m, inserted, removed) =
        >>=-eq-ok (insert_all rs []) (remove_each (resource_ids structure)) (rw y at h) in
      ((==_iff (length rs) (length (resource_ids structure))).0 y, m, inserted, removed)
]

-- The results that an aggregation keeps are some of the given ones, stand in the order of the
-- resources of the structure, one for each, and there were as many given as the structure has
-- resources.
pub aggregate-ordered :
    (id : ℕ) (structure : ContentStructure) (rs : List ResourceResolution)
    (res : RepresentationResolution)
    → aggregate id structure rs ≡ ok res
    → (ids_of res.resources ≡ resource_ids structure)
      × ((r : ResourceResolution) → In r res.resources → In r rs)
      × (length rs ≡ length (resource_ids structure))
unfolding aggregate
aggregate-ordered id structure rs res h =
    let (ordered, o, e) = >>=-eq-ok (order_resource_resolutions structure rs) _ h in
    let (same_length, m, inserted, removed) = order-ok structure rs ordered o in
    let (in_order, from) = remove_each_sound (resource_ids structure) m ordered removed in
    let kept : ordered ≡ res.resources = ap (λ t. t.resources) (ok_injective e) in
    (
      ap ids_of (sym kept) ∙ in_order,
      (λ r i.
          elim (insert_all_sound rs [] m r inserted (from r (subst (λ t. In r t) (sym kept) i))) [
            | inl given ↦ given
            | inr nothing ↦ absurd nothing
          ]),
      same_length,
    )

fresh_after :
    (r : ResourceResolution) (rs by_id : List ResourceResolution)
    → any (λ j. j == r.resource_id) (ids_of rs) ≡ false
    → All (λ x. has x.resource_id by_id ≡ false) rs
    → All (λ x. has x.resource_id (r ∷ by_id) ≡ false) rs
fresh_after r [] by_id d a = tt
fresh_after r (x ∷ rs) by_id d a = (ground (arith, a.0), fresh_after r rs by_id (ground arith) a.1)

insert_all_complete :
    (rs by_id : List ResourceResolution)
    → Distinct (ids_of rs)
    → All (λ x. has x.resource_id by_id ≡ false) rs
    → (m : List ResourceResolution) × (insert_all rs by_id ≡ ok m)
      × ((i : ℕ) → has i m ≡ (has i rs || has i by_id))
unfolding insert_all
insert_all_complete [] by_id d a = (by_id, refl, λ i. refl)
insert_all_complete (r ∷ rs) by_id d a =
    let (m, made, contains) =
      insert_all_complete rs (r ∷ by_id) d.1 (fresh_after r rs by_id d.0 a.1) in
    (m, rw a.0 made, λ i. ground (arith, contains i))

still_present :
    (id : ℕ) (ids : List ℕ) (by_id left : List ResourceResolution)
    → any (λ j. j == id) ids ≡ false
    → ((j : ℕ) → (id == j) ≡ false → has j left ≡ has j by_id)
    → All (λ i. has i by_id ≡ true) ids
    → All (λ i. has i left ≡ true) ids
still_present id [] by_id left d keeps a = tt
still_present id (i ∷ is) by_id left d keeps a =
    (keeps i (ground arith) ∙ a.0, still_present id is by_id left (ground arith) keeps a.1)

remove_each_complete :
    (ids : List ℕ) (by_id : List ResourceResolution)
    → Distinct ids
    → All (λ i. has i by_id ≡ true) ids
    → (out : List ResourceResolution) × (remove_each ids by_id ≡ ok out)
unfolding remove_each
remove_each_complete [] by_id d a = ([], refl)
remove_each_complete (id ∷ ids) by_id d a =
    let (x, left, e) = remove_present id by_id a.0 in
    let (same, member, others, keeps) = remove_sound id by_id left x e in
    let (rest, made) =
      remove_each_complete ids left d.1 (still_present id ids by_id left d.0 keeps a.1) in
    (x ∷ rest, rw e (rw made refl))

All-given :
    (ids : List ℕ) (rs m : List ResourceResolution)
    → ((i : ℕ) → has i m ≡ (has i rs || false))
    → All (λ i. has i rs ≡ true) ids
    → All (λ i. has i m ≡ true) ids
All-given [] rs m h a = tt
All-given (i ∷ is) rs m h a = (ground (arith, h i, a.0), All-given is rs m h a.1)

none_taken : (rs : List ResourceResolution) → All (λ x. has x.resource_id [] ≡ false) rs
none_taken [] = tt
none_taken (x ∷ rs) = (refl, none_taken rs)

-- Where the structure's resources are distinct, results of as many resources, all different, with
-- one for each of the structure's, are aggregated without an error.
pub aggregate-total :
    (id : ℕ) (structure : ContentStructure) (rs : List ResourceResolution)
    → Distinct (resource_ids structure)
    → Distinct (ids_of rs)
    → length rs ≡ length (resource_ids structure)
    → All (λ i. has i rs ≡ true) (resource_ids structure)
    → (res : RepresentationResolution) × (aggregate id structure rs ≡ ok res)
unfolding aggregate order_resource_resolutions
aggregate-total id structure rs distinct unique same_length given =
    let (m, inserted, contains) = insert_all_complete rs [] unique (none_taken rs) in
    let (out, made) =
      remove_each_complete (resource_ids structure) m distinct
        (All-given (resource_ids structure) rs m contains given) in
    (
      record {
        representation_id = id;
        availability = (inspect_availability structure out).0;
        resources = out;
        issues = (inspect_availability structure out).1;
      },
      rw ((==_iff (length rs) (length (resource_ids structure))).1 same_length)
          (rw inserted (rw made refl)),
    )
