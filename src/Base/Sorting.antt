-- ===== src/Base/Sorting.antt =====
-- `sort` and `dedup` of the Rust standard library on vectors, for an order given by its test.
use postproject.Base.{
  ◌≡◌, ◌⊎◌, inl, inr, ◌↔◌, Bool, true, false, List, [], ◌∷◌, arith, In, All, if◌then◌else◌,
  Bool-cases,
}
use postproject.Base.Int.{ℤ, ltb_ℤ, eq_of_parts}

-- A stable sort: `leq a b` says that `a` may stand before `b`.
unfoldable pub insert {ℓ} : {A : Type ℓ} → (A → A → Bool) → A → List A → List A
insert leq a [] = a ∷ []
insert leq a (b ∷ bs) = if leq a b then a ∷ b ∷ bs else b ∷ insert leq a bs

unfoldable pub sort {ℓ} : {A : Type ℓ} → (A → A → Bool) → List A → List A
sort leq [] = []
sort leq (a ∷ xs) = insert leq a (sort leq xs)

-- `dedup`: of a run of equal neighbours the first stays.
unfoldable pub dedup {ℓ} : {A : Type ℓ} → (A → A → Bool) → List A → List A
dedup eq [] = []
dedup eq (a ∷ xs) = elim (dedup eq xs) [
  | [] ↦ a ∷ []
  | b ∷ bs ↦ if eq a b then a ∷ bs else a ∷ b ∷ bs
]

abbrev pub leb_ℤ : ℤ → ℤ → Bool
leb_ℤ a b = if ltb_ℤ b a then false else true

abbrev pub eq_ℤ : ℤ → ℤ → Bool
eq_ℤ a b = if ltb_ℤ a b then false else leb_ℤ a b

-- Each element is below every later one.
abbrev pub Ascending : List ℤ → Type 0
Ascending [] = Unit {0}
Ascending (a ∷ xs) = All (λ b. ltb_ℤ a b ≡ true) xs × Ascending xs

abbrev NonDescending : List ℤ → Type 0
NonDescending [] = Unit {0}
NonDescending (a ∷ xs) = All (λ b. leb_ℤ a b ≡ true) xs × NonDescending xs

unfoldable pub canonical : List ℤ → List ℤ
canonical xs = dedup eq_ℤ (sort leb_ℤ xs)

pub eq_ℤ-true : (a b : ℤ) → eq_ℤ a b ≡ true → a ≡ b
eq_ℤ-true a b h = eq_of_parts a b (ground arith)

pub eq_ℤ-refl : (a : ℤ) → eq_ℤ a a ≡ true
eq_ℤ-refl a = ground arith

In-insert :
    {A : Type 0} (leq : A → A → Bool) (x a : A) (xs : List A)
    → In x (insert leq a xs) ↔ ((x ≡ a) ⊎ In x xs)
unfolding insert
In-insert leq x a [] = ground arith
In-insert leq x a (b ∷ bs) = elim (Bool-cases (leq a b)) [
  | inl y ↦ rw y (ground arith)
  | inr n ↦ rw n (ground (arith, In-insert leq x a bs))
]

pub In-sort : {A : Type 0} (leq : A → A → Bool) (x : A) (xs : List A) → In x (sort leq xs) ↔ In x xs
unfolding sort
In-sort leq x [] = ground arith
In-sort leq x (a ∷ xs) = ground (arith, In-insert leq x a (sort leq xs), In-sort leq x xs)

All-insert :
    (P : ℤ → Type 0) (leq : ℤ → ℤ → Bool) (a : ℤ) (xs : List ℤ)
    → P a
    → All P xs
    → All P (insert leq a xs)
unfolding insert
All-insert P leq a [] p h = (p, tt)
All-insert P leq a (b ∷ bs) p h = elim (Bool-cases (leq a b)) [
  | inl y ↦ rw y (p, h)
  | inr n ↦ rw n (h.0, All-insert P leq a bs p h.1)
]

All-leb :
    (a b : ℤ) (xs : List ℤ)
    → leb_ℤ a b ≡ true
    → All (λ c. leb_ℤ b c ≡ true) xs
    → All (λ c. leb_ℤ a c ≡ true) xs
All-leb a b [] h t = tt
All-leb a b (c ∷ xs) h t = (ground arith, All-leb a b xs h t.1)

insert-NonDescending : (a : ℤ) (xs : List ℤ) → NonDescending xs → NonDescending (insert leb_ℤ a xs)
unfolding insert
insert-NonDescending a [] h = (tt, tt)
insert-NonDescending a (b ∷ bs) h = elim (Bool-cases (leb_ℤ a b)) [
  | inl y ↦ rw y ((y, All-leb a b bs y h.0), h)
  | inr n ↦ rw n (
    All-insert (λ c. leb_ℤ b c ≡ true) leb_ℤ a bs (ground arith) h.0,
    insert-NonDescending a bs h.1,
  )
]

sort-NonDescending : (xs : List ℤ) → NonDescending (sort leb_ℤ xs)
unfolding sort
sort-NonDescending [] = tt
sort-NonDescending (a ∷ xs) = insert-NonDescending a (sort leb_ℤ xs) (sort-NonDescending xs)

In-dedup : (x : ℤ) (xs : List ℤ) → In x (dedup eq_ℤ xs) ↔ In x xs
unfolding dedup
In-dedup x [] = ground arith
In-dedup x (a ∷ xs) = step (dedup eq_ℤ xs) (In-dedup x xs)
  where
    step :
        (ys : List ℤ)
        → In x ys ↔ In x xs
        → In x (elim ys [ [] ↦ a ∷ [] | b ∷ bs ↦ if eq_ℤ a b then a ∷ bs else a ∷ b ∷ bs ])
          ↔ ((x ≡ a) ⊎ In x xs)
    step [] h = ground arith
    step (b ∷ bs) h = elim (Bool-cases (eq_ℤ a b)) [
      | inl y ↦ rw y (ground (arith, eq_ℤ-true a b y))
      | inr n ↦ rw n (ground arith)
    ]

-- In an ascending list whose elements are not below `a`, all but an equal head are above it.
dedup-Ascending :
    (xs : List ℤ)
    → NonDescending xs
    → Ascending (dedup eq_ℤ xs)
      × ((a : ℤ) → All (λ b. leb_ℤ a b ≡ true) xs → All (λ b. leb_ℤ a b ≡ true) (dedup eq_ℤ xs))
unfolding dedup
dedup-Ascending [] h = (tt, λ a u. tt)
dedup-Ascending (a ∷ xs) h =
    let (asc, low) = dedup-Ascending xs h.1 in step (dedup eq_ℤ xs) asc (low a h.0) low
  where
    below :
        (b : ℤ) (bs : List ℤ)
        → ltb_ℤ a b ≡ true
        → All (λ c. ltb_ℤ b c ≡ true) bs
        → All (λ c. ltb_ℤ a c ≡ true) bs
    below b [] h k = tt
    below b (c ∷ bs) h k = (ground arith, below b bs h k.1)

    step :
        (ys : List ℤ)
        → Ascending ys
        → All (λ b. leb_ℤ a b ≡ true) ys
        → ((c : ℤ) → All (λ b. leb_ℤ c b ≡ true) xs → All (λ b. leb_ℤ c b ≡ true) ys)
        → (Ascending (elim ys [ [] ↦ a ∷ [] | b ∷ bs ↦ if eq_ℤ a b then a ∷ bs else a ∷ b ∷ bs ])
            × ((c : ℤ)
                → All (λ b. leb_ℤ c b ≡ true) (a ∷ xs)
                → All
                    (λ b. leb_ℤ c b ≡ true)
                    (elim ys [ [] ↦ a ∷ [] | b ∷ bs ↦ if eq_ℤ a b then a ∷ bs else a ∷ b ∷ bs ])))
    step [] s l m = ((tt, tt), λ c u. (u.0, tt))
    step (b ∷ bs) s l m = elim (Bool-cases (eq_ℤ a b)) [
      | inl y ↦ rw y ((rw (eq_ℤ-true a b y) s.0, s.1), λ c u. (u.0, (m c u.1).1))
      | inr n ↦
          let lower : ltb_ℤ a b ≡ true = ground arith in
          rw n (((lower, below b bs lower s.0), s), λ c u. (u.0, m c u.1))
    ]

pub canonical-Ascending : (xs : List ℤ) → Ascending (canonical xs)
unfolding canonical
canonical-Ascending xs = (dedup-Ascending (sort leb_ℤ xs) (sort-NonDescending xs)).0

pub In-canonical : (x : ℤ) (xs : List ℤ) → In x (canonical xs) ↔ In x xs
unfolding canonical
In-canonical x xs = ground (arith, In-dedup x (sort leb_ℤ xs), In-sort leb_ℤ x xs)
