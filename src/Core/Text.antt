-- ===== src/Core/Text.antt =====
-- Texts as the list of their UTF-8 bytes, with the operations of `str` that the identifiers of
-- crates/postproject-core use. The characters they look for are ASCII, so a character of a text is
-- one of these exactly where a byte is.
use postproject.Base.{
  ℕ, ◌≡◌, refl, ◌↔◌, inl, inr, Bool, true, false, not, ◌&&◌, ◌||◌, Option, none, some, List, [],
  ◌∷◌, ◌++◌, arith, leb, ltb, ◌==◌, if◌then◌else◌, any, is_empty, Bool-cases, Option-cases,
}

abbrev pub Bytes : Type 0
Bytes = List ℕ

abbrev pub colon : ℕ
colon = 58

abbrev pub between : ℕ → ℕ → ℕ → Bool
between low high byte = leb low byte && leb byte high

-- `is_ascii_alphanumeric`.
unfoldable pub is_alphanumeric : ℕ → Bool
is_alphanumeric byte = between 48 57 byte || (between 65 90 byte || between 97 122 byte)

-- An alphanumeric byte or one of `.`, `_`, `-` and `:`.
unfoldable pub is_identifier_byte : ℕ → Bool
is_identifier_byte byte =
    is_alphanumeric byte || (byte == 46 || (byte == 95 || (byte == 45 || byte == colon)))

-- `split_once`: the text before and after the first such byte.
unfoldable pub split_once : ℕ → Bytes → Option (Bytes × Bytes)
split_once sep [] = none
split_once sep (b ∷ bs) =
    let rest = split_once sep bs in
    if b == sep
    then some ([], bs)
    else elim rest [ none ↦ none | some (before, after) ↦ some (b ∷ before, after) ]

abbrev pub both_present : Option (Bytes × Bytes) → Bool
both_present none = false
both_present (some (namespace, local)) = not (is_empty namespace) && not (is_empty local)

-- `.split_once(':').is_some_and(…)` of `JobKind::new` and `ResourceRole::new`.
unfoldable pub is_namespaced : Bytes → Bool
is_namespaced value = both_present (split_once colon value)

-- `<=` on `str`: by bytes.
unfoldable pub leb_bytes : Bytes → Bytes → Bool
leb_bytes [] ys = true
leb_bytes (x ∷ xs) [] = false
leb_bytes (x ∷ xs) (y ∷ ys) = let rest = leb_bytes xs ys in ltb x y || (x == y && rest)

unfoldable pub eq_bytes : Bytes → Bytes → Bool
eq_bytes [] [] = true
eq_bytes [] (y ∷ ys) = false
eq_bytes (x ∷ xs) [] = false
eq_bytes (x ∷ xs) (y ∷ ys) = let rest = eq_bytes xs ys in x == y && rest

abbrev pub onto_first : ℕ → List Bytes → List Bytes
onto_first b [] = (b ∷ []) ∷ []
onto_first b (part ∷ parts) = (b ∷ part) ∷ parts

-- `split`: the parts between the separators.
unfoldable pub split_on : ℕ → Bytes → List Bytes
split_on sep [] = [] ∷ []
split_on sep (b ∷ bs) =
    let rest = split_on sep bs in if b == sep then [] ∷ rest else onto_first b rest

-- `contains('\0')`.
abbrev pub has_nul : Bytes → Bool
has_nul bytes = any (λ b. b == 0) bytes

split_once_sound :
    (sep : ℕ) (bs before after : Bytes)
    → split_once sep bs ≡ some (before, after)
    → (bs ≡ before ++ sep ∷ after) × (any (λ b. b == sep) before ≡ false)
unfolding split_once
split_once_sound sep [] before after h = cc
split_once_sound sep (b ∷ bs) before after h = elim (Bool-cases (b == sep)) [
  | inl y ↦ ground arith
  | inr n ↦ elim (Option-cases (split_once sep bs)) [
    | inl e ↦ absurd (ground arith)
    | inr ((u, w), e) ↦ ground (arith, split_once_sound sep bs u w e)
  ]
]

split_once_complete :
    (sep : ℕ) (before after : Bytes)
    → any (λ b. b == sep) before ≡ false
    → split_once sep (before ++ sep ∷ after) ≡ some (before, after)
unfolding split_once
split_once_complete sep [] after h = ground arith
split_once_complete sep (b ∷ before) after h = ground (arith, split_once_complete sep before after)

-- The text is a namespace without a colon, a colon and a local name, neither of them empty.
unfoldable pub IsNamespaced : Bytes → Type 0
IsNamespaced value =
    (namespace local : Bytes) × (value ≡ namespace ++ colon ∷ local)
    × (any (λ b. b == colon) namespace ≡ false)
    × (is_empty namespace ≡ false)
    × (is_empty local ≡ false)

-- The test of the source decides that a text is namespaced.
pub is_namespaced_iff : (value : Bytes) → (is_namespaced value ≡ true) ↔ IsNamespaced value
unfolding is_namespaced IsNamespaced
is_namespaced_iff value = (there (split_once colon value) refl, back)
  where
    there :
        (o : Option (Bytes × Bytes))
        → split_once colon value ≡ o
        → both_present o ≡ true
        → IsNamespaced value
    there none e h = cc
    there (some (namespace, local)) e h =
        let (joined, clean) = split_once_sound colon value namespace local e in
        (namespace, local, joined, clean, ground arith, ground arith)

    back : IsNamespaced value → is_namespaced value ≡ true
    back (namespace, local, joined, clean, n, l) =
        rw joined (rw (split_once_complete colon namespace local clean) (ground (arith, n, l)))

pub eq_bytes_refl : (xs : Bytes) → eq_bytes xs xs ≡ true
unfolding eq_bytes
eq_bytes_refl [] = refl
eq_bytes_refl (x ∷ xs) = ground (arith, eq_bytes_refl xs)

pub eq_bytes-true : (xs ys : Bytes) → eq_bytes xs ys ≡ true → xs ≡ ys
unfolding eq_bytes
eq_bytes-true [] [] h = refl
eq_bytes-true [] (y ∷ ys) h = cc
eq_bytes-true (x ∷ xs) [] h = cc
eq_bytes-true (x ∷ xs) (y ∷ ys) h = ground (arith, eq_bytes-true xs ys)
