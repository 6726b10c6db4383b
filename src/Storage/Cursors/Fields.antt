-- ===== src/Storage/Cursors/Fields.antt =====
-- The fields of a token: `split('|')` and its inverse.
use postproject.Base.{
  ℕ, ◌≡◌, refl, ap, ◌∙◌, inl, inr, false, List, [], ◌∷◌, ◌++◌, arith, ◌==◌, if◌then◌else◌, any, All,
  Bool-cases,
}
use postproject.Core.Text.{Bytes, split_on, onto_first}

abbrev pub bar : ℕ
bar = 124

abbrev pub IsClean : Bytes → Type 0
IsClean field = any (λ b. b == bar) field ≡ false

-- `split('|')`: the fields between the separators.
unfoldable pub split : Bytes → List Bytes
unfolding split_on
split token = split_on bar token

-- The fields with separators between them, as `format!` writes them.
unfoldable pub join : List Bytes → Bytes
join [] = []
join (field ∷ []) = field
join (field ∷ next ∷ fields) = field ++ bar ∷ join (next ∷ fields)

split-clean : (field : Bytes) → IsClean field → split field ≡ field ∷ []
unfolding split split_on
split-clean [] h = refl
split-clean (b ∷ field) h = elim (Bool-cases (b == bar)) [
  | inl y ↦ absurd (ground arith)
  | inr n ↦ rw n (ap (onto_first b) (split-clean field (ground arith)))
]

split-append :
    (field rest : Bytes) → IsClean field → split (field ++ bar ∷ rest) ≡ field ∷ split rest
unfolding split split_on
split-append [] rest h = refl
split-append (b ∷ field) rest h = elim (Bool-cases (b == bar)) [
  | inl y ↦ absurd (ground arith)
  | inr n ↦ rw n (ap (onto_first b) (split-append field rest (ground arith)))
]

-- Fields without a separator are read as they were written.
pub split-join :
    (field : Bytes) (fields : List Bytes)
    → All IsClean (field ∷ fields)
    → split (join (field ∷ fields)) ≡ field ∷ fields
unfolding join
split-join field [] h = split-clean field h.0
split-join field (next ∷ fields) h =
    split-append field (join (next ∷ fields)) h.0 ∙ ap (◌∷◌ field) (split-join next fields h.1)

join-onto_first :
    (b : ℕ) (field : Bytes) (fields : List Bytes)
    → join (onto_first b (field ∷ fields)) ≡ b ∷ join (field ∷ fields)
unfolding join
join-onto_first b field [] = refl
join-onto_first b field (next ∷ fields) = refl

-- A token is its fields, of which there is one at least, none with a separator.
pub record IsSplit (token : Bytes) (fields : List Bytes) : Type 0 where
  pub first : Bytes
  pub others : List Bytes
  pub are : fields ≡ first ∷ others
  pub joined : join fields ≡ token
  pub clean : All IsClean fields

pub split-IsSplit : (token : Bytes) → IsSplit token (split token)
unfolding split split_on join
split-IsSplit [] = record { first = []; others = []; are = refl; joined = refl; clean = (refl, tt) }
split-IsSplit (b ∷ bs) = go (split bs) (split-IsSplit bs)
  where
    go :
        (fields : List Bytes)
        → IsSplit bs fields
        → IsSplit (b ∷ bs) (if b == bar then [] ∷ fields else onto_first b fields)
    go [] s = absurd (ground (arith, s.are))
    go (field ∷ fields) s = elim (Bool-cases (b == bar)) [
      | inl y ↦ rw y (record {
        first = [];
        others = field ∷ fields;
        are = refl;
        joined = ground (arith, s.joined);
        clean = (refl, s.clean);
      })
      | inr n ↦ rw n (record {
        first = b ∷ field;
        others = fields;
        are = refl;
        joined = join-onto_first b field fields ∙ ap (◌∷◌ b) s.joined;
        clean = (ground (arith, s.clean.0), s.clean.1);
      })
    ]
