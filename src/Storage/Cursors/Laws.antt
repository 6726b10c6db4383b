-- ===== src/Storage/Cursors/Laws.antt =====
-- The keys of a token of crates/postproject-storage-sqlite/src/query_cursor.rs behind its other
-- fields.
use postproject.Base.{
  ℕ, ◌+◌, ◌≡◌, refl, sym, ap, ◌∙◌, inl, inr, true, List, [], ◌∷◌, ◌++◌, arith, ok, ◌==◌, length,
  length-append, All, Bool-cases, ok_injective,
}
use postproject.Core.Text.{Bytes, eq_bytes, eq_bytes_refl, eq_bytes-true}
use postproject.Storage.Cursors.Fields.{split, join, IsClean, split-IsSplit, split-join}
use postproject.Storage.Cursors.Position.{drop, starts_with, keys_after}

starts_with-append :
    (expected keys : List Bytes)
    → (starts_with expected (expected ++ keys) ≡ true)
      × (drop (length expected) (expected ++ keys) ≡ keys)
unfolding starts_with
starts_with-append [] keys = (refl, refl)
starts_with-append (e ∷ expected) keys =
    let (h, k) = starts_with-append expected keys in (rw (eq_bytes_refl e, h) refl, k)

pub starts_with-drop :
    (expected fields : List Bytes)
    → starts_with expected fields ≡ true
    → fields ≡ expected ++ drop (length expected) fields
unfolding starts_with
starts_with-drop [] fields h = refl
starts_with-drop (e ∷ expected) [] h = cc
starts_with-drop (e ∷ expected) (field ∷ fields) h = elim (Bool-cases (eq_bytes field e)) [
  | inl y ↦
      ap (λ f. f ∷ fields) (eq_bytes-true field e y)
      ∙ ap (◌∷◌ e) (starts_with-drop expected fields (rw y at h))
  | inr n ↦ absurd (ground arith)
]

-- The keys of a token that was made with the expected fields and these keys.
pub keys_after_complete :
    (e : Bytes) (expected keys : List Bytes)
    → All IsClean ((e ∷ expected) ++ keys)
    → keys_after (e ∷ expected) (length keys) (join ((e ∷ expected) ++ keys)) ≡ ok keys
unfolding keys_after
keys_after_complete e expected keys clean =
    let fields = split-join e (expected ++ keys) clean in
    let (starts, rest) = starts_with-append (e ∷ expected) keys in
    let counted : (length ((e ∷ expected) ++ keys) == length (e ∷ expected) + length keys) ≡ true =
      ground (arith, length-append (e ∷ expected) keys) in
    rw (fields, counted, starts, rest) refl

-- A token with keys is made of the expected fields and these keys.
pub keys_after_sound :
    (expected : List Bytes) (n : ℕ) (token : Bytes) (keys : List Bytes)
    → keys_after expected n token ≡ ok keys
    → (token ≡ join (expected ++ keys)) × (length keys ≡ n)
unfolding keys_after
keys_after_sound expected n token keys h =
    elim (Bool-cases (length (split token) == length expected + n)) [
      | inr m ↦ absurd (ground arith)
      | inl y ↦ elim (Bool-cases (starts_with expected (split token))) [
        | inr m ↦ absurd (ground arith)
        | inl z ↦
            let dropped : drop (length expected) (split token) ≡ keys =
              ok_injective (rw z at (rw y at h)) in
            let fields : split token ≡ expected ++ keys =
              starts_with-drop expected (split token) z ∙ ap (λ k. expected ++ k) dropped in
            (
              sym (split-IsSplit token).joined ∙ ap join fields,
              ground (arith, y, ap length fields, length-append expected keys),
            )
      ]
    ]
