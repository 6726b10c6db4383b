-- ===== src/Storage/Cursors/Dependencies.antt =====
-- The tokens of the dependencies of crates/postproject-storage-sqlite/src/query_cursor.rs, and the
-- traversals that read them.
use postproject.Base.{
  ◌<◌, ◌^◌, ℕ, zero, suc, ◌+◌, ◌/◌, ◌%◌, ◌≤◌, ◌≡◌, refl, sym, ap, ap₂, ◌∙◌, ◌↔◌, ◌⊎◌, inl, inr,
  Option, some, List, [], ◌∷◌, ◌++◌, arith, ok, ◌>>=◌, length, All, Bool-cases, >>=-eq-ok, ltb,
  some_injective, ok_injective,
}
use postproject.Core.Text.{Bytes, eq_bytes, eq_bytes-true}
use postproject.Core.Content.Pattern.{decimal_of}
use postproject.Storage.Cursors.Fields.{join, IsClean}
use postproject.Storage.Cursors.Position.{
  DependencyQueryLimits, keys_after, dependency_fields, dependency_position, parse_id,
  parse_target_kind, kind_and_id, to_string,
}
use postproject.Storage.Cursors.Laws.{keys_after_sound, keys_after_complete}
use postproject.Storage.Cursors.Jobs.{IsIdText, parse_id-display, parse_id_sound}

append-IsClean : (xs ys : Bytes) → IsClean xs → IsClean ys → IsClean (xs ++ ys)
append-IsClean [] ys h k = k
append-IsClean (x ∷ xs) ys h k = ground (arith, append-IsClean xs ys)

decimal_of-IsClean : (fuel n : ℕ) → n ≤ fuel → IsClean (decimal_of fuel n)
unfolding decimal_of
decimal_of-IsClean zero n h = ground arith
decimal_of-IsClean (suc fuel) n h = elim (Bool-cases (ltb n 10)) [
  | inl y ↦ rw y (ground arith)
  | inr m ↦
      let big : 10 ≤ n = ground arith in
      rw m (
        append-IsClean (decimal_of fuel (n / 10)) ((48 + n % 10) ∷ [])
          (decimal_of-IsClean fuel (n / 10) (omega (arith, big, h))) (digit n))
]
  where
    digit : (n : ℕ) → IsClean ((48 + n % 10) ∷ [])
    digit n = let low : n % 10 < 10 = omega arith in ground (arith, low)

module _ (display : ℕ → Bytes) (parse : Bytes → Option ℕ) (ids : IsIdText display parse) where
  parse_target_kind_sound :
      (value : Bytes) (kind : ℕ)
      → parse_target_kind display parse value ≡ ok kind
      → value ≡ to_string kind
  unfolding parse_target_kind decimal_of
  parse_target_kind_sound value kind h = elim (Bool-cases (eq_bytes value (49 ∷ []))) [
    | inl y ↦ eq_bytes-true value (49 ∷ []) y ∙ ap to_string (ok_injective (rw y at h))
    | inr n ↦ elim (Bool-cases (eq_bytes value (50 ∷ []))) [
      | inl y ↦ eq_bytes-true value (50 ∷ []) y ∙ ap to_string (ok_injective (rw y at (rw n at h)))
      | inr m ↦ absurd (ground arith)
    ]
  ]

  parse_target_kind-to_string :
      (kind : ℕ)
      → (kind ≡ 1) ⊎ (kind ≡ 2)
      → parse_target_kind display parse (to_string kind) ≡ ok kind
  unfolding parse_target_kind decimal_of eq_bytes
  parse_target_kind-to_string kind (inl e) = rw e refl
  parse_target_kind-to_string kind (inr e) = rw e refl

  dependency_fields-IsClean :
      (source : ℕ) (limits : DependencyQueryLimits) (kind id : ℕ)
      → source < 2 ^ 128
      → id < 2 ^ 128
      → All IsClean
          (dependency_fields display parse source limits ++ to_string kind ∷ display id ∷ [])
  dependency_fields-IsClean source limits kind id f g = (
    refl,
    (
      refl,
      (
        ids.clean source f,
        (
          number limits.max_depth,
          (number limits.max_representations, (number kind, (ids.clean id g, tt))),
        ),
      ),
    ),
  )
    where
      number : (n : ℕ) → IsClean (to_string n)
      number n = decimal_of-IsClean n n (omega arith)

  -- Where the texts of identities are read back, have at most 64 bytes and neither a separator nor
  -- NUL: a traversal of the dependencies of an identity of 128 bits reads a position, a target kind
  -- 1 or 2 and an identity of 128 bits, from a token exactly where the token is made of the
  -- traversal's own source and limits and that position.
  pub dependency_position_iff :
      (source : ℕ) (limits : DependencyQueryLimits) (token : Bytes) (kind id : ℕ)
      → source < 2 ^ 128
      → id < 2 ^ 128
      → (kind ≡ 1) ⊎ (kind ≡ 2)
      → (dependency_position display parse (some token) source limits ≡ ok (some (kind, id))) ↔ (
          token
          ≡ join
              (dependency_fields display parse source limits ++ to_string kind ∷ display id ∷ []))
  unfolding dependency_position
  dependency_position_iff source limits token kind id f g k = (there, back)
    where
      fields : List Bytes
      fields = dependency_fields display parse source limits

      both :
          (keys : List Bytes)
          → length keys ≡ 2
          → kind_and_id display parse keys ≡ ok (some (kind, id))
          → keys ≡ to_string kind ∷ display id ∷ []
      both [] n h = absurd (omega (arith, n))
      both (x ∷ []) n h = absurd (omega (arith, n))
      both (x ∷ y ∷ []) n h =
          let (i, e, r) = >>=-eq-ok (parse_target_kind display parse x) _ h in
          let (j, d, q) = >>=-eq-ok (parse_id display parse y) (λ id. ok (some (i, id))) r in
          let same : (i, j) ≡ (kind, id) = some_injective (ok_injective q) in
          ap₂ (λ a b. a ∷ b ∷ []) (parse_target_kind_sound x i e ∙ ap (λ p. to_string p.0) same)
            (sym (parse_id_sound display parse ids y j d) ∙ ap (λ p. display p.1) same)
      both (x ∷ y ∷ z ∷ rest) n h = absurd (omega (arith, n))

      there :
          (keys_after fields 2 token >>= kind_and_id display parse) ≡ ok (some (kind, id))
          → token ≡ join (fields ++ to_string kind ∷ display id ∷ [])
      there h =
          let (keys, e, r) = >>=-eq-ok (keys_after fields 2 token) (kind_and_id display parse) h in
          let (made, n) = keys_after_sound fields 2 token keys e in
          made ∙ ap (λ k. join (fields ++ k)) (both keys n r)

      back :
          token ≡ join (fields ++ to_string kind ∷ display id ∷ [])
          → (keys_after fields 2 token >>= kind_and_id display parse) ≡ ok (some (kind, id))
      back e =
          rw
            (
              e,
              keys_after_complete _ _ (to_string kind ∷ display id ∷ [])
                  (dependency_fields-IsClean source limits kind id f g),
              parse_target_kind-to_string kind k,
              parse_id-display display parse ids id g,
            )
            refl
