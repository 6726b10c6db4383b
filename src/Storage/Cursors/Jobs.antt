-- ===== src/Storage/Cursors/Jobs.antt =====
-- The tokens of the jobs of crates/postproject-storage-sqlite/src/query_cursor.rs, and the queries
-- that read them.
use postproject.Base.{
  ◌<◌, ◌^◌, ℕ, ◌+◌, ◌≤◌, ◌≡◌, refl, sym, ap, ◌∙◌, ◌↔◌, inl, inr, false, Option, none, some, List,
  [], ◌∷◌, ◌++◌, arith, ok, ◌>>=◌, if◌then◌else◌, ◌==◌, length, length-append, All, Bool-cases,
  Option-cases, >>=-eq-ok, ltb, some_injective, ok_injective,
}
use postproject.Core.Text.{Bytes, eq_bytes, eq_bytes_refl, eq_bytes-true, has_nul}
use postproject.Core.Content.Pattern.{decimal_of}
use postproject.Storage.Jobs.Row.{JobStateKind, requested, claimed, succeeded, failed, cancelled}
use postproject.Storage.Cursors.Fields.{join, IsClean}
use postproject.Storage.Cursors.Laws.{keys_after_sound, keys_after_complete}
use postproject.Storage.Cursors.Position.{
  JobQuery, keys_after, job_fields, job_position, job_cursor, parse_id, one_id, query_cursor,
  to_string, state_code, kind_text,
}

-- The texts of identities, which have 128 bits: `FromStr` reads what `Display` writes, which has at most 64 bytes, none
-- of them a separator or NUL.
pub record IsIdText (display : ℕ → Bytes) (parse : Bytes → Option ℕ) : Type 0 where
  pub reads : (id : ℕ) → id < 2 ^ 128 → parse (display id) ≡ some id
  pub clean : (id : ℕ) → id < 2 ^ 128 → IsClean (display id)
  pub bounded : (id : ℕ) → id < 2 ^ 128 → length (display id) ≤ 64
  pub no_nul : (id : ℕ) → id < 2 ^ 128 → has_nul (display id) ≡ false

-- A query by kind names an identifier, which has neither a separator nor NUL.
pub record IsJobQuery (query : JobQuery) : Type 0 where
  pub clean : IsClean (kind_text query.kind)
  pub bounded : length (kind_text query.kind) ≤ 128
  pub no_nul : has_nul (kind_text query.kind) ≡ false

state_code-IsClean : (s : Option JobStateKind) → IsClean (to_string (state_code s))
unfolding decimal_of
state_code-IsClean none = refl
state_code-IsClean (some requested) = refl
state_code-IsClean (some claimed) = refl
state_code-IsClean (some succeeded) = refl
state_code-IsClean (some failed) = refl
state_code-IsClean (some cancelled) = refl

-- What `QueryCursor::new` asks of a token.
has_nul-append :
    (xs ys : Bytes) → has_nul xs ≡ false → has_nul ys ≡ false → has_nul (xs ++ ys) ≡ false
has_nul-append [] ys h k = k
has_nul-append (x ∷ xs) ys h k = ground (arith, has_nul-append xs ys)

join_two :
    (field : Bytes) (next : Bytes) (fields : List Bytes)
    → has_nul field ≡ false
    → has_nul (join (next ∷ fields)) ≡ false
    → (has_nul (join (field ∷ next ∷ fields)) ≡ false)
      × (length (join (field ∷ next ∷ fields)) ≡ length field + 1 + length (join (next ∷ fields)))
unfolding join
join_two field next fields h k = (
  has_nul-append field (124 ∷ join (next ∷ fields)) h k,
  omega (arith, length-append field (124 ∷ join (next ∷ fields))),
)

state_text :
    (s : Option JobStateKind)
    → (has_nul (to_string (state_code s)) ≡ false) × (length (to_string (state_code s)) ≡ 1)
unfolding decimal_of
state_text none = (refl, refl)
state_text (some requested) = (refl, refl)
state_text (some claimed) = (refl, refl)
state_text (some succeeded) = (refl, refl)
state_text (some failed) = (refl, refl)
state_text (some cancelled) = (refl, refl)

accepted :
    (b : ℕ) (bs : Bytes)
    → has_nul (b ∷ bs) ≡ false
    → length (b ∷ bs) ≤ 2048
    → query_cursor (b ∷ bs) ≡ ok (b ∷ bs)
unfolding query_cursor
accepted b bs h k =
    let small : ltb 2048 (length (b ∷ bs)) ≡ false = ground arith in rw (small, h) refl

-- The state that a digit stands for.
abbrev pub state_of : Bytes → Option JobStateKind
state_of (digit ∷ []) =
    if digit == 49
    then some requested
    else if digit == 50
    then some claimed
    else if digit == 51
    then some succeeded
    else if digit == 52
    then some failed
    else if digit == 53
    then some cancelled
    else none
state_of _ = none

pub state_of-state_code : (s : Option JobStateKind) → state_of (to_string (state_code s)) ≡ s
unfolding decimal_of
state_of-state_code none = refl
state_of-state_code (some requested) = refl
state_of-state_code (some claimed) = refl
state_of-state_code (some succeeded) = refl
state_of-state_code (some failed) = refl
state_of-state_code (some cancelled) = refl

module _ (display : ℕ → Bytes) (parse : Bytes → Option ℕ) (ids : IsIdText display parse) where
  pub parse_id-display : (id : ℕ) → id < 2 ^ 128 → parse_id display parse (display id) ≡ ok id
  unfolding parse_id
  parse_id-display id fits = rw (ids.reads id fits, eq_bytes_refl (display id)) refl

  pub parse_id_sound :
      (value : Bytes) (id : ℕ) → parse_id display parse value ≡ ok id → display id ≡ value
  unfolding parse_id
  parse_id_sound value id h = elim (Option-cases (parse value)) [
    | inl e ↦ absurd (ground arith)
    | inr (i, e) ↦ elim (Bool-cases (eq_bytes (display i) value)) [
      | inr n ↦ absurd (ground arith)
      | inl y ↦ ap display (ground arith) ∙ eq_bytes-true (display i) value y
    ]
  ]

  pub job_fields-IsClean :
      (query : JobQuery) (id : ℕ)
      → id < 2 ^ 128
      → IsJobQuery query
      → All IsClean (job_fields query ++ display id ∷ [])
  job_fields-IsClean query id fits v =
      (refl, (refl, (state_code-IsClean query.state, (v.clean, (ids.clean id fits, tt)))))

  -- Where the texts of identities are read back, have at most 64 bytes and neither a separator nor
  -- NUL: a query by an acceptable kind reads an identity of 128 bits from a token exactly where the
  -- token is made of the query's own state and kind and the text of that identity.
  pub job_position_iff :
      (query : JobQuery) (token : Bytes) (id : ℕ)
      → id < 2 ^ 128
      → IsJobQuery query
      → (job_position display parse (some token) query ≡ ok (some id))
        ↔ (token ≡ join (job_fields query ++ display id ∷ []))
  unfolding job_position
  job_position_iff query token id fits v = (there, back)
    where
      one :
          (keys : List Bytes)
          → length keys ≡ 1
          → one_id display parse keys ≡ ok (some id)
          → keys ≡ display id ∷ []
      one [] n h = absurd (omega (arith, n))
      one (field ∷ []) n h =
          let (i, e, k) = >>=-eq-ok (parse_id display parse field) (λ i. ok (some i)) h in
          ap (λ f. f ∷ [])
            (sym (parse_id_sound field i e) ∙ ap display (some_injective (ok_injective k)))
      one (field ∷ next ∷ fields) n h = absurd (omega (arith, n))

      there :
          (keys_after (job_fields query) 1 token >>= one_id display parse) ≡ ok (some id)
          → token ≡ join (job_fields query ++ display id ∷ [])
      there h =
          let (keys, e, k) =
            >>=-eq-ok (keys_after (job_fields query) 1 token) (one_id display parse) h in
          let (made, n) = keys_after_sound (job_fields query) 1 token keys e in
          made ∙ ap (λ k. join (job_fields query ++ k)) (one keys n k)

      back :
          token ≡ join (job_fields query ++ display id ∷ [])
          → (keys_after (job_fields query) 1 token >>= one_id display parse) ≡ ok (some id)
      back e =
          rw
            (
              e,
              keys_after_complete _ _ (display id ∷ []) (job_fields-IsClean query id fits v),
              parse_id-display id fits,
            )
            refl

  pub job_token :
      (query : JobQuery) (id : ℕ)
      → id < 2 ^ 128
      → IsJobQuery query
      → query_cursor (join (job_fields query ++ display id ∷ []))
        ≡ ok (join (job_fields query ++ display id ∷ []))
  unfolding join
  job_token query id fits v =
      let (n0, l0) =
        join_two (kind_text query.kind) (display id) [] v.no_nul (ids.no_nul id fits) in
      let (nul, one) = state_text query.state in
      let (n1, l1) =
        join_two (to_string (state_code query.state)) (kind_text query.kind) (display id ∷ []) nul
          n0 in
      accepted _ _ n1 (omega (arith, l0, l1, one, v.bounded, ids.bounded id fits))

  -- Where the texts of identities are read back, have at most 64 bytes and neither a separator nor
  -- NUL: for a query by an acceptable kind and an identity of 128 bits a token is made, and the
  -- query reads the identity from it.
  pub job_position-job_cursor :
      (query : JobQuery) (id : ℕ)
      → id < 2 ^ 128
      → IsJobQuery query
      → (token : Bytes) × (job_cursor display parse query id ≡ ok token)
        × (job_position display parse (some token) query ≡ ok (some id))
  unfolding job_cursor
  job_position-job_cursor query id fits v = (
    join (job_fields query ++ display id ∷ []),
    job_token query id fits v,
    (job_position_iff query (join (job_fields query ++ display id ∷ [])) id fits v).1 refl,
  )
