-- ===== src/Storage/Cursors/Foreign.antt =====
-- The tokens of the jobs of crates/postproject-storage-sqlite/src/query_cursor.rs in the hands of
-- other queries.
use postproject.Base.{
  ◌<◌, ◌^◌, ℕ, ◌+◌, ◌≤◌, ◌≡◌, ◌≢◌, refl, sym, ap, ap₂, subst, ◌∙◌, ◌⊎◌, inl, inr, Bool, true, false,
  not, ◌||◌, Option, none, some, List, [], ◌∷◌, ◌++◌, arith, Result, Result, ok, ◌>>=◌,
  if◌then◌else◌, ◌==◌, length, all, Bool-cases, ltb, ok_injective, ok≢err, if_err-eq-ok,
  ||-eq-false, not-false,
}
use postproject.Core.Text.{Bytes, has_nul, is_identifier_byte, is_alphanumeric, is_namespaced}
use postproject.Storage.Jobs.Row.{JobStateKind}
use postproject.Storage.Cursors.Fields.{split, join, IsClean, split-join}
use postproject.Storage.Cursors.Laws.{starts_with-drop}
use postproject.Storage.Cursors.Position.{
  JobQuery, keys_after, starts_with, drop, job_fields, job_position, job_cursor, job_kind,
  max_job_kind_bytes, one_id, invalid_cursor, to_string, state_code, kind_text,
}
use postproject.Storage.Cursors.Jobs.{
  IsIdText, IsJobQuery, state_of, state_of-state_code, job_fields-IsClean, job_token,
  job_position_iff,
}

-- The kind of the query, if it has one, is one that `JobKind::new` gives.
abbrev pub IsKind : Option Bytes → Type 0
IsKind none = Unit {0}
IsKind (some kind) = job_kind kind ≡ ok kind

identifier_byte : (b : ℕ) → is_identifier_byte b ≡ true → ((b == 124) ≡ false) × ((b == 0) ≡ false)
unfolding is_identifier_byte is_alphanumeric
identifier_byte b h = ground arith

identifier_text : (k : Bytes) → all is_identifier_byte k ≡ true → IsClean k × (has_nul k ≡ false)
identifier_text [] h = (refl, refl)
identifier_text (b ∷ k) h = elim (Bool-cases (is_identifier_byte b)) [
  | inr n ↦ absurd (ground (arith, n))
  | inl y ↦
      let (bar, nul) = identifier_byte b y in
      let (clean, no_nul) = identifier_text k (rw y at h) in (rw bar clean, rw nul no_nul)
]

accepted_kind :
    (k l : Bytes)
    → job_kind k ≡ ok l
    → (length k ≤ max_job_kind_bytes) × (all is_identifier_byte k ≡ true)
unfolding job_kind
accepted_kind k l h =
    let long = ltb max_job_kind_bytes (length k) in
    let bad = not (all is_identifier_byte k) || not (is_namespaced k) in
    let (good, _) = if_err-eq-ok (long || bad) _ (ok k) h in
    let (short, fine) = ||-eq-false long bad good in
    let (bytes, _) = ||-eq-false (not (all is_identifier_byte k)) (not (is_namespaced k)) fine in
    (ground (arith, short), not-false (all is_identifier_byte k) bytes)

pub IsKind-IsJobQuery : (query : JobQuery) → IsKind query.kind → IsJobQuery query
IsKind-IsJobQuery query v = text query.kind v
  where
    text : (k : Option Bytes) → IsKind k → IsJobQuery (record { state = query.state; kind = k })
    text none v = record { clean = refl; bounded = omega arith; no_nul = refl }
    text (some k) v =
        let (short, bytes) = accepted_kind k k v in
        let (clean, no_nul) = identifier_text k bytes in
        record { clean = clean; bounded = short; no_nul = no_nul }

-- No identifier is the text of a query without a kind.
star_refused : {k : Bytes} → ¬ (job_kind (kind_text none) ≡ ok k)
unfolding job_kind is_identifier_byte is_alphanumeric is_namespaced
star_refused h = absurd (ok≢err (sym h))

kind_text-injective : (a b : Option Bytes) → IsKind a → IsKind b → kind_text a ≡ kind_text b → a ≡ b
kind_text-injective none none v w h = refl
kind_text-injective none (some k) v w h = absurd (star_refused (ap job_kind h ∙ w))
kind_text-injective (some k) none v w h = absurd (star_refused (ap job_kind (sym h) ∙ v))
kind_text-injective (some k) (some l) v w h = ap some h

stopped :
    (counted starts : Bool) (r : Result (List Bytes))
    → starts ≡ false
    → (if not counted || not starts then invalid_cursor else r) ≡ invalid_cursor
stopped true starts r h = rw h refl
stopped false starts r h = refl

module _ (display : ℕ → Bytes) (parse : Bytes → Option ℕ) (ids : IsIdText display parse) where
  -- A query whose fields a token starts with is the one that the token was made for.
  same_query :
      (query other : JobQuery) (id : ℕ) (keys : List Bytes)
      → IsKind query.kind
      → IsKind other.kind
      → job_fields query ++ display id ∷ [] ≡ job_fields other ++ keys
      → query ≡ other
  same_query query other id keys v w h =
      let states : to_string (state_code query.state) ≡ to_string (state_code other.state) = cc in
      let texts : kind_text query.kind ≡ kind_text other.kind = cc in
      ap₂ (λ (s : Option JobStateKind) (k : Option Bytes). record { state = s; kind = k })
        (sym (state_of-state_code query.state)
          ∙ ap state_of states
          ∙ state_of-state_code other.state)
        (kind_text-injective query.kind other.kind v w texts)

  refused :
      (other : JobQuery) (token : Bytes)
      → starts_with (job_fields other) (split token) ≡ false
      → job_position display parse (some token) other ≡ invalid_cursor
  unfolding job_position keys_after
  refused other token n =
      ap (λ r. r >>= one_id display parse)
        (stopped (length (split token) == length (job_fields other) + 1)
          (starts_with (job_fields other) (split token))
          (ok (drop (length (job_fields other)) (split token))) n)

  -- Where the texts of identities are read back, have at most 64 bytes and neither a separator nor
  -- NUL: a token that was made for one query and an identity of 128 bits gives this identity in the
  -- same query, and is refused by every query that differs in the state or in the kind, also where
  -- one of them asks for any; a kind is one that JobKind::new gives.
  pub job_cursor-own :
      (query other : JobQuery) (id : ℕ) (token : Bytes)
      → id < 2 ^ 128
      → IsKind query.kind
      → IsKind other.kind
      → job_cursor display parse query id ≡ ok token
      → ((query ≡ other) × (job_position display parse (some token) other ≡ ok (some id)))
        ⊎ ((query ≢ other) × (job_position display parse (some token) other ≡ invalid_cursor))
  unfolding job_cursor
  job_cursor-own query other id token fits v w h =
      elim (Bool-cases (starts_with (job_fields other) (split token))) [
        | inl y ↦
            let same =
              same_query query other id _ v w
                (sym fields ∙ starts_with-drop (job_fields other) (split token) y) in
            inl
              (same, subst (λ q. job_position display parse (some token) q ≡ ok (some id)) same own)
        | inr n ↦
            let stops = refused other token n in
            inr (
              (λ same.
                  ok≢err (sym own ∙ ap (job_position display parse (some token)) same ∙ stops)),
              stops,
            )
      ]
    where
      asks : IsJobQuery query
      asks = IsKind-IsJobQuery query v

      made : token ≡ join (job_fields query ++ display id ∷ [])
      made = ok_injective (sym h ∙ job_token display parse ids query id fits asks)

      fields : split token ≡ job_fields query ++ display id ∷ []
      fields =
          ap split made ∙ split-join _ _ (job_fields-IsClean display parse ids query id fits asks)

      own : job_position display parse (some token) query ≡ ok (some id)
      own = (job_position_iff display parse ids query token id fits asks).1 made
