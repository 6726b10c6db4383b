-- ===== src/Storage/Cursors/Tests.antt =====
-- Runs of the cursors, and the theorems at concrete inputs.
use postproject.Storage.Cursors.Foreign.{IsKind, job_cursor-own}
use postproject.Base.{
  inr, ℕ, ◌+◌, ◌-◌, ◌≡◌, ◌↔◌, refl, Option, none, some, [], ◌∷◌, ◌++◌, ok, arith, ◌⊎◌, ◌≢◌,
}
use postproject.Core.Text.{
  Bytes, eq_bytes, is_identifier_byte, is_alphanumeric, is_namespaced, split_once,
}
use postproject.Core.Content.Pattern.{decimal_of}
use postproject.Storage.Jobs.Row.{claimed}
use postproject.Storage.Cursors.Fields.{split, join}
use postproject.Storage.Cursors.Dependencies.{dependency_position_iff}
use postproject.Storage.Cursors.Position.{
  DependencyQueryLimits, dependency_position, dependency_cursor, dependency_fields, to_string,
  parse_target_kind, JobQuery, job_position, job_cursor, query_cursor, keys_after, starts_with,
  parse_id, job_fields, invalid_cursor, job_kind,
}
use postproject.Storage.Cursors.Jobs.{
  IsIdText, IsJobQuery, job_position_iff, job_position-job_cursor,
}

-- The text of an identity is one code above the separator.
abbrev display : ℕ → Bytes
display id = (id + 125) ∷ []

abbrev parse : Bytes → Option ℕ
parse (code ∷ []) = some (code - 125)
parse _ = none

ids-IsIdText : IsIdText display parse
ids-IsIdText = record {
  reads = λ id fits. ground arith;
  clean = λ id fits. ground arith;
  bounded = λ id fits. omega arith;
  no_nul = λ id fits. ground arith;
}

-- The claimed jobs of the kind `a:b`.
abbrev claimed_jobs : JobQuery
claimed_jobs = record { state = some claimed; kind = some (97 ∷ 58 ∷ 98 ∷ []) }

abbrev all_jobs : JobQuery
all_jobs = record { state = none; kind = none }

claimed_jobs-IsKind : IsKind claimed_jobs.kind
unfolding job_kind is_identifier_byte is_alphanumeric is_namespaced split_once
claimed_jobs-IsKind = refl

claimed_jobs-IsJobQuery : IsJobQuery claimed_jobs
claimed_jobs-IsJobQuery = record { clean = refl; bounded = omega arith; no_nul = refl }

-- `ppq1|jobs|2|a:b|` and the text of 7.
abbrev token : Bytes
token =
    112 ∷ 112 ∷ 113 ∷ 49 ∷ 124 ∷ 106 ∷ 111 ∷ 98 ∷ 115 ∷ 124 ∷ 50 ∷ 124 ∷ 97 ∷ 58 ∷ 98 ∷ 124 ∷ 132
    ∷ []

token_run : job_cursor display parse claimed_jobs 7 ≡ ok token
unfolding job_cursor query_cursor join decimal_of
token_run = refl

position_run : job_position display parse (some token) claimed_jobs ≡ ok (some 7)
unfolding job_position keys_after split starts_with parse_id eq_bytes decimal_of
position_run = refl

other_run : job_position display parse (some token) all_jobs ≡ invalid_cursor
unfolding job_position keys_after split starts_with parse_id eq_bytes decimal_of
other_run = refl

job_position_iff_example :
    (job_position display parse (some token) claimed_jobs ≡ ok (some 7))
    ↔ (token ≡ join (job_fields claimed_jobs ++ display 7 ∷ []))
job_position_iff_example =
    job_position_iff display parse ids-IsIdText claimed_jobs token 7 (omega arith)
      claimed_jobs-IsJobQuery

job_position-job_cursor_example :
    (t : Bytes) × (job_cursor display parse claimed_jobs 7 ≡ ok t)
    × (job_position display parse (some t) claimed_jobs ≡ ok (some 7))
job_position-job_cursor_example =
    job_position-job_cursor display parse ids-IsIdText claimed_jobs 7 (omega arith)
      claimed_jobs-IsJobQuery

-- The token of the claimed jobs of one kind, in the query of all jobs.
job_cursor-own_example :
    ((claimed_jobs ≡ all_jobs) × (job_position display parse (some token) all_jobs ≡ ok (some 7)))
    ⊎ ((claimed_jobs ≢ all_jobs)
        × (job_position display parse (some token) all_jobs ≡ invalid_cursor))
job_cursor-own_example =
    job_cursor-own display parse ids-IsIdText claimed_jobs all_jobs 7 token (omega arith)
      claimed_jobs-IsKind tt token_run

abbrev limits : DependencyQueryLimits
limits = record { max_depth = 64; max_representations = 1000 }

-- `ppq1|dependencies|`, the text of 5, `|64|1000|2|` and the text of 7.
abbrev dependency_token : Bytes
dependency_token = join (dependency_fields display parse 5 limits ++ to_string 2 ∷ display 7 ∷ [])

dependency_run : dependency_cursor display parse 5 limits (2, 7) ≡ ok dependency_token
unfolding dependency_cursor query_cursor join decimal_of
dependency_run = refl

dependency_position_run :
    dependency_position display parse (some dependency_token) 5 limits ≡ ok (some (2, 7))
unfolding dependency_position keys_after split starts_with parse_id parse_target_kind eq_bytes join
    decimal_of
dependency_position_run = refl

dependency_position_iff_example :
    (dependency_position display parse (some dependency_token) 5 limits ≡ ok (some (2, 7))) ↔ (
      dependency_token
      ≡ join (dependency_fields display parse 5 limits ++ to_string 2 ∷ display 7 ∷ []))
dependency_position_iff_example =
    dependency_position_iff display parse ids-IsIdText 5 limits dependency_token 2 7 (omega arith)
      (omega arith) (inr refl)
