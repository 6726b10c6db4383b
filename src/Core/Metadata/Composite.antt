-- ===== src/Core/Metadata/Composite.antt =====
-- The limits that `list` and `structure` of crates/postproject-core/src/metadata.rs check.
use postproject.Base.{
  ℕ, ◌+◌, ◌^◌, ◌≤◌, ◌≡◌, ◌||◌, List, [], ◌∷◌, arith, Result, ok, err, if◌then◌else◌, ltb, ◌>>=◌,
  >>=-eq-ok, ok_injective, not, if_err-eq-ok, ||-eq-false,
}
use postproject.Core.Metadata.Numbers.{limit_error}
use postproject.Core.Metadata.Value.{MetadataValue}
use postproject.Core.Metadata.New.{
  max_metadata_collection_items, max_metadata_nesting_depth, max_metadata_total_bytes, add_payload,
  checked_payload_sum, composite_depth,
}
use postproject.Core.Metadata.Valid.{IsBounded}
use postproject.Core.Metadata.Accepted.{sum}

add_payload-bound :
    (total n t : ℕ)
    → add_payload total n ≡ ok t
    → (total + n ≡ t) × (total + n ≤ max_metadata_total_bytes)
unfolding add_payload
add_payload-bound total n t h =
    let wide = not (ltb (total + n) (2 ^ 64)) in
    let (small, same) =
      if_err-eq-ok (wide || ltb max_metadata_total_bytes (total + n)) limit_error (ok (total + n))
        h in
    let (_, light) = ||-eq-false wide (ltb max_metadata_total_bytes (total + n)) small in
    (ok_injective same, ground (arith, light))

checked_payload_sum-bound :
    (total : ℕ) (ns : List ℕ) (t : ℕ)
    → total ≤ max_metadata_total_bytes
    → checked_payload_sum total ns ≡ ok t
    → total + sum ns ≤ max_metadata_total_bytes
unfolding checked_payload_sum
checked_payload_sum-bound total [] t b h = omega (arith, b)
checked_payload_sum-bound total (n ∷ ns) t b h =
    let (next, first, rest) =
      >>=-eq-ok (add_payload total n) (λ next. checked_payload_sum next ns) h in
    let (at, small) = add_payload-bound total n next first in
    omega (arith, checked_payload_sum-bound next ns t (omega (arith, small, at)) rest, at)

composite_depth-bound : (d t : ℕ) → composite_depth d ≡ ok t → d + 1 ≤ max_metadata_nesting_depth
unfolding composite_depth
composite_depth-bound d t h =
    let (small, _) =
      if_err-eq-ok (ltb max_metadata_nesting_depth (d + 1)) limit_error (ok (d + 1)) h in
    ground (arith, small)

-- What `list` and `structure` have in common.
unfoldable pub composite : ℕ → ℕ → List ℕ → MetadataValue → Result MetadataValue
composite n d ns v =
    if ltb max_metadata_collection_items n
    then err limit_error
    else (composite_depth d >>= λ depth. checked_payload_sum 0 ns >>= λ total. ok v)

pub composite-IsBounded :
    (n d : ℕ) (ns : List ℕ) (v w : MetadataValue)
    → composite n d ns v ≡ ok w
    → IsBounded n d (sum ns) × (v ≡ w)
unfolding composite
composite-IsBounded n d ns v w h =
    let (few, e) =
      if_err-eq-ok (ltb max_metadata_collection_items n) limit_error
        (composite_depth d >>= λ depth. checked_payload_sum 0 ns >>= λ total. ok v) h in
    let (depth, deep, e') =
      >>=-eq-ok (composite_depth d) (λ depth. checked_payload_sum 0 ns >>= λ total. ok v) e in
    let (total, light, same) = >>=-eq-ok (checked_payload_sum 0 ns) (λ total. ok v) e' in
    (
      record {
        few = ground (arith, few);
        shallow = composite_depth-bound d depth deep;
        light = omega (arith, checked_payload_sum-bound 0 ns total (omega arith) light);
      },
      ok_injective same,
    )
