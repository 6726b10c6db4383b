-- ===== src/Storage/Metadata/Yields.antt =====
-- What a reader of crates/postproject-storage-sqlite/src/metadata_codec.rs yields where it does.
use postproject.Base
use postproject.Base.{
  ℕ, zero, suc, ◌+◌, ◌^◌, ◌≤◌, ◌<◌, ◌≡◌, refl, sym, ap, subst, ◌∙◌, Bool, true, false, List, [],
  ◌∷◌, arith, Result, ok, err, if◌then◌else◌, ltb, length, take, All, inl, inr, Bool-cases,
}
use postproject.Base.Machine.{fits}
use postproject.Core.Text.{Bytes}
use postproject.Core.Bytes.{number_of, number_of_lt, fits-signed_of}
use postproject.Core.Metadata.New.{TextTests, max_metadata_collection_items}
use postproject.Storage.Metadata.Decode.{
  Reader, continue, ◌>>=◌, pure, lift, invalid_stored_value, is_storage, drop, read_exact,
  read_unsigned, read_signed, read_bytes, read_string, read_count,
}

abbrev pub Octets : Bytes → Type 0
Octets = All (λ b. b < 256)

abbrev pub Gives : {A : Type 0} → (A → Type 0) → Result (A × Bytes) → Type 0
Gives P (ok (a, rest)) = P a × Octets rest
Gives P (err e) = Unit {0}

-- On bytes, what is read satisfies the predicate, and the rest is bytes.
pub record Yields {A : Type 0} (P : A → Type 0) (p : Reader A) : Type 0 where
  pub run : (encoded : Bytes) → Octets encoded → Gives P (p encoded)

continue-Gives :
    {A B : Type 0} {P : A → Type 0} {Q : B → Type 0} (r : Result (A × Bytes)) (f : A → Reader B)
    → Gives P r
    → ((a : A) → P a → Yields Q (f a))
    → Gives Q (continue r f)
continue-Gives (ok (a, rest)) f h k = (k a h.0).run rest h.1
continue-Gives (err e) f h k = tt

pub Yields-then :
    {A B : Type 0} {P : A → Type 0} {Q : B → Type 0} {p : Reader A} {f : A → Reader B}
    → Yields P p
    → ((a : A) → P a → Yields Q (f a))
    → Yields Q (p >>= f)
Yields-then {p = p} {f = f} h k = record {
  run = λ encoded o. continue-Gives (p encoded) f (h.run encoded o) k;
}

map-Gives :
    {A : Type 0} (P Q : A → Type 0) (r : Result (A × Bytes))
    → ((a : A) → P a → Q a)
    → Gives P r
    → Gives Q r
map-Gives P Q (ok (a, rest)) f h = (f a h.0, h.1)
map-Gives P Q (err e) f h = tt

pub Yields-map :
    {A : Type 0} {P Q : A → Type 0} {p : Reader A} → ((a : A) → P a → Q a) → Yields P p → Yields Q p
Yields-map {P = P} {Q = Q} {p = p} f h = record {
  run = λ encoded o. map-Gives P Q (p encoded) f (h.run encoded o);
}

pub Yields-pure : {A : Type 0} {P : A → Type 0} {a : A} → P a → Yields P (pure a)
Yields-pure h = record { run = λ encoded o. (h, o) }

pub Yields-fail : {A : Type 0} {P : A → Type 0} {e : Base.Error} → Yields P (λ encoded. err e)
Yields-fail = record { run = λ encoded o. tt }

lift-Gives :
    {A : Type 0} {P : A → Type 0} (r : Result A) (encoded : Bytes)
    → Octets encoded
    → ((a : A) → r ≡ ok a → P a)
    → Gives P (lift r encoded)
lift-Gives (ok a) encoded o h = (h a refl, o)
lift-Gives (err e) encoded o h = tt

pub Yields-lift :
    {A : Type 0} {P : A → Type 0} {r : Result A} → ((a : A) → r ≡ ok a → P a) → Yields P (lift r)
Yields-lift {r = r} h = record { run = λ encoded o. lift-Gives r encoded o h }

pub Yields-if :
    {A : Type 0} {P : A → Type 0} {p q : Reader A} (b : Bool)
    → (b ≡ true → Yields P p)
    → (b ≡ false → Yields P q)
    → Yields P (if b then p else q)
Yields-if true h k = h refl
Yields-if false h k = k refl

pub invalid_stored_value-Gives :
    {A : Type 0} (P : A → Type 0) (r : Result (A × Bytes))
    → Gives P r
    → Gives P (invalid_stored_value r)
invalid_stored_value-Gives P (ok (a, rest)) h = h
invalid_stored_value-Gives P (err e) h = elim (Bool-cases (is_storage e.kind)) [
  | inl y ↦ rw y tt
  | inr n ↦ rw n tt
]

take-Octets : (n : ℕ) (bs : Bytes) → Octets bs → Octets (take n bs)
take-Octets zero bs h = tt
take-Octets (suc n) [] h = tt
take-Octets (suc n) (b ∷ bs) h = (h.0, take-Octets n bs h.1)

drop-Octets : (n : ℕ) (bs : Bytes) → Octets bs → Octets (drop n bs)
drop-Octets zero bs h = h
drop-Octets (suc n) [] h = tt
drop-Octets (suc n) (b ∷ bs) h = drop-Octets n bs h.1

length-take_within : (n : ℕ) (bs : Bytes) → n ≤ length bs → length (take n bs) ≡ n
length-take_within zero bs h = refl
length-take_within (suc n) [] h = absurd (omega (arith, h))
length-take_within (suc n) (b ∷ bs) h = ap suc (length-take_within n bs (omega (arith, h)))

pub read_exact-Yields : (n : ℕ) → Yields (λ t. (length t ≡ n) × Octets t) (read_exact n)
unfolding read_exact
read_exact-Yields n = record {
  run = λ encoded o. elim (Bool-cases (ltb (length encoded) n)) [
    | inl y ↦ rw y tt
    | inr m ↦ rw m (
      (length-take_within n encoded (ground (arith, m)), take-Octets n encoded o),
      drop-Octets n encoded o,
    )
  ];
}

pub read_unsigned-Yields : (k : ℕ) → Yields (λ n. n < 256 ^ k) (read_unsigned k)
unfolding read_unsigned
read_unsigned-Yields k =
    Yields-then (read_exact-Yields k)
      λ t h. Yields-pure (subst (λ n. number_of t < 256 ^ n) h.0 (number_of_lt t h.1))

pub read_signed-Yields :
    (k bound : ℕ)
    → bound + bound ≡ 256 ^ k
    → Yields (λ z. fits bound z ≡ true) (read_signed k bound)
unfolding read_signed
read_signed-Yields k bound e =
    Yields-then (read_unsigned-Yields k)
      λ n h. Yields-pure (fits-signed_of bound n (omega (arith, h, e)))

ltb-false→le : (a b : ℕ) → ltb a b ≡ false → b ≤ a
ltb-false→le a b h = ground arith

pub read_bytes-Yields : (maximum : ℕ) → Yields (λ t. length t ≤ maximum) (read_bytes maximum)
unfolding read_bytes
read_bytes-Yields maximum = Yields-then (read_unsigned-Yields 4) λ n _.
    Yields-if (ltb maximum n) (λ _. Yields-fail)
      λ m. Yields-map (λ t h. omega (arith, h.0, ltb-false→le maximum n m)) (read_exact-Yields n)

pub read_count-Yields : Yields (λ n. n ≤ max_metadata_collection_items) read_count
unfolding read_count
read_count-Yields = Yields-then (read_unsigned-Yields 4) λ n _.
    Yields-if (ltb max_metadata_collection_items n) (λ _. Yields-fail)
      λ m. Yields-pure (ground (arith, m))

pub read_string-Yields :
    (tests : TextTests) (maximum : ℕ)
    → Yields (λ t. (tests.is_utf8 t ≡ true) × (length t ≤ maximum)) (read_string tests maximum)
unfolding read_string
read_string-Yields tests maximum =
    Yields-then (read_bytes-Yields maximum)
      λ t h. Yields-if (tests.is_utf8 t) (λ u. Yields-pure (u, h)) λ _. Yields-fail
