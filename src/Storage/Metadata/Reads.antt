-- ===== src/Storage/Metadata/Reads.antt =====
-- What the reader of crates/postproject-storage-sqlite/src/metadata_codec.rs reads of a stored form.
use postproject.Base.{
  ℕ, ◌+◌, ◌^◌, ◌≤◌, ◌<◌, ◌≡◌, refl, ap, subst, ◌∙◌, true, false, [], ◌∷◌, ◌++◌, arith, Result, ok,
  ltb, length, take, length-append,
}
use mathlib.Core.List
use postproject.Base.Int.{ℤ}
use postproject.Base.Machine.{fits}
use postproject.Core.Text.{Bytes}
use postproject.Core.Bytes.{
  be_bytes, number_of, length-be_bytes, number_of-be_bytes, unsigned_of, signed_of,
  signed_of-unsigned_of, unsigned_of_lt,
}
use postproject.Core.Metadata.New.{TextTests, max_metadata_collection_items}
use postproject.Storage.Metadata.Decode.{
  Reader, continue, ◌>>=◌, pure, lift, drop, read_exact, read_unsigned, read_signed, read_bytes,
  read_string, read_count,
}
use postproject.Storage.Metadata.Form.{prefixed}

-- On these bytes, whatever follows them, the value is read.
pub record Reads {A : Type 0} (form : Bytes) (p : Reader A) (a : A) : Type 0 where
  pub run : (rest : Bytes) → p (form ++ rest) ≡ ok (a, rest)

pub Reads-then :
    {A B : Type 0} (a b : Bytes) (p : Reader A) (f : A → Reader B) (x : A) (y : B)
    → Reads a p x
    → Reads b (f x) y
    → Reads (a ++ b) (p >>= f) y
Reads-then a b p f x y h k = record {
  run = λ rest.
      ap (λ t. continue (p t) f) (List.append_assoc a b rest)
      ∙ ap (λ r. continue r f) (h.run (b ++ rest))
      ∙ k.run rest;
}

-- The last step, which reads nothing.
pub Reads-last :
    {A B : Type 0} (a : Bytes) (p : Reader A) (f : A → Reader B) (x : A) (y : B)
    → Reads a p x
    → Reads [] (f x) y
    → Reads a (p >>= f) y
Reads-last a p f x y h k = record { run = λ rest. ap (λ r. continue r f) (h.run rest) ∙ k.run rest }

pub Reads-pure : {A : Type 0} (a : A) → Reads [] (pure a) a
Reads-pure a = record { run = λ rest. refl }

pub Reads-ok : {A : Type 0} {m : A} (a : A) → m ≡ a → Reads [] (pure m) a
Reads-ok a e = record { run = λ rest. ap (λ m. ok (m, rest)) e }

pub Reads-lift : {A : Type 0} (r : Result A) (a : A) → r ≡ ok a → Reads [] (lift r) a
Reads-lift r a e = record { run = λ rest. ap (λ r. lift r rest) e }

take-append : (a rest : Bytes) → take (length a) (a ++ rest) ≡ a
take-append [] rest = refl
take-append (b ∷ a) rest = ap (◌∷◌ b) (take-append a rest)

drop-append : (a rest : Bytes) → drop (length a) (a ++ rest) ≡ rest
drop-append [] rest = refl
drop-append (b ∷ a) rest = drop-append a rest

pub read_exact-Reads : (a : Bytes) → Reads a (read_exact (length a)) a
unfolding read_exact
read_exact-Reads a = record {
  run = λ rest.
      let enough : ltb (length (a ++ rest)) (length a) ≡ false =
        ground (arith, length-append a rest) in
      rw (enough, take-append a rest, drop-append a rest) refl;
}

pub read_unsigned-Reads : (k n : ℕ) → n < 256 ^ k → Reads (be_bytes k n) (read_unsigned k) n
unfolding read_unsigned
read_unsigned-Reads k n h =
    Reads-last (be_bytes k n) (read_exact k) _ (be_bytes k n) n
      (subst (λ w. Reads (be_bytes k n) (read_exact w) (be_bytes k n)) (length-be_bytes k n)
        (read_exact-Reads (be_bytes k n)))
      (Reads-ok n (number_of-be_bytes k n h))

pub read_byte-Reads : (b : ℕ) → Reads (b ∷ []) (read_unsigned 1) b
unfolding read_unsigned number_of
read_byte-Reads b =
    Reads-last (b ∷ []) (read_exact 1) _ (b ∷ []) b (read_exact-Reads (b ∷ []))
      (Reads-ok b (omega arith))

pub read_signed-Reads :
    (k bound : ℕ) (z : ℤ)
    → bound + bound ≡ 256 ^ k
    → fits bound z ≡ true
    → Reads (be_bytes k (unsigned_of bound z)) (read_signed k bound) z
unfolding read_signed
read_signed-Reads k bound z e h =
    Reads-last (be_bytes k (unsigned_of bound z)) (read_unsigned k)
      (λ value. pure (signed_of bound value)) (unsigned_of bound z) z
      (read_unsigned-Reads k (unsigned_of bound z) (omega (arith, e, unsigned_of_lt bound z h)))
      (Reads-ok z (signed_of-unsigned_of bound z h))

pub read_bytes-Reads :
    (maximum : ℕ) (t : Bytes)
    → length t ≤ maximum
    → length t < 2 ^ 32
    → Reads (prefixed t) (read_bytes maximum) t
unfolding read_bytes
read_bytes-Reads maximum t h k =
    let small : ltb maximum (length t) ≡ false = ground arith in
    Reads-then (be_bytes 4 (length t)) t (read_unsigned 4) _ (length t) t
      (read_unsigned-Reads 4 (length t) (omega (arith, k))) (rw small (read_exact-Reads t))

pub read_count-Reads :
    (n : ℕ) → n ≤ max_metadata_collection_items → Reads (be_bytes 4 n) read_count n
unfolding read_count
read_count-Reads n h =
    let small : ltb max_metadata_collection_items n ≡ false = ground arith in
    Reads-last (be_bytes 4 n) (read_unsigned 4) _ n n (read_unsigned-Reads 4 n (omega (arith, h)))
      (rw small (Reads-pure n))

pub read_string-Reads :
    (tests : TextTests) (maximum : ℕ) (t : Bytes)
    → length t ≤ maximum
    → length t < 2 ^ 32
    → tests.is_utf8 t ≡ true
    → Reads (prefixed t) (read_string tests maximum) t
unfolding read_string
read_string-Reads tests maximum t h k u =
    Reads-last (prefixed t) (read_bytes maximum) _ t t (read_bytes-Reads maximum t h k)
      (rw u (Reads-pure t))
