-- ===== src/Base/Errors.antt =====
-- crates/postproject-core/src/error.rs: the error categories, the error value and `Result`, with
-- the `?` operator as the bind of a `do` block.
use Prim.Native.String.{String}
use mathlib.Core.Path.{◌≡◌, refl}
use mathlib.Core.Bool.{Bool, true, false, not, ◌||◌}
use postproject.Base.Tests.{if◌then◌else◌}
use mathlib.Core.Option.{Option, none, some}

pub data ErrorKind : Type 0 where
  invalid_argument not_found already_exists io storage migration conflict : ErrorKind
  ambiguous_resolution fingerprint unsupported internal : ErrorKind

pub record Error : Type 0 where
  pub kind : ErrorKind
  pub message : String

pub data Result {ℓ} (A : Type ℓ) : Type ℓ where
  ok : A → Result A
  err : Error → Result A

-- `Err(Error::new(kind, message))`.
abbrev pub fail {ℓ} : {A : Type ℓ} → ErrorKind → String → Result A
fail k m = err (record { kind = k; message = m })

-- `if bad { return Err(…) }`.
abbrev pub reject_if : Bool → ErrorKind → String → Result (Unit {0})
reject_if true k m = fail k m
reject_if false k m = ok tt

-- `option.ok_or_else(…)?`.
abbrev pub ok_or {ℓ} : {A : Type ℓ} → Option A → ErrorKind → String → Result A
ok_or none k m = fail k m
ok_or (some a) k m = ok a

-- `result?` before the rest of the block; the rest is not run after an error.
infixl 5 ◌>>◌
abbrev pub ◌>>◌ {κ} : {B : Type κ} → Result (Unit {0}) → Result B → Result B
ok _ >> rest = rest
err e >> rest = err e

infixl 5 ◌>>=◌
abbrev pub ◌>>=◌ {ℓ κ} : {A : Type ℓ} {B : Type κ} → Result A → (A → Result B) → Result B
err e >>= rest = err e
ok value >>= rest = rest value

-- The result is an error of the given category.
abbrev pub FailsWith {ℓ} : {A : Type ℓ} → ErrorKind → Result A → Type 0
FailsWith k (ok a) = ⊥
FailsWith k (err e) = e.kind ≡ k

-- What a successful bind bound, and that the rest succeeds on it.
pub >>=-eq-ok {ℓ κ} :
    {A : Type ℓ} {B : Type κ} (first : Result A) (rest : A → Result B) {result : B}
    → (first >>= rest) ≡ ok result
    → (bound : A) × (first ≡ ok bound) × (rest bound ≡ ok result)
>>=-eq-ok (err e) rest h = cc
>>=-eq-ok (ok bound) rest h = (bound, refl, h)

pub reject_if-eq-ok :
    (bad : Bool) (k : ErrorKind) (m : String) → reject_if bad k m ≡ ok tt → bad ≡ false
reject_if-eq-ok true k m h = cc
reject_if-eq-ok false k m h = refl

pub some_injective : {A : Type 0} {a b : A} → some a ≡ some b → a ≡ b
some_injective h = cc

pub ok_injective : {A : Type 0} {a b : A} → ok a ≡ ok b → a ≡ b
ok_injective h = cc

pub none≢some : {A : Type 0} {a : A} → ¬ (none ≡ some a)
none≢some h = cc

pub ok≢err {ℓ} : {A : Type ℓ} {a : A} {e : Error} → ¬ (ok a ≡ err e)
ok≢err h = cc

pub if_err-eq-ok :
    {A : Type 0} (bad : Bool) (e : Error) (r : Result A) {a : A}
    → (if bad then err e else r) ≡ ok a
    → (bad ≡ false) × (r ≡ ok a)
if_err-eq-ok true e r h = cc
if_err-eq-ok false e r h = (refl, h)

pub >>-eq-ok :
    {A : Type 0} (first : Result (Unit {0})) (rest : Result A) {a : A}
    → (first >> rest) ≡ ok a
    → (first ≡ ok tt) × (rest ≡ ok a)
>>-eq-ok (ok _) rest h = (refl, h)
>>-eq-ok (err e) rest h = cc

pub ||-eq-false : (a b : Bool) → (a || b) ≡ false → (a ≡ false) × (b ≡ false)
||-eq-false true b h = cc
||-eq-false false b h = (refl, h)

pub not-false : (b : Bool) → not b ≡ false → b ≡ true
not-false true h = refl
not-false false h = cc
