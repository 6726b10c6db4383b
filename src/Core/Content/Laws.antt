-- ===== src/Core/Content/Laws.antt =====
-- What the constructors of the content values accept.
use Prim.Native.String.{String}
use postproject.Base.{
  ℕ, ◌≤◌, ◌≡◌, refl, ap, ◌↔◌, inl, inr, Bool, true, false, not, ◌||◌, List, [], ◌∷◌, map, arith,
  Result, ok, invalid_argument, ◌==◌, length, any, all, is_empty, ◌>>◌, reject_if, In, subst,
  ==_iff, Bool-cases, length-map,
}
use postproject.Base.Int.{ℤ}
use postproject.Base.Sorting.{
  canonical, eq_ℤ, Ascending, canonical-Ascending, In-canonical, eq_ℤ-refl, eq_ℤ-true,
}
use postproject.Core.Time.Rate.{RationalRate}
use postproject.Core.Text.{Bytes, is_identifier_byte, is_namespaced_iff, IsNamespaced}
use postproject.Core.Content.Frames.{FrameRange, contains}
use postproject.Core.Content.Pattern.{ImageSequencePattern, resource_role, max_resource_role_bytes}
use postproject.Core.Content.Sequence
use postproject.Core.Content.Sequence.{
  ImageSequenceDescriptor, is_known_missing, max_sequence_exceptions,
}
use postproject.Core.Content.Structure.{
  ResourceMember, ContentStructure, to_set, validate_members, ordered_parts, content_package,
  of_ordered_parts, of_package, max_content_members,
}

-- No identity stands twice in the list.
abbrev pub Distinct : List ℕ → Type 0
Distinct [] = Unit {0}
Distinct (i ∷ is) = (any (λ j. j == i) is ≡ false) × Distinct is

any-to_set : (i : ℕ) (is : List ℕ) → any (λ j. j == i) (to_set is) ≡ any (λ j. j == i) is
unfolding to_set
any-to_set i [] = refl
any-to_set i (k ∷ is) = elim (Bool-cases (any (λ j. j == k) (to_set is))) [
  | inl y ↦ rw y (elim (Bool-cases (k == i)) [
    | inl e ↦ rw e (subst (λ m. any (λ j. j == m) (to_set is) ≡ true) ((==_iff k i).0 e) y)
    | inr n ↦ rw n (any-to_set i is)
  ])
  | inr n ↦ rw n (ap (λ b. k == i || b) (any-to_set i is))
]

length-to_set : (is : List ℕ) → length (to_set is) ≤ length is
unfolding to_set
length-to_set [] = omega arith
length-to_set (i ∷ is) = ground (arith, length-to_set is)

length-to_set_iff : (is : List ℕ) → (length (to_set is) ≡ length is) ↔ Distinct is
unfolding to_set
length-to_set_iff [] = ground arith
length-to_set_iff (i ∷ is) = ground (arith, length-to_set is, length-to_set_iff is, any-to_set i is)

unfoldable pub Acceptable : List ResourceMember → Type 0
Acceptable ms =
    (is_empty ms ≡ false)
    × (length ms ≤ max_content_members)
    × Distinct (map (λ m. m.resource_id) ms)

-- The members are accepted exactly when there are some, not more than allowed, and no two of them
-- are the same resource.
pub validate_members_iff :
    (ms : List ResourceMember) → (validate_members ms ≡ ok tt) ↔ Acceptable ms
unfolding validate_members Acceptable
validate_members_iff ms =
    ground
      (arith, length-to_set_iff (map (λ m. m.resource_id) ms), length-map (λ m. m.resource_id) ms)

-- A constructor that validates its members and then makes one more test.
members_then :
    (ms : List ResourceMember) (bad : Bool) (m : String) (made c : ContentStructure)
    → ((validate_members ms >> (reject_if bad invalid_argument m >> ok made)) ≡ ok c)
      ↔ ((c ≡ made) × Acceptable ms × (bad ≡ false))
members_then ms bad m made c = go (validate_members ms) (validate_members_iff ms)
  where
    go :
        (v : Result (Unit {0}))
        → (v ≡ ok tt) ↔ Acceptable ms
        → ((v >> (reject_if bad invalid_argument m >> ok made)) ≡ ok c)
          ↔ ((c ≡ made) × Acceptable ms × (bad ≡ false))
    go v iff = ground (arith, iff)

-- Ordered parts are built exactly from acceptable members that are all required.
pub ordered_parts_iff :
    (ms : List ResourceMember) (c : ContentStructure)
    → (ordered_parts ms ≡ ok c)
      ↔ ((c ≡ of_ordered_parts ms) × Acceptable ms × (any (λ m. not m.required) ms ≡ false))
unfolding ordered_parts
ordered_parts_iff ms c =
    members_then ms (any (λ m. not m.required) ms) "ordered content parts must all be required"
      (of_ordered_parts ms) c

-- A package is built exactly from acceptable members of which one is required.
pub content_package_iff :
    (ms : List ResourceMember) (c : ContentStructure)
    → (content_package ms ≡ ok c)
      ↔ ((c ≡ of_package ms) × Acceptable ms × (any (λ m. m.required) ms ≡ true))
unfolding content_package
content_package_iff ms c =
    let made =
      members_then ms (not (any (λ m. m.required) ms))
        "a content package must have at least one required member" (of_package ms) c in
    ground (arith, made)

any-eq_ℤ_iff : (f : ℤ) (fs : List ℤ) → (any (λ x. eq_ℤ x f) fs ≡ true) ↔ In f fs
any-eq_ℤ_iff f [] = ground arith
any-eq_ℤ_iff f (x ∷ fs) = ground (arith, any-eq_ℤ_iff f fs, eq_ℤ-true x f, eq_ℤ-refl x)

any-not :
    {A : Type 0} (p : A → Bool) (a : A) (xs : List A)
    → any (λ x. not (p x)) xs ≡ false
    → In a xs
    → p a ≡ true
any-not p a [] h i = absurd i
any-not p a (x ∷ xs) h i = ground (arith, any-not p a xs)

descriptor-ok :
    (resource_id : ℕ) (pattern : ImageSequencePattern) (frames : FrameRange) (rate : RationalRate)
    (given : List ℤ) (d : ImageSequenceDescriptor)
    → Sequence.new resource_id pattern frames rate given ≡ ok d
    → (any (λ f. not (contains frames f)) given ≡ false)
      × (d.frames ≡ frames)
      × (d.known_missing_frames ≡ canonical given)
unfolding Sequence.new
descriptor-ok resource_id pattern frames rate given d h = ground arith

-- A descriptor keeps the missing frames it was given, ascending and each once, and all of them are
-- frames of its range.
pub known_missing-new :
    (resource_id : ℕ) (pattern : ImageSequencePattern) (frames : FrameRange) (rate : RationalRate)
    (given : List ℤ) (d : ImageSequenceDescriptor)
    → Sequence.new resource_id pattern frames rate given ≡ ok d
    → Ascending d.known_missing_frames
      × ((f : ℤ) → (is_known_missing d f ≡ true) ↔ In f given)
      × ((f : ℤ) → In f given → contains d.frames f ≡ true)
unfolding Sequence.new is_known_missing
known_missing-new resource_id pattern frames rate given d h =
    let (inside, same_frames, same_missing) =
      descriptor-ok resource_id pattern frames rate given d h in
    rw same_frames (
      rw same_missing (
        canonical-Ascending given,
        (λ f. ground (arith, any-eq_ℤ_iff f (canonical given), In-canonical f given)),
        (λ f i. any-not (contains frames) f given inside i),
      ))

-- A role is accepted exactly when it has at most 128 bytes, each of them one of an identifier, and
-- is namespaced.
pub resource_role_iff :
    (value role : Bytes)
    → (resource_role value ≡ ok role) ↔ (
        (role ≡ value)
        × (length value ≤ max_resource_role_bytes)
        × (all is_identifier_byte value ≡ true)
        × IsNamespaced value)
unfolding resource_role
resource_role_iff value role = ground (arith, is_namespaced_iff value)
