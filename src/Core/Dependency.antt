-- ===== src/Core/Dependency.antt =====
-- crates/postproject-core/src/dependency.rs: the observed dependencies of a representation.
-- An identity is the number that its 16 bytes spell.
use postproject.Base.{
  ℕ, Bool, true, false, not, ◌&&◌, ◌||◌, Option, none, some, List, Result, ok, err,
  invalid_argument, if◌then◌else◌, ltb, ◌==◌, length, all, ◌>>◌, reject_if,
}
use postproject.Core.Text.{Bytes, is_identifier_byte, is_namespaced, has_nul}

abbrev pub max_dependency_kind_bytes : ℕ
max_dependency_kind_bytes = 128

abbrev pub max_authored_reference_bytes : ℕ
max_authored_reference_bytes = 4096

abbrev pub max_dependencies_per_set : ℕ
max_dependencies_per_set = 100000

-- `DependencyKind::new`; a kind is its text.
unfoldable pub dependency_kind : Bytes → Result Bytes
dependency_kind value =
    if ltb max_dependency_kind_bytes (length value)
      || (not (all is_identifier_byte value) || not (is_namespaced value))
    then err (record {
      kind = invalid_argument;
      message = "dependency kind must be a namespaced identifier";
    })
    else ok value

pub data DependencyTarget : Type 0 where
  asset representation : ℕ → DependencyTarget

pub record Dependency : Type 0 where
  pub source_resource_id : Option ℕ
  pub kind : Bytes
  pub target : DependencyTarget
  pub resolved_representation_id : Option ℕ
  pub required : Bool
  pub authored_reference : Bytes

abbrev pub is_pinned : DependencyTarget → Bool
is_pinned (asset i) = false
is_pinned (representation i) = true

abbrev pub is_some : {A : Type 0} → Option A → Bool
is_some none = false
is_some (some a) = true

-- `Dependency::new`.
unfoldable pub dependency :
    Option ℕ → Bytes → DependencyTarget → Option ℕ → Bool → Bytes → Result Dependency
dependency source_resource_id kind target resolved required authored_reference = do
  reject_if
      (ltb max_authored_reference_bytes (length authored_reference) || has_nul authored_reference)
      invalid_argument "authored dependency reference must not contain NUL or exceed the limit"
  reject_if (is_pinned target && is_some resolved) invalid_argument
      "a pinned dependency target must not have a separate resolved representation"
  ok (record {
    source_resource_id = source_resource_id;
    kind = kind;
    target = target;
    resolved_representation_id = resolved;
    required = required;
    authored_reference = authored_reference;
  })

pub data DependencySetStatus : Type 0 where
  up_to_date needs_extraction : DependencySetStatus

pub record DependencySet : Type 0 where
  pub source_representation_id : ℕ
  pub recorded_at_revision : ℕ
  pub status : DependencySetStatus
  pub dependencies : List Dependency

-- `DependencySet::new`.
unfoldable pub dependency_set : ℕ → ℕ → DependencySetStatus → List Dependency → Result DependencySet
dependency_set source recorded_at_revision status dependencies = do
  reject_if (recorded_at_revision == 0) invalid_argument
      "dependency-set revision must be greater than zero"
  reject_if (ltb max_dependencies_per_set (length dependencies)) invalid_argument
      "dependency set must contain a bounded number of edges"
  ok (record {
    source_representation_id = source;
    recorded_at_revision = recorded_at_revision;
    status = status;
    dependencies = dependencies;
  })

-- The derived `==`.
unfoldable pub eq_target : DependencyTarget → DependencyTarget → Bool
eq_target (asset i) (asset j) = i == j
eq_target (asset i) (representation j) = false
eq_target (representation i) (asset j) = false
eq_target (representation i) (representation j) = i == j

unfoldable pub eq_option : Option ℕ → Option ℕ → Bool
eq_option none none = true
eq_option none (some j) = false
eq_option (some i) none = false
eq_option (some i) (some j) = i == j
