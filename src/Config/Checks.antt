-- ===== src/Config/Checks.antt =====
-- pkg/config/loader.go: the checks of a resource, each with the predicate that it decides.
use mathlib.Core.Sum.{inl-ne-inr}
use version_guard.Base.{
  ◌≡◌, refl, ◌↔◌, ◌⊎◌, inl, inr, String, true, false, ◌==◌, eq_iff, arith, Option, none, some, [],
  ◌∷◌, Map, All, any, lookup, is_some, Bool-cases, if_ind, Option-cases, inr-injective, if_cases,
  if_then_inr, if_else_inr, not, subst, if◌then◌else◌,
}
use version_guard.EndOfLife.Declarative.{
  ConfigError, DeclarativeLifecycleConfig, validate_declarative_lifecycle_config,
}
use version_guard.EndOfLife.Registry.{get_schema_adapter, schema_declarative}
use version_guard.Config.Transforms.{TransformError, unless}
use version_guard.Config.Ready.{IsGiven, IsGiven-iff}
use version_guard.Config.{
  InventoryConfig, EolConfig, ResourceConfig, validate_eol_config, validate_mappings,
  validate_fields, lacks_id, checked_lifecycle, bad, bad_block, no_lifecycle, with_schema,
  default_schema,
}

-- The schema of a block, with the lifecycle that it has.
abbrev pub SchemaIsReady : String → Option DeclarativeLifecycleConfig → Type 0
SchemaIsReady schema none = (schema ≡ "") ⊎ (schema ≡ "standard")
SchemaIsReady schema (some l) =
    (schema ≡ "declarative") × (validate_declarative_lifecycle_config (some l) ≡ none)

-- The resource ID is mapped, no required column is empty, and no key is mapped twice.
abbrev pub MappingsAreReady : InventoryConfig → Type 0
MappingsAreReady i =
    (lacks_id (lookup "resource_id" i.required_mappings) ≡ false)
    × All (λ entry. IsGiven entry.1) i.required_mappings
    × All (λ entry. lookup entry.0 i.field_mappings ≡ none) i.required_mappings

abbrev pub FieldsAreReady : ResourceConfig → Type 0
FieldsAreReady r =
    IsGiven r.id
    × IsGiven r.type
    × IsGiven r.cloud_provider
    × IsGiven r.inventory.source
    × IsGiven r.eol.provider
    × IsGiven r.eol.product

pub validate_fields_iff : (r : ResourceConfig) → (validate_fields r ≡ none) ↔ FieldsAreReady r
unfolding validate_fields
validate_fields_iff r = ground (
  arith,
  IsGiven-iff r.id,
  IsGiven-iff r.type,
  IsGiven-iff r.cloud_provider,
  IsGiven-iff r.inventory.source,
  IsGiven-iff r.eol.provider,
  IsGiven-iff r.eol.product,
)

any_empty_iff :
    (m : Map String) → (any (λ entry. entry.1 == "") m ≡ false) ↔ All (λ entry. IsGiven entry.1) m
any_empty_iff [] = (λ h. tt, λ h. refl)
any_empty_iff ((k, v) ∷ m) = ground (arith, any_empty_iff m, IsGiven-iff v)

any_twice_iff :
    (fields m : Map String)
    → (any (λ entry. is_some (lookup entry.0 fields)) m ≡ false)
      ↔ All (λ entry. lookup entry.0 fields ≡ none) m
any_twice_iff fields [] = (λ h. tt, λ h. refl)
any_twice_iff fields ((k, v) ∷ m) =
    ground (arith, any_twice_iff fields m, Option-cases (lookup k fields))

pub validate_mappings_iff :
    (i : InventoryConfig) → (validate_mappings i ≡ none) ↔ MappingsAreReady i
unfolding validate_mappings
validate_mappings_iff i = ground (
  arith,
  any_empty_iff i.required_mappings,
  any_twice_iff i.field_mappings i.required_mappings,
  Bool-cases (lacks_id (lookup "resource_id" i.required_mappings)),
)

known_schema_iff :
    (s : String)
    → (is_some (get_schema_adapter (default_schema s)) ≡ true) ↔ ((s ≡ "") ⊎ (s ≡ "standard"))
unfolding get_schema_adapter
known_schema_iff s = elim (Bool-cases (s == "")) [
  | inl e ↦ rw e (λ h. inl ((eq_iff s "").0 e), λ h. refl)
  | inr n ↦ rw n ground (arith, eq_iff "standard" s, eq_iff s "standard", eq_iff s "")
]

-- A block as the check leaves it: its schema may have been filled in, and is ready.
abbrev pub HasOutcome : EolConfig → EolConfig → Type 0
HasOutcome e d =
    (d.provider ≡ e.provider) × (d.product ≡ e.product) × SchemaIsReady d.schema d.lifecycle

pub unless-inr :
    {E A : Type 0} (o : Option E) (z : E ⊎ A) {y : A}
    → unless o z ≡ inr y
    → (o ≡ none) × (z ≡ inr y)
unless-inr none z h = (refl, h)
unless-inr (some e) z h = absurd (inl-ne-inr h)

bad_block-eq-none : (o : Option ConfigError) → bad_block o ≡ none → o ≡ none
bad_block-eq-none none h = refl
bad_block-eq-none (some e) h = absurd cc

pub bad-eq-none : (o : Option TransformError) → bad o ≡ none → o ≡ none
bad-eq-none none h = refl
bad-eq-none (some e) h = absurd cc

checked_lifecycle-HasOutcome :
    (o : Option DeclarativeLifecycleConfig) (e d : EolConfig)
    → e.lifecycle ≡ o
    → checked_lifecycle o e ≡ inr d
    → HasOutcome e d
unfolding checked_lifecycle
checked_lifecycle-HasOutcome none e d o h =
    let p = if_then_inr (is_some (get_schema_adapter (default_schema e.schema))) _ h in
    subst (HasOutcome e) (inr-injective _ _ p.1)
      (refl, refl, rw o ((known_schema_iff e.schema).0 p.0))
checked_lifecycle-HasOutcome (some l) e d o h =
    let p = if_else_inr (not ((with_schema e).schema == schema_declarative)) _ h in
    let named : (with_schema e).schema ≡ schema_declarative =
      ground (arith, p.0, eq_iff (with_schema e).schema schema_declarative) in
    let q = unless-inr (bad_block (validate_declarative_lifecycle_config (some l))) _ p.1 in
    subst (HasOutcome e) (inr-injective _ _ q.1) (refl, refl, rw o (named, bad_block-eq-none _ q.0))

-- A block that passes is ready as it leaves the check.
pub validate_eol_config-HasOutcome :
    (e d : EolConfig) → validate_eol_config e ≡ inr d → HasOutcome e d
unfolding validate_eol_config
validate_eol_config-HasOutcome e d h = elim (if_cases (e.schema == schema_declarative) h) [
  | inl p ↦
      checked_lifecycle-HasOutcome e.lifecycle e d refl (if_then_inr (is_some e.lifecycle) _ p.1).1
  | inr p ↦ checked_lifecycle-HasOutcome e.lifecycle e d refl p.1
]

checked_lifecycle-accepts :
    (o : Option DeclarativeLifecycleConfig) (e : EolConfig)
    → SchemaIsReady e.schema o
    → checked_lifecycle o e ≡ inr e
unfolding checked_lifecycle
checked_lifecycle-accepts none e h = rw ((known_schema_iff e.schema).1 h) refl
checked_lifecycle-accepts (some l) e h = rw (h.0, h.1) refl

standard_schema : (s : String) → (s ≡ "") ⊎ (s ≡ "standard") → (s == schema_declarative) ≡ false
standard_schema s (inl p) = rw p refl
standard_schema s (inr p) = rw p refl

-- The choice of `validate_eol_config`, with the lifecycle at hand.
chosen-accepts :
    (o : Option DeclarativeLifecycleConfig) (e : EolConfig)
    → SchemaIsReady e.schema o
    → (if e.schema == schema_declarative
        then (if is_some o then checked_lifecycle o e else inl no_lifecycle)
        else checked_lifecycle o e)
      ≡ inr e
chosen-accepts none e h = rw (standard_schema e.schema h) (checked_lifecycle-accepts none e h)
chosen-accepts (some l) e h =
    let same = checked_lifecycle-accepts (some l) e h in
    if_ind (λ z. z ≡ inr e) (e.schema == schema_declarative) same same

pub validate_eol_config-accepts :
    (e : EolConfig) → SchemaIsReady e.schema e.lifecycle → validate_eol_config e ≡ inr e
unfolding validate_eol_config
validate_eol_config-accepts e h = chosen-accepts e.lifecycle e h
