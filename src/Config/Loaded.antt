-- ===== src/Config/Loaded.antt =====
-- pkg/config/loader.go: what a configuration that was loaded guarantees.
use mathlib.Core.Sum.{inl-ne-inr}
use version_guard.Base.{
  ℕ, suc, ◌≡◌, refl, ◌⊎◌, inl, inr, String, ◌==◌, Option, none, some, List, [], ◌∷◌, All, sym, ap,
  inr-injective, if_else_inr, subst,
}
use version_guard.Config.Transforms.{◌or_else◌, validate_transforms}
use version_guard.Config.Ready.{
  IsGiven, IsGiven-iff, or_else-eq-none, TransformsAreReady, validate_transforms_iff,
}
use version_guard.Config.Checks.{
  SchemaIsReady, MappingsAreReady, FieldsAreReady, validate_fields_iff, validate_mappings_iff,
  unless-inr, bad-eq-none, validate_eol_config-HasOutcome, validate_eol_config-accepts,
}
use version_guard.Config.{
  EolConfig, ResourceConfig, ResourcesConfig, ResourceError, LoadError, validate_eol_config,
  validate_mappings, validate_fields, validate_resource, validate_resources, validate_config,
  load_resources_config, bad, finish, checked, with_resources, parsed, read, load_resources_yaml,
}

-- What the loader promises of a resource.
abbrev pub IsReady : ResourceConfig → Type 0
IsReady r =
    FieldsAreReady r
    × SchemaIsReady r.eol.schema r.eol.lifecycle
    × MappingsAreReady r.inventory
    × TransformsAreReady r.transforms

finish-IsReady :
    (r s : ResourceConfig) (z : ResourceError ⊎ EolConfig)
    → FieldsAreReady r
    → validate_eol_config r.eol ≡ z
    → finish r z ≡ inr s
    → IsReady s
finish-IsReady r s (inl e) f v h = absurd (inl-ne-inr h)
finish-IsReady r s (inr eol) (i, t, c, n, p, q) v h =
    let mappings = validate_mappings r.inventory in
    let transforms = bad (validate_transforms r.transforms) in
    let o = validate_eol_config-HasOutcome r.eol eol v in
    let u = unless-inr (mappings or_else transforms) _ h in
    let m = (or_else-eq-none mappings transforms).0 u.0 in
    subst IsReady (inr-injective _ _ u.1) (
      (i, t, c, n, rw (o.0) p, rw (o.1) q),
      o.2,
      (validate_mappings_iff r.inventory).0 m.0,
      (validate_transforms_iff r.transforms).0 (bad-eq-none _ m.1),
    )

validate_resource-IsReady : (r s : ResourceConfig) → validate_resource r ≡ inr s → IsReady s
unfolding validate_resource
validate_resource-IsReady r s h =
    let u = unless-inr (validate_fields r) _ h in
    finish-IsReady r s (validate_eol_config r.eol) ((validate_fields_iff r).0 u.0) refl u.1

validate_resource-accepts : (r : ResourceConfig) → IsReady r → validate_resource r ≡ inr r
unfolding validate_resource
validate_resource-accepts r h =
    rw
      (
        (validate_fields_iff r).1 h.0,
        validate_eol_config-accepts r.eol h.1,
        (validate_mappings_iff r.inventory).1 h.2,
        (validate_transforms_iff r.transforms).1 h.3,
      )
      refl

checked_inr :
    (i : ℕ) (z : ResourceError ⊎ ResourceConfig) (later : LoadError ⊎ List ResourceConfig)
    (rs : List ResourceConfig)
    → checked i z later ≡ inr rs
    → (r : ResourceConfig) × (qs : List ResourceConfig) × (z ≡ inr r)
      × (later ≡ inr qs)
      × (rs ≡ r ∷ qs)
checked_inr i (inl e) later rs h = absurd (inl-ne-inr h)
checked_inr i (inr r) (inl e) rs h = absurd (inl-ne-inr h)
checked_inr i (inr r) (inr qs) rs h = (r, qs, refl, refl, sym (inr-injective _ _ h))

validate_resources-IsReady :
    (i : ℕ) (rs qs : List ResourceConfig) → validate_resources i rs ≡ inr qs → All IsReady qs
unfolding validate_resources
validate_resources-IsReady i [] qs h = subst (All IsReady) (inr-injective _ _ h) tt
validate_resources-IsReady i (r ∷ rs) qs h =
    let c = checked_inr i (validate_resource r) (validate_resources (suc i) rs) qs h in
    rw (c.4) (validate_resource-IsReady r c.0 c.2, validate_resources-IsReady (suc i) rs c.1 c.3)

validate_resources-accepts :
    (i : ℕ) (rs : List ResourceConfig) → All IsReady rs → validate_resources i rs ≡ inr rs
unfolding validate_resources
validate_resources-accepts i [] h = refl
validate_resources-accepts i (r ∷ rs) h =
    rw (validate_resource-accepts r h.0, validate_resources-accepts (suc i) rs h.1) refl

abbrev pub ConfigIsReady : ResourcesConfig → Type 0
ConfigIsReady c = IsGiven c.version × All IsReady c.resources

with_resources-inr :
    (version : String) (z : LoadError ⊎ List ResourceConfig) (d : ResourcesConfig)
    → with_resources version z ≡ inr d
    → (z ≡ inr d.resources) × (version ≡ d.version)
with_resources-inr version (inl e) d h = absurd (inl-ne-inr h)
with_resources-inr version (inr rs) d h =
    let p = inr-injective _ _ h in (ap (λ c. inr c.resources) p, ap (λ c. c.version) p)

-- A configuration that passes the validation is ready as the validation leaves it.
pub validate_config-IsReady : (c d : ResourcesConfig) → validate_config c ≡ inr d → ConfigIsReady d
unfolding validate_config
validate_config-IsReady c d h =
    let u = if_else_inr (c.version == "") _ h in
    let w = with_resources-inr c.version (validate_resources 0 c.resources) d u.1 in
    (
      subst IsGiven w.1 ((IsGiven-iff c.version).0 u.0),
      validate_resources-IsReady 0 c.resources d.resources w.0,
    )

-- The validation leaves a ready configuration as it is.
pub validate_config-accepts : (c : ResourcesConfig) → ConfigIsReady c → validate_config c ≡ inr c
unfolding validate_config
validate_config-accepts c h =
    rw ((IsGiven-iff c.version).1 h.0, validate_resources-accepts 0 c.resources h.1) refl

parsed-ConfigIsReady :
    (o : Option ResourcesConfig) (c : ResourcesConfig) → parsed o ≡ inr c → ConfigIsReady c
parsed-ConfigIsReady none c h = absurd (inl-ne-inr h)
parsed-ConfigIsReady (some d) c h = validate_config-IsReady d c h

read-ConfigIsReady :
    (unmarshal : String → Option ResourcesConfig) (o : Option String) (c : ResourcesConfig)
    → read unmarshal o ≡ inr c
    → ConfigIsReady c
read-ConfigIsReady unmarshal none c h = absurd (inl-ne-inr h)
read-ConfigIsReady unmarshal (some text) c h = parsed-ConfigIsReady (unmarshal text) c h

-- Whatever the files and the YAML decoder give, a configuration that the loader returns has a
-- version; each of its resources has its required fields, a schema that fits its lifecycle block,
-- mappings with a resource ID, without an empty required column and without a key in both maps, and
-- at most one operation per transform, each complete. To validate it again changes nothing.
pub load_resources_config-IsReady :
    (read_file : String → Option String) (embedded : String)
    (unmarshal : String → Option ResourcesConfig) (path : String) (c : ResourcesConfig)
    → load_resources_config read_file embedded unmarshal path ≡ inr c
    → ConfigIsReady c × (validate_config c ≡ inr c)
unfolding load_resources_config
load_resources_config-IsReady read_file embedded unmarshal path c h =
    let ready = read-ConfigIsReady unmarshal (load_resources_yaml read_file embedded path) c h in
    (ready, validate_config-accepts c ready)
