-- ===== src/Config.antt =====
-- pkg/config/loader.go, types.go: the configuration of the resources, as it is read and validated.
-- The YAML decoder, the file system and the embedded default file are parameters. Of an error its
-- kind is kept, and the index of the resource.
pub mod Transforms
pub mod Tests
pub mod Ready
pub mod Checks
pub mod Loaded
use version_guard.Base.{
  ℕ, suc, String, Bool, true, false, not, ◌==◌, ◌||◌, Option, none, some, List, [], ◌∷◌, Map, any,
  lookup, is_some, if◌then◌else◌, ◌⊎◌, inl, inr,
}
use version_guard.EndOfLife.Declarative.{
  DeclarativeLifecycleConfig, ConfigError, validate_declarative_lifecycle_config,
}
use version_guard.EndOfLife.Registry.{schema_standard, schema_declarative, get_schema_adapter}
use version_guard.Config.Transforms.{
  TransformsConfig, TransformError, validate_transforms, ◌or_else◌, unless,
}

pub record InventoryConfig : Type 0 where
  pub required_mappings : Map String
  pub field_mappings : Map String
  pub source : String
  pub native_type_pattern : String

pub record EolConfig : Type 0 where
  pub provider : String
  pub product : String
  pub schema : String
  pub lifecycle : Option DeclarativeLifecycleConfig

pub record ResourceConfig : Type 0 where
  pub id : String
  pub type : String
  pub cloud_provider : String
  pub inventory : InventoryConfig
  pub eol : EolConfig
  pub transforms : TransformsConfig

pub record ResourcesConfig : Type 0 where
  pub version : String
  pub resources : List ResourceConfig

pub data ResourceError : Type 0 where
  no_id no_type no_cloud_provider no_source no_provider no_product : ResourceError
  no_lifecycle lifecycle_without_declarative unknown_schema : ResourceError
  bad_lifecycle : ConfigError → ResourceError
  no_resource_id empty_mapping mapped_twice : ResourceError
  bad_transforms : TransformError → ResourceError

pub data LoadError : Type 0 where
  no_version unreadable unparsable : LoadError
  in_resource : ℕ → ResourceError → LoadError

abbrev pub default_schema : String → String
default_schema schema = if schema == "" then schema_standard else schema

abbrev pub bad_block : Option ConfigError → Option ResourceError
bad_block none = none
bad_block (some e) = some (bad_lifecycle e)

-- The block is changed: a lifecycle without a schema makes the schema declarative.
abbrev pub with_schema : EolConfig → EolConfig
with_schema e = record e { schema = if e.schema == "" then schema_declarative else e.schema }

-- The rest of `validateEOLConfig` for a block with a lifecycle, and without one.
unfoldable pub checked_lifecycle :
    Option DeclarativeLifecycleConfig → EolConfig → ResourceError ⊎ EolConfig
checked_lifecycle (some lifecycle) e =
    if not ((with_schema e).schema == schema_declarative)
    then inl lifecycle_without_declarative
    else unless (bad_block (validate_declarative_lifecycle_config (some lifecycle)))
        (inr (with_schema e))
checked_lifecycle none e =
    if is_some (get_schema_adapter (default_schema e.schema)) then inr e else inl unknown_schema

-- `validateEOLConfig`, with the block as it leaves it.
unfoldable pub validate_eol_config : EolConfig → ResourceError ⊎ EolConfig
unfolding checked_lifecycle validate_declarative_lifecycle_config get_schema_adapter
validate_eol_config e =
    if e.schema == schema_declarative
    then (if is_some e.lifecycle then checked_lifecycle e.lifecycle e else inl no_lifecycle)
    else checked_lifecycle e.lifecycle e

-- `id, ok := m["resource_id"]; !ok || id == ""`
abbrev pub lacks_id : Option String → Bool
lacks_id none = true
lacks_id (some id) = id == ""

unfoldable pub validate_mappings : InventoryConfig → Option ResourceError
unfolding lookup
validate_mappings i =
    if lacks_id (lookup "resource_id" i.required_mappings)
    then some no_resource_id
    else if any (λ entry. entry.1 == "") i.required_mappings
    then some empty_mapping
    else if any (λ entry. is_some (lookup entry.0 i.field_mappings)) i.required_mappings
    then some mapped_twice
    else none

-- The checks of a resource that read one field each.
unfoldable pub validate_fields : ResourceConfig → Option ResourceError
validate_fields r =
    if r.id == ""
    then some no_id
    else if r.type == ""
    then some no_type
    else if r.cloud_provider == ""
    then some no_cloud_provider
    else if r.inventory.source == ""
    then some no_source
    else if r.eol.provider == ""
    then some no_provider
    else if r.eol.product == ""
    then some no_product
    else none

abbrev pub bad : Option TransformError → Option ResourceError
bad none = none
bad (some e) = some (bad_transforms e)

-- What the checks after `validateEOLConfig` make of its result.
abbrev pub finish : ResourceConfig → ResourceError ⊎ EolConfig → ResourceError ⊎ ResourceConfig
finish r (inl e) = inl e
finish r (inr eol) =
    unless (validate_mappings r.inventory or_else bad (validate_transforms r.transforms))
      (inr (record r { eol = eol }))

-- The body of the loop of `validateConfig`, with the resource as it leaves it.
unfoldable pub validate_resource : ResourceConfig → ResourceError ⊎ ResourceConfig
unfolding validate_fields validate_eol_config validate_mappings validate_transforms
validate_resource r = unless (validate_fields r) (finish r (validate_eol_config r.eol))

-- The resource with the index `i`, and the loop from the next one on.
abbrev pub checked :
    ℕ
    → ResourceError ⊎ ResourceConfig
    → LoadError ⊎ List ResourceConfig
    → LoadError ⊎ List ResourceConfig
checked i (inl e) later = inl (in_resource i e)
checked i (inr r) (inl e) = inl e
checked i (inr r) (inr rs) = inr (r ∷ rs)

unfoldable pub validate_resources : ℕ → List ResourceConfig → LoadError ⊎ List ResourceConfig
unfolding validate_resource
validate_resources i [] = inr []
validate_resources i (r ∷ rs) = checked i (validate_resource r) (validate_resources (suc i) rs)

abbrev pub with_resources : String → LoadError ⊎ List ResourceConfig → LoadError ⊎ ResourcesConfig
with_resources version (inl e) = inl e
with_resources version (inr rs) = inr (record { version = version; resources = rs })

unfoldable pub validate_config : ResourcesConfig → LoadError ⊎ ResourcesConfig
unfolding validate_resources
validate_config c =
    if c.version == ""
    then inl no_version
    else with_resources c.version (validate_resources 0 c.resources)

abbrev pub parsed : Option ResourcesConfig → LoadError ⊎ ResourcesConfig
parsed none = inl unparsable
parsed (some c) = validate_config c

-- `os.ReadFile` and the embedded `resources.yaml`.
unfoldable pub load_resources_yaml : (String → Option String) → String → String → Option String
load_resources_yaml read_file embedded path = if path == "" then some embedded else read_file path

-- The file once it is read, with `yaml.Unmarshal`.
abbrev pub read : (String → Option ResourcesConfig) → Option String → LoadError ⊎ ResourcesConfig
read unmarshal none = inl unreadable
read unmarshal (some data_) = parsed (unmarshal data_)

unfoldable pub load_resources_config :
    (String → Option String)
    → String
    → (String → Option ResourcesConfig)
    → String
    → LoadError ⊎ ResourcesConfig
unfolding load_resources_yaml validate_config
load_resources_config read_file embedded unmarshal path =
    read unmarshal (load_resources_yaml read_file embedded path)
