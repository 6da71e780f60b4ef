-- ===== src/Config/Tests.antt =====
-- Tests of the configuration: the functions of AWS Lambda, whose version stands in a JSON column.
use version_guard.Base.{◌≡◌, refl, String, Option, none, some, [], ◌∷◌, inr, lookup, true}
use version_guard.EndOfLife.Registry.{get_schema_adapter}
use version_guard.Config.Transforms.{
  validate_transforms, validate_version, validate_extract, validate_engine, validate_rules,
  validate_majors,
}
use version_guard.Config.{
  ResourceConfig, ResourcesConfig, load_resources_config, load_resources_yaml, validate_config,
  validate_resources, validate_resource, validate_fields, validate_eol_config, checked_lifecycle,
  validate_mappings,
}
use version_guard.Config.Loaded.{ConfigIsReady, load_resources_config-IsReady}

abbrev pub lambda : ResourceConfig
lambda = record {
  id = "lambda";
  type = "lambda";
  cloud_provider = "aws";
  inventory = record {
    required_mappings = ("resource_id", "externalId") ∷ [];
    field_mappings = ("name", "name") ∷ ("tags", "tags") ∷ [];
    source = "wiz";
    native_type_pattern = "lambda";
  };
  eol = record {
    provider = "endoflife-date";
    product = "aws-lambda";
    schema = "";
    lifecycle = none;
  };
  transforms = record {
    version = some (record {
      strip_prefixes = [];
      extract_json_field = some (record {
        from_column = "graphEntity.properties";
        field = "runtime";
        skip_if_empty = true;
      });
    });
    engine = some (record {
      constant = "aws-lambda";
      default_if_empty = "";
      substring_lookup = [];
      from_version_major = none;
    });
  };
}

abbrev catalog : ResourcesConfig
catalog = record { version = "v1"; resources = lambda ∷ [] }

abbrev read_file : String → Option String
read_file path = none

abbrev unmarshal : String → Option ResourcesConfig
unmarshal yaml = some catalog

catalog_loads : load_resources_config read_file "yaml" unmarshal "" ≡ inr catalog
unfolding load_resources_config load_resources_yaml validate_config validate_resources
    validate_resource validate_fields validate_eol_config checked_lifecycle validate_mappings
    validate_transforms validate_version validate_extract validate_engine validate_rules
    validate_majors get_schema_adapter lookup
catalog_loads = refl

load_resources_config-IsReady_example :
    ConfigIsReady catalog × (validate_config catalog ≡ inr catalog)
load_resources_config-IsReady_example =
    load_resources_config-IsReady read_file "yaml" unmarshal "" catalog catalog_loads
