-- ===== src/Inventory/Source.antt =====
-- pkg/inventory/wiz/generic.go, helpers.go: `GenericInventorySource`, which turns the rows of a report
-- into resources as the resource's configuration declares. The table of `unicode.ToLower`, the JSON
-- decoders, the regular expression of regions and the ARN parser are parameters. The registry client
-- is not called. Logs are not modelled.
pub mod Patterns
pub mod Rows
use Prim.Native.Char.{Char}
use Prim.Native.String
use text.Mathlib.Text.{starts_with}
use version_guard.Base.{
  ℕ, String, Bool, true, false, not, ◌==◌, ◌&&◌, ◌||◌, Option, none, some, List, [], ◌∷◌, ◌++◌, Map,
  lookup, insert, any, is_some, if◌then◌else◌, ◌⊎◌, inl, inr, contains, split, bar, slash,
}
use version_guard.Types.{Time, Resource, ResourceType, CloudProvider}
use version_guard.Config.{InventoryConfig, ResourceConfig}
use version_guard.Config.Transforms.{VersionTransform, TransformsConfig}
use version_guard.Inventory.Columns.{
  ColumnIndex, Row, RowError, build_column_index, column_value, require_column,
}
use version_guard.Inventory.Transforms.{JsonValue, apply_version_transform, apply_engine_transform}
use version_guard.Inventory.Names.{app_tags, first_matching_tag, extract_service_from_name}
use version_guard.Inventory.Tags.{parse_tags}

pub record Arn : Type 0 where
  pub service : String
  pub resource : String
  pub region : String

-- What the source calls of other libraries.
pub record Externals : Type 0 where
  pub lower : Char → Char
  pub unmarshal : String → Option (Map JsonValue)
  pub is_region : String → Bool
  pub parse_arn : String → Option Arn

unfoldable pub source_name : ResourceConfig → String
source_name cfg = String.◌++◌ "wiz-" cfg.id

unfoldable pub source_provider : ResourceConfig → CloudProvider
source_provider cfg =
    if cfg.cloud_provider == "gcp"
    then "GCP"
    else if cfg.cloud_provider == "azure"
    then "AZURE"
    else "AWS"

abbrev pub native_type_column : String
native_type_column = "nativeType"

-- The keys with a field of their own in a resource.
unfoldable pub is_well_known : String → Bool
is_well_known key = key == "resource_id" || key == "version" || key == "engine" || key == "tags"

abbrev pub mapped : Option String → String
mapped none = ""
mapped (some column) = column

unfoldable pub column : InventoryConfig → String → String
unfolding lookup
column i key =
    let required = mapped (lookup key i.required_mappings) in
    if required == "" then mapped (lookup key i.field_mappings) else required

unfoldable pub insert_all : Map String → Map String → Map String
unfolding insert
insert_all [] merged = merged
insert_all ((key, value) ∷ entries) merged = insert_all entries (insert key value merged)

unfoldable pub all_mappings : InventoryConfig → Map String
unfolding insert_all
all_mappings i = insert_all i.field_mappings (insert_all i.required_mappings [])

abbrev pub if_named : String → List String
if_named name = if name == "" then [] else name ∷ []

unfoldable pub extra_columns : Map String → List String
unfolding is_well_known
extra_columns [] = []
extra_columns ((key, name) ∷ entries) =
    let rest = extra_columns entries in if is_well_known key then rest else if_named name ++ rest

abbrev pub extracted_column : Option VersionTransform → List String
extracted_column none = []
extracted_column (some t) = elim t.extract_json_field [
  | none ↦ []
  | some op ↦ if_named op.from_column
]

-- `getRequiredColumns`
unfoldable pub required_columns : ResourceConfig → List String
unfolding column all_mappings extra_columns
required_columns cfg =
    column cfg.inventory "resource_id"
    ∷ native_type_column
    ∷ (if_named (column cfg.inventory "tags")
        ++ (if_named (column cfg.inventory "version")
            ++ (if_named (column cfg.inventory "engine")
                ++ (extra_columns (all_mappings cfg.inventory)
                    ++ extracted_column cfg.transforms.version))))

-- The loop over the parts of a wildcard pattern; the lengths are compared before it.
unfoldable pub segments_match : List String → List String → Bool
segments_match [] [] = true
segments_match (part ∷ parts) (segment ∷ segments) =
    (part == "*" || part == segment) && segments_match parts segments
segments_match _ _ = false

unfoldable pub matches_native_type : String → String → Bool
unfolding contains split segments_match
matches_native_type pattern native_type =
    if contains pattern "|"
    then any (λ alternative. native_type == alternative) (split bar pattern)
    else if contains pattern "*"
    then segments_match (split slash pattern) (split slash native_type)
    else native_type == pattern

-- Whether the ARN is that of an OpenSearch domain in a known region.
abbrev pub is_domain : Externals → Arn → Bool
is_domain x arn =
    arn.service == "es" && starts_with arn.resource "domain/" && x.is_region arn.region

unfoldable pub normalize_open_search_region : Externals → String → String → String
normalize_open_search_region x resource_id region =
    if x.is_region region then region else elim (x.parse_arn resource_id) [
      | none ↦ region
      | some arn ↦ if is_domain x arn then arn.region else region
    ]

abbrev pub extra_value : Externals → ResourceConfig → String → String → String → String
extra_value x cfg resource_id key value =
    if cfg.id == "opensearch" && key == "region"
    then normalize_open_search_region x resource_id value
    else value

-- The loop that fills `extra`. A nil map is the empty one.
unfoldable pub extra_of :
    Externals → ResourceConfig → ColumnIndex → Row → String → Map String → Map String → Map String
unfolding is_well_known column_value normalize_open_search_region insert
extra_of x cfg cols row resource_id [] extra = extra
extra_of x cfg cols row resource_id ((key, name) ∷ entries) extra =
    extra_of x cfg cols row resource_id entries (
      if is_well_known key || name == ""
      then extra
      else insert key (extra_value x cfg resource_id key (column_value cols row name)) extra)

abbrev pub service_of : (Char → Char) → Map String → Map String → String
service_of lower tags extra =
    let tagged = first_matching_tag tags app_tags in
    if tagged == "" then extract_service_from_name lower (mapped (lookup "name" extra)) else tagged

-- The resource of a row, once its ID and its version are known.
unfoldable pub resource_of :
    Externals → ResourceConfig → Time → ColumnIndex → Row → String → String → Resource
unfolding apply_engine_transform parse_tags all_mappings extra_of source_provider column
resource_of x cfg now cols row resource_id version =
    let tags = parse_tags (column_value cols row (column cfg.inventory "tags")) in
    let extra = extra_of x cfg cols row resource_id (all_mappings cfg.inventory) [] in
    record {
      tags = tags;
      extra = extra;
      discovered_at = now;
      id = resource_id;
      service = service_of x.lower tags extra;
      current_version = version;
      engine =
          apply_engine_transform x.lower (column_value cols row (column cfg.inventory "engine"))
            version cfg.transforms.engine;
      type = cfg.id;
      cloud_provider = source_provider cfg;
    }

-- A row without its version is dropped.
abbrev pub with_version : (String → Resource) → Option String → Option Resource
with_version make none = none
with_version make (some version) = some (make version)

abbrev pub with_id : (String → Option Resource) → RowError ⊎ String → RowError ⊎ Option Resource
with_id make (inl e) = inl e
with_id make (inr id) = inr (make id)

unfoldable pub parse_resource_row :
    Externals → ResourceConfig → Time → ColumnIndex → Row → RowError ⊎ Option Resource
unfolding require_column apply_version_transform resource_of column column_value
parse_resource_row x cfg now cols row =
    with_id
      (λ id. with_version (resource_of x cfg now cols row id) (
        apply_version_transform x.unmarshal (column_value cols row (column cfg.inventory "version"))
          cfg.transforms.version (column_value cols row)))
      (require_column cols row (column cfg.inventory "resource_id"))
