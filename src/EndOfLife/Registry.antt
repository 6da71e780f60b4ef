-- ===== src/EndOfLife/Registry.antt =====
-- pkg/eol/endoflife/adapters.go: the names of the schemas, and the registry of their adapters.
use version_guard.Base.{String, ◌==◌, Option, none, some, if◌then◌else◌}

abbrev pub schema_standard : String
schema_standard = "standard"

abbrev pub schema_declarative : String
schema_declarative = "declarative"

-- The adapters that are registered.
pub data SchemaAdapter : Type 0 where
  standard_adapter : SchemaAdapter

-- `none` is the error of an unknown name.
unfoldable pub get_schema_adapter : String → Option SchemaAdapter
get_schema_adapter name = if schema_standard == name then some standard_adapter else none
