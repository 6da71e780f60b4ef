-- ===== src/Inventory/Transforms.antt =====
-- pkg/inventory/wiz/transforms.go: the version and the engine of a row, by the declared transforms.
-- The table of `unicode.ToLower` and the JSON decoder of an object are parameters.
pub mod Configured
use Prim.Native.Char.{Char}
use text.Mathlib.Text.{starts_with}
use version_guard.Base.{
  String, Bool, true, false, not, ◌==◌, ◌&&◌, Option, none, some, List, [], ◌∷◌, Map, lookup,
  is_empty, if◌then◌else◌, trim_space, trim_prefix, to_lower, contains, split, point,
}
use version_guard.Config.Transforms.{
  ExtractJsonFieldOp, VersionTransform, SubstringLookupRule, FromVersionMajorOp, EngineTransform,
}

-- A decoded JSON value, of which only texts are read.
pub data JsonValue : Type 0 where
  json_text : String → JsonValue
  json_other : JsonValue

-- `props[field].(string)`
abbrev pub as_text : Option JsonValue → String
as_text (some (json_text s)) = trim_space s
as_text (some json_other) = ""
as_text none = ""

abbrev pub field_of : Option (Map JsonValue) → String → String
field_of none field = ""
field_of (some props) field = as_text (lookup field props)

unfoldable pub extract_json_string_field :
    (String → Option (Map JsonValue)) → String → String → String
unfolding trim_space lookup
extract_json_string_field unmarshal raw field =
    if trim_space raw == "" then "" else field_of (unmarshal (trim_space raw)) field

unfoldable pub strip_first_matching_prefix : String → List String → String
unfolding trim_prefix
strip_first_matching_prefix s [] = s
strip_first_matching_prefix s (p ∷ prefixes) =
    if starts_with s p then trim_prefix s p else strip_first_matching_prefix s prefixes

unfoldable pub all_contained : String → List String → Bool
unfolding contains
all_contained input [] = true
all_contained input (sub ∷ subs) = contains input sub && all_contained input subs

unfoldable pub substring_rule_matches : String → List String → Bool
unfolding all_contained
substring_rule_matches input subs = not (is_empty subs) && all_contained input subs

-- `strings.SplitN(version, ".", 2)[0]`, the text before the first point.
abbrev pub first_field : List String → String
first_field [] = ""
first_field (field ∷ fields) = field

abbrev pub engine_or : String → Option String → String
engine_or default none = default
engine_or default (some engine) = engine

unfoldable pub engine_from_version_major : String → FromVersionMajorOp → String
unfolding split lookup
engine_from_version_major version op =
    if version == ""
    then op.default
    else engine_or op.default (lookup (first_field (split point version)) op.majors)

-- `none` drops the row.
unfoldable pub extracted :
    (String → Option (Map JsonValue)) → (String → String) → ExtractJsonFieldOp → Option String
unfolding extract_json_string_field
extracted unmarshal read op =
    let value = extract_json_string_field unmarshal (read op.from_column) op.field in
    if value == "" && op.skip_if_empty then none else some value

-- The part of `applyVersionTransform` after the extraction.
abbrev pub stripped : String → VersionTransform → String
stripped raw t =
    if is_empty t.strip_prefixes then raw else strip_first_matching_prefix raw t.strip_prefixes

unfoldable pub apply_version_transform :
    (String → Option (Map JsonValue))
    → String
    → Option VersionTransform
    → (String → String)
    → Option String
unfolding extracted strip_first_matching_prefix
apply_version_transform unmarshal raw none read = some raw
apply_version_transform unmarshal raw (some t) read = elim t.extract_json_field [
  | some op ↦ extracted unmarshal read op
  | none ↦ some (stripped raw t)
]

-- The loop over the rules: the result of the first that matches.
unfoldable pub substring_lookup : String → List SubstringLookupRule → String
unfolding substring_rule_matches
substring_lookup engine [] = engine
substring_lookup engine (rule ∷ rules) =
    if substring_rule_matches engine rule.contains
    then rule.result
    else substring_lookup engine rules

-- The last two cases of `applyEngineTransform`.
abbrev pub looked_up : String → String → EngineTransform → String
looked_up engine version t = elim t.from_version_major [
  | some op ↦ engine_from_version_major version op
  | none ↦ substring_lookup engine t.substring_lookup
]

unfoldable pub apply_engine_transform :
    (Char → Char) → String → String → Option EngineTransform → String
unfolding to_lower trim_space substring_lookup engine_from_version_major
apply_engine_transform lower raw version none = to_lower lower (trim_space raw)
apply_engine_transform lower raw version (some t) =
    let normalized = to_lower lower (trim_space raw) in
    if not (t.constant == "")
    then t.constant
    else if not (t.default_if_empty == "") && normalized == ""
    then t.default_if_empty
    else looked_up normalized version t
