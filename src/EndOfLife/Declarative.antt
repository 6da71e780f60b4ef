-- ===== src/EndOfLife/Declarative.antt =====
-- pkg/eol/endoflife/adapters.go: `DeclarativeSchemaAdapter`, the lifecycle that a YAML block declares.
-- Fields and actions are the texts of the YAML. Of an error only its kind is kept.
pub mod Flags
pub mod Laws
use version_guard.Base.{
  String, Bool, true, false, not, ◌&&◌, ◌||◌, Option, none, some, ltb, if◌then◌else◌, ◌==◌,
}
use version_guard.Types.{Time, past, upcoming, VersionLifecycle}
use version_guard.EndOfLife.{Value, nil, bool, text, other, ProductCycle}
use version_guard.EndOfLife.Dates.{date_of}
use version_guard.EndOfLife.Standard.{cycle_metadata, is_true}

pub record LifecycleDateSource : Type 0 where
  pub field : String
  pub bool_true_fallback : String

pub record DeclarativeLifecycleConfig : Type 0 where
  pub deprecation_date : LifecycleDateSource
  pub deprecated_support_end : LifecycleDateSource
  pub extended_support_end : LifecycleDateSource
  pub eol_date : LifecycleDateSource
  pub deprecated_window : String
  pub past_extended_support : String

pub data ConfigError : Type 0 where
  missing_config unsupported_field fallback_without_field unsupported_fallback : ConfigError
  unsupported_action no_date_source : ConfigError

unfoldable pub is_supported_lifecycle_field : String → Bool
is_supported_lifecycle_field field =
    field == "eol" || field == "support" || field == "extendedSupport"

-- `none` is success.
unfoldable pub validate_lifecycle_date_source : LifecycleDateSource → Option ConfigError
validate_lifecycle_date_source source =
    if not (source.field == "") && not (is_supported_lifecycle_field source.field)
    then some unsupported_field
    else if source.bool_true_fallback == ""
    then none
    else if source.field == ""
    then some fallback_without_field
    else if not (is_supported_lifecycle_field source.bool_true_fallback)
    then some unsupported_fallback
    else none

abbrev is_action : String → Bool
is_action action =
    action == "extended_support"
    || action == "deprecated_support"
    || action == "unsupported"
    || action == "eol"
    || action == "supported"

-- Both callers allow the empty action.
unfoldable pub validate_lifecycle_action : String → Option ConfigError
validate_lifecycle_action action =
    if action == "" || is_action action then none else some unsupported_action

-- The first error of a row of checks.
infixr 30 ◌<|>◌
abbrev pub ◌<|>◌ : Option ConfigError → Option ConfigError → Option ConfigError
none <|> later = later
some e <|> later = some e

-- The four sources stand in a Go map, whose order is open: any of their errors may be the one that
-- is returned.
unfoldable pub validate_declarative_lifecycle_config :
    Option DeclarativeLifecycleConfig → Option ConfigError
validate_declarative_lifecycle_config none = some missing_config
validate_declarative_lifecycle_config (some c) =
    validate_lifecycle_date_source c.deprecation_date
    <|> validate_lifecycle_date_source c.deprecated_support_end
    <|> validate_lifecycle_date_source c.extended_support_end
    <|> validate_lifecycle_date_source c.eol_date
    <|> validate_lifecycle_action c.deprecated_window
    <|> validate_lifecycle_action c.past_extended_support
    <|> (if c.deprecation_date.field == ""
          && c.deprecated_support_end.field == ""
          && c.extended_support_end.field == ""
          && c.eol_date.field == ""
        then some no_date_source
        else none)

unfoldable pub cycle_field_value : ProductCycle → String → Option Value
cycle_field_value cycle field =
    if field == "eol"
    then some cycle.eol
    else if field == "support"
    then some cycle.support
    else if field == "extendedSupport"
    then some cycle.extended_support
    else none

abbrev date_of_value : Option Value → Option Time
date_of_value none = none
date_of_value (some v) = date_of v

abbrev is_true_value : Option Value → Bool
is_true_value none = false
is_true_value (some v) = is_true v

unfoldable pub parse_date_source : ProductCycle → LifecycleDateSource → Option Time
unfolding cycle_field_value date_of
parse_date_source cycle source =
    let value = cycle_field_value cycle source.field in
    elim (date_of_value value) [
      | some date ↦ some date
      | none ↦
          if is_true_value value && not (source.bool_true_fallback == "")
          then date_of_value (cycle_field_value cycle source.bool_true_fallback)
          else none
    ]

abbrev pub default_lifecycle_action : String → String → String
default_lifecycle_action action fallback = if action == "" then fallback else action

unfoldable pub apply_lifecycle_action : String → VersionLifecycle → VersionLifecycle
apply_lifecycle_action action l =
    if action == "extended_support"
    then record l { is_supported = true; is_deprecated = true; is_extended_support = true }
    else if action == "deprecated_support"
    then record l {
      is_supported = true;
      is_deprecated = true;
      is_deprecated_support = true;
      is_extended_support = false;
    }
    else if action == "unsupported"
    then record l { is_supported = false; is_deprecated = true; is_extended_support = false }
    else if action == "eol"
    then record l {
      is_eol = true;
      is_supported = false;
      is_deprecated = true;
      is_extended_support = false;
    }
    else if action == "supported"
    then record l { is_supported = true; is_deprecated = false; is_extended_support = false }
    else l

-- The action that `classify` applies.
unfoldable pub chosen_action : DeclarativeLifecycleConfig → Time → VersionLifecycle → String
chosen_action config now l =
    if past now l.eol_date
    then "eol"
    else if past now l.deprecated_support_end
    then "unsupported"
    else if past now l.extended_support_end
    then default_lifecycle_action config.past_extended_support "unsupported"
    else if past now l.deprecation_date && upcoming now l.deprecated_support_end
    then default_lifecycle_action config.deprecated_window "unsupported"
    else if past now l.deprecation_date && upcoming now l.extended_support_end
    then default_lifecycle_action config.deprecated_window "unsupported"
    else if past now l.deprecation_date
    then "unsupported"
    else "supported"

unfoldable pub classify : DeclarativeLifecycleConfig → Time → VersionLifecycle → VersionLifecycle
classify config now l = apply_lifecycle_action (chosen_action config now l) l

unfoldable pub adapt_cycle :
    DeclarativeLifecycleConfig → Time → Time → ProductCycle → VersionLifecycle
adapt_cycle config fetched now cycle = classify config now (record (cycle_metadata fetched cycle) {
  deprecation_date = parse_date_source cycle config.deprecation_date;
  deprecated_support_end = parse_date_source cycle config.deprecated_support_end;
  extended_support_end = parse_date_source cycle config.extended_support_end;
  eol_date = parse_date_source cycle config.eol_date;
})
