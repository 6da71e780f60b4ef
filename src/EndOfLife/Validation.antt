-- ===== src/EndOfLife/Validation.antt =====
-- pkg/eol/endoflife/provider.go: `ValidateProductCycle`. Of an error only its kind is kept. The
-- fields stand in Go maps, whose order is open: any of their errors may be the one that is returned.
use version_guard.Base.{String, ◌||◌, Option, none, some, if◌then◌else◌, ◌==◌, trim_space}
use version_guard.Types.{Time}
use version_guard.EndOfLife.{Value, nil, bool, text, other, ProductCycle}
use version_guard.EndOfLife.Dates.{time_parse}

pub data CycleError : Type 0 where
  nil_cycle empty_identifier not_a_date unsupported_value : CycleError

-- `time.Time.Format("2006-01-02")`, of Go's standard library.
module _ (format_date : Time → String) where
  unfoldable pub validate_optional_date : String → Option CycleError
  unfolding time_parse
  validate_optional_date value = if value == "" then none else elim (time_parse value) [
    | none ↦ some not_a_date
    | some parsed ↦ if format_date parsed == value then none else some not_a_date
  ]

  unfoldable pub validate_date_or_boolean : Value → Option CycleError
  unfolding time_parse trim_space
  validate_date_or_boolean nil = none
  validate_date_or_boolean (bool b) = none
  validate_date_or_boolean other = some unsupported_value
  validate_date_or_boolean (text v) =
      let value = trim_space v in
      if value == "" || value == "true" || value == "false"
      then none
      else elim (time_parse value) [ none ↦ some not_a_date | some _ ↦ none ]

  infixr 30 ◌<|>◌
  abbrev ◌<|>◌ : Option CycleError → Option CycleError → Option CycleError
  none <|> later = later
  some e <|> later = some e

  unfoldable pub validate_product_cycle : Option ProductCycle → Option CycleError
  unfolding trim_space
  validate_product_cycle none = some nil_cycle
  validate_product_cycle (some cycle) =
      if trim_space cycle.cycle == ""
      then some empty_identifier
      else validate_optional_date cycle.release_date
        <|> validate_optional_date cycle.latest_release_date
        <|> validate_date_or_boolean cycle.support
        <|> validate_date_or_boolean cycle.eol
        <|> validate_date_or_boolean cycle.extended_support
        <|> validate_date_or_boolean cycle.lts
