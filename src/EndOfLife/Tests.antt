-- ===== src/EndOfLife/Tests.antt =====
-- Tests of the lifecycle source, on the sample database and its release line.
use version_guard.Base.{◌≡◌, ◌↔◌, ◌⊎◌, refl, true, false, none, some, arith, String}
use version_guard.Types.{zero_time, past, Status}
use version_guard.Policy
use version_guard.Policy.{new_default_policy, strip_prefixes}
use version_guard.Policy.Matching.{whole}
use version_guard.EndOfLife.Dates.{time_parse, day_number, parse_date}
use version_guard.EndOfLife.Standard.{
  LifecycleDates, parse_cycle_dates, derive_boundaries, adapt_cycle, extended_date,
}
use version_guard.EndOfLife.Standard.Boundaries.{IsOrdered, derive_boundaries-IsOrdered}
use version_guard.EndOfLife.Standard.Flags.{IsCoherent, adapt_cycle-IsCoherent, boundaries, Ended}
use version_guard.EndOfLife.Standard.Verdicts.{
  IsCycleOf, IsPlain, IsWarning, status_of, red_iff, plain_green_iff,
}
use version_guard.EndOfLife.Declarative
use version_guard.EndOfLife.Declarative.{
  DeclarativeLifecycleConfig, LifecycleDateSource, validate_lifecycle_date_source,
  is_supported_lifecycle_field, validate_lifecycle_action, validate_declarative_lifecycle_config,
  parse_date_source, chosen_action,
}
use version_guard.EndOfLife.Declarative.Flags.{declarative-IsCoherent}
use version_guard.EndOfLife.Declarative.Laws.{IsFinal, dated, declarative-red_iff}
use version_guard.Samples.{end_of_line, month_before, at, at-IsMonotone, mysql, mysql_cycle, named}

year_one : time_parse "0001-01-01" ≡ some zero_time
unfolding time_parse day_number
year_one = refl

unix_epoch : day_number 1970 1 1 ≡ 719_528
unfolding day_number
unix_epoch = refl

leap_day : (parse_date " 2024-02-29 " ≡ time_parse "2024-02-29") × (time_parse "2023-02-29" ≡ none)
unfolding parse_date time_parse
leap_day = (refl, refl)

abbrev ended_dates : LifecycleDates
ended_dates = record {
  eol = some 300;
  support = some 100;
  extended_support = none;
  extended_true = false;
}

derive_boundaries-IsOrdered_example : IsOrdered (derive_boundaries ended_dates)
derive_boundaries-IsOrdered_example = derive_boundaries-IsOrdered ended_dates

adapt_cycle-IsCoherent_example : IsCoherent (adapt_cycle month_before month_before mysql_cycle)
adapt_cycle-IsCoherent_example = adapt_cycle-IsCoherent month_before month_before mysql_cycle

is_cycle : IsCycleOf mysql mysql_cycle
is_cycle = (named, whole refl)

red_iff_example :
    (status_of month_before month_before (at month_before) mysql mysql_cycle ≡ Status.red) ↔ (
      Ended month_before (boundaries mysql_cycle)
      ⊎ (past month_before (boundaries mysql_cycle).extended_end ≡ true))
red_iff_example = red_iff month_before month_before (at month_before) mysql mysql_cycle is_cycle

is_plain : IsPlain mysql_cycle end_of_line
unfolding parse_cycle_dates day_number extended_date
is_plain = refl

plain_green_iff_example :
    (status_of month_before month_before (at end_of_line) mysql mysql_cycle ≡ Status.green)
    ↔ (¬ IsWarning (at end_of_line) end_of_line)
plain_green_iff_example =
    plain_green_iff month_before month_before end_of_line (at end_of_line) mysql mysql_cycle
      is_cycle is_plain (omega arith) (at-IsMonotone end_of_line)

abbrev by_field : String → LifecycleDateSource
by_field field = record { field = field; bool_true_fallback = "" }

-- A block with an end of life and an end of extended support, after which it is "supported".
abbrev block : DeclarativeLifecycleConfig
block = record {
  deprecation_date = by_field "support";
  deprecated_support_end = by_field "";
  extended_support_end = by_field "extendedSupport";
  eol_date = by_field "eol";
  deprecated_window = "extended_support";
  past_extended_support = "supported";
}

block_is_valid : validate_declarative_lifecycle_config (some block) ≡ none
unfolding validate_declarative_lifecycle_config validate_lifecycle_date_source
    is_supported_lifecycle_field validate_lifecycle_action
block_is_valid = refl

declarative-IsCoherent_example :
    IsCoherent (Declarative.adapt_cycle block month_before month_before mysql_cycle)
declarative-IsCoherent_example =
    declarative-IsCoherent block month_before month_before mysql_cycle block_is_valid

declarative-red_iff_example :
    (Policy.classify new_default_policy
        (at month_before)
        mysql
        (Declarative.adapt_cycle block month_before month_before mysql_cycle)
      ≡ Status.red)
    ↔ (IsFinal (chosen_action block month_before (dated block month_before mysql_cycle))
        ⊎ (past month_before (parse_date_source mysql_cycle block.extended_support_end) ≡ true))
declarative-red_iff_example =
    declarative-red_iff block month_before month_before (at month_before) mysql mysql_cycle
      block_is_valid is_cycle
