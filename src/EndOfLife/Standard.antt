-- ===== src/EndOfLife/Standard.antt =====
-- pkg/eol/endoflife/adapters.go: `StandardSchemaAdapter`.
-- `AdaptCycle` reads the clock twice, for `FetchedAt` and in `classify`; it returns no error.
pub mod Boundaries
pub mod Flags
pub mod Verdicts
use version_guard.Base.{
  String, Bool, true, false, ◌&&◌, ◌||◌, not, Option, none, some, ltb, if◌then◌else◌, ◌==◌,
}
use version_guard.Types.{Time, past, upcoming, VersionLifecycle, zero_lifecycle}
use version_guard.EndOfLife.{Value, nil, bool, text, other, ProductCycle, provider_name}
use version_guard.EndOfLife.Dates.{parse_date, parse_present, date_of}

pub record LifecycleDates : Type 0 where
  pub eol : Option Time
  pub support : Option Time
  pub extended_support : Option Time
  pub extended_true : Bool

-- The type switch on `cycle.ExtendedSupport`.
unfoldable pub extended_date : Value → Option Time
unfolding parse_date
extended_date (text v) = if v == "" || v == "false" then none else parse_date v
extended_date _ = none

abbrev pub is_true : Value → Bool
is_true (bool b) = b
is_true _ = false

unfoldable pub parse_cycle_dates : ProductCycle → LifecycleDates
unfolding date_of extended_date
parse_cycle_dates cycle = record {
  eol = date_of cycle.eol;
  support = date_of cycle.support;
  extended_support = extended_date cycle.extended_support;
  extended_true = is_true cycle.extended_support;
}

pub record DerivedBoundaries : Type 0 where
  pub standard_end : Option Time
  pub deprecated_support_end : Option Time
  pub extended_end : Option Time
  pub true_eol : Option Time

abbrev no_boundaries : DerivedBoundaries
no_boundaries = record {
  standard_end = none;
  deprecated_support_end = none;
  extended_end = none;
  true_eol = none;
}

-- The case of an explicit end of extended support.
abbrev with_extended : Time → Option Time → Option Time → DerivedBoundaries
with_extended ext none eol = record no_boundaries {
  extended_end = some ext;
  true_eol = some ext;
  standard_end = eol;
}
with_extended ext (some support) eol = record no_boundaries {
  extended_end = some ext;
  true_eol = some ext;
  standard_end = some support;
  deprecated_support_end = elim eol [
    | none ↦ none
    | some date ↦ if ltb support date && ltb date ext then some date else none
  ];
}

-- The cases without an explicit end of extended support.
abbrev without_extended : Bool → Option Time → Option Time → DerivedBoundaries
without_extended extended_true support none = record no_boundaries { standard_end = support }
without_extended true support (some eol) = record no_boundaries {
  extended_end = some eol;
  true_eol = some eol;
  standard_end = support;
}
without_extended false none (some eol) = record no_boundaries { true_eol = some eol }
without_extended false (some support) (some eol) =
    let kept = record no_boundaries { standard_end = some support; true_eol = some eol } in
    if ltb support eol then record kept { deprecated_support_end = some eol } else kept

unfoldable pub derive_boundaries : LifecycleDates → DerivedBoundaries
derive_boundaries dates = elim dates.extended_support [
  | some ext ↦ with_extended ext dates.support dates.eol
  | none ↦ without_extended dates.extended_true dates.support dates.eol
]

unfoldable pub classify : Time → DerivedBoundaries → VersionLifecycle → VersionLifecycle
classify now b l =
    if past now b.true_eol
    then record l { is_eol = true; is_supported = false; is_deprecated = true }
    else if past now b.standard_end && upcoming now b.extended_end
    then record l { is_supported = true; is_extended_support = true; is_deprecated = true }
    else if past now b.standard_end && upcoming now b.deprecated_support_end
    then record l { is_supported = true; is_deprecated = true; is_deprecated_support = true }
    else if past now b.standard_end
    then record l { is_deprecated = true; is_supported = false }
    else record l { is_supported = true }

-- The part of `AdaptCycle` that both adapters share: the fields that the cycle names, and
-- `applyCycleMetadataDates`.
unfoldable pub cycle_metadata : Time → ProductCycle → VersionLifecycle
unfolding parse_present date_of
cycle_metadata fetched cycle = record zero_lifecycle {
  version = cycle.cycle;
  source = provider_name;
  fetched_at = fetched;
  release_date = parse_present cycle.release_date;
  latest_release_date = parse_present cycle.latest_release_date;
  lts_date = date_of cycle.lts;
}

unfoldable pub adapt_cycle : Time → Time → ProductCycle → VersionLifecycle
adapt_cycle fetched now cycle =
    let b = derive_boundaries (parse_cycle_dates cycle) in
    classify now b (record (cycle_metadata fetched cycle) {
      deprecation_date = b.standard_end;
      deprecated_support_end = b.deprecated_support_end;
      extended_support_end = b.extended_end;
      eol_date = b.true_eol;
    })
