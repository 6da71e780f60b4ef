-- ===== src/Types/Details.antt =====
-- pkg/types/lifecycle_details.go: the lifecycle block of a finding, and its actionable date.
use version_guard.Base.{false, Option, none, some, List, [], ◌∷◌, ltb, if◌then◌else◌}
use version_guard.Types.{
  Time, zero_time, LifecycleUnknownCause, LifecycleDataSource, VersionLifecycle, LifecycleDetails,
}

-- The variable `first` after a date that the loop does not skip.
abbrev pub earlier : Option Time → Time → Option Time
earlier none date = some date
earlier (some first) date = if ltb date first then some date else some first

-- The loop of `firstLifecycleDate`.
unfoldable pub first_from : Option Time → List (Option Time) → Option Time
first_from first [] = first
first_from first (none ∷ dates) = first_from first dates
first_from first (some date ∷ dates) = first_from (earlier first date) dates

unfoldable pub first_lifecycle_date : List (Option Time) → Option Time
unfolding first_from
first_lifecycle_date dates = first_from none dates

abbrev pub standard_end : VersionLifecycle → Option Time
standard_end l = elim l.deprecation_date [
  | some date ↦ some date
  | none ↦ elim l.extended_support_end [ none ↦ none | some _ ↦ l.eol_date ]
]

-- `LifecycleDetails{}`
abbrev pub zero_details : LifecycleDetails
zero_details = record {
  standard_support_end = none;
  deprecated_support_end = none;
  eol_date = none;
  extended_support_end = none;
  actionable_date = none;
  release_date = none;
  latest_release_date = none;
  lts_date = none;
  fetched_at = zero_time;
  version = "";
  engine = "";
  source = "";
  data_source = LifecycleDataSource.unset;
  unknown_cause = LifecycleUnknownCause.unset;
  is_supported = false;
  is_deprecated = false;
  is_extended_support = false;
  is_eol = false;
}

unfoldable pub lifecycle_details : Option VersionLifecycle → LifecycleDetails
unfolding first_lifecycle_date
lifecycle_details none = zero_details
lifecycle_details (some l) =
    let standard = standard_end l in
    record {
      standard_support_end = standard;
      deprecated_support_end = l.deprecated_support_end;
      eol_date = l.eol_date;
      extended_support_end = l.extended_support_end;
      actionable_date =
          first_lifecycle_date
            (standard ∷ l.deprecated_support_end ∷ l.extended_support_end ∷ l.eol_date ∷ []);
      release_date = l.release_date;
      latest_release_date = l.latest_release_date;
      lts_date = l.lts_date;
      fetched_at = l.fetched_at;
      version = l.version;
      engine = l.engine;
      source = l.source;
      data_source = l.data_source;
      unknown_cause = l.unknown_cause;
      is_supported = l.is_supported;
      is_deprecated = l.is_deprecated;
      is_extended_support = l.is_extended_support;
      is_eol = l.is_eol;
    }
