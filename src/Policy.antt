-- ===== src/Policy.antt =====
-- pkg/policy: the classification of a resource by the lifecycle of its version (policy.go,
-- default.go).
-- Each reading of the clock is an argument of its own, so that nothing is assumed about the time
-- that passes inside a call. `Hours() / 24` is computed exactly, without the rounding of `float64`.
-- `Format` and `%d` are parameters, in Policy/Messages.antt.
pub mod Matching
pub mod Messages
pub mod Verdicts
pub mod Tests
pub mod Window
use text.Mathlib.Text.{starts_with}
use Prim.Native.Nat.{min}
use Prim.Native.String.{◌++◌}
use version_guard.Base.{
  ℕ, ◌-◌, ◌/◌, ◌≤◌, String, Bool, true, false, not, ◌&&◌, ◌||◌, Option, none, some, List, [], ◌∷◌,
  ltb, leb, if◌then◌else◌, ◌==◌, trim_space, trim_prefix,
}
use version_guard.Types.{Time, past, Status, Resource, VersionLifecycle, LifecycleUnknownCause}
use version_guard.Types.Details.{earlier}

-- The interface `VersionPolicy`.
pub record VersionPolicy : Type 0 where
  pub classify : Resource → VersionLifecycle → Status
  pub get_message : Resource → VersionLifecycle → Status → String
  pub name : String

pub record DefaultPolicy : Type 0 where
  pub eol_warning_days : ℕ
  pub warn_extended_support : Bool

abbrev pub new_default_policy : DefaultPolicy
new_default_policy = record { eol_warning_days = 90; warn_extended_support = true }

-- The readings of the clock in a call of `Classify` or `GetMessage`, in their order: for the end of
-- extended support, in `firstFutureLifecycleDate`, and for the days that are left.
pub record Clock : Type 0 where
  pub support : Time
  pub future : Time
  pub until : Time

-- Time does not run backwards between the readings.
pub record IsMonotone (c : Clock) : Type 0 where
  pub support_le : c.support ≤ c.future
  pub future_le : c.future ≤ c.until

-- The greatest `time.Duration`, where `Sub` saturates, and a day, in nanoseconds.
abbrev pub max_duration : ℕ
max_duration = 9_223_372_036_854_775_807

abbrev pub day : ℕ
day = 86_400_000_000_000

-- `int(time.Until(date).Hours() / 24)`; it is not positive for a date that has passed.
unfoldable pub days_until : Time → Time → ℕ
days_until now date = min (date - now) max_duration / day

-- The loop of `firstFutureLifecycleDate`.
unfoldable pub future_from : Time → Option Time → List (Option Time) → Option Time
future_from now first [] = first
future_from now first (none ∷ dates) = future_from now first dates
future_from now first (some date ∷ dates) =
    future_from now (if ltb now date then earlier first date else first) dates

unfoldable pub first_future_lifecycle_date : Time → VersionLifecycle → Option Time
unfolding future_from
first_future_lifecycle_date now l =
    future_from now none
      (l.deprecation_date ∷ l.deprecated_support_end ∷ l.extended_support_end ∷ l.eol_date ∷ [])

unfoldable pub strip_prefixes : String → String
unfolding trim_prefix
strip_prefixes version = trim_prefix (trim_prefix version "k8s-") "kubernetes-"

unfoldable pub version_matches : String → String → Bool
unfolding strip_prefixes
version_matches lifecycle_version resource_version =
    let normalized = strip_prefixes resource_version in
    lifecycle_version == resource_version
    || lifecycle_version == normalized
    || starts_with normalized (lifecycle_version ++ ".")

module _ (p : DefaultPolicy) (now : Clock) where
  unfoldable pub is_red_status : VersionLifecycle → Bool
  is_red_status l =
      l.is_eol
      || l.is_deprecated && not l.is_extended_support && not l.is_deprecated_support
      || past now.support l.extended_support_end

  -- The warning window before the first boundary that lies ahead.
  abbrev pub in_warning_window : Option Time → Bool
  in_warning_window none = false
  in_warning_window (some date) =
      let days = days_until now.until date in ltb 0 days && leb days p.eol_warning_days

  unfoldable pub is_yellow_status : VersionLifecycle → Bool
  unfolding first_future_lifecycle_date
  is_yellow_status l =
      l.is_deprecated_support
      || p.warn_extended_support && l.is_extended_support
      || in_warning_window (first_future_lifecycle_date now.future l)

  unfoldable pub classify : Resource → VersionLifecycle → Status
  unfolding version_matches is_red_status is_yellow_status
  classify r l =
      if l.version == "" || not (version_matches l.version r.current_version)
      then Status.unknown
      else if is_red_status l
      then Status.red
      else if is_yellow_status l
      then Status.yellow
      else if l.is_supported
      then Status.green
      else Status.unknown

abbrev pub is_set : LifecycleUnknownCause → Bool
is_set LifecycleUnknownCause.unset = false
is_set _ = true

abbrev pub is_unknown : Status → Bool
is_unknown Status.unknown = true
is_unknown _ = false

-- `UnknownCause` at a resource and a lifecycle that are there.
unfoldable pub cause_between : Resource → VersionLifecycle → LifecycleUnknownCause
unfolding trim_space version_matches
cause_between r l =
    if trim_space r.current_version == ""
    then LifecycleUnknownCause.empty_inventory_version
    else if trim_space l.version == ""
    then LifecycleUnknownCause.cycle_not_found
    else if not (version_matches l.version r.current_version)
    then LifecycleUnknownCause.lifecycle_mismatch
    else LifecycleUnknownCause.indeterminate

-- The pointers may be nil.
unfoldable pub unknown_cause :
    Option Resource → Option VersionLifecycle → Status → LifecycleUnknownCause
unfolding cause_between
unknown_cause r none status =
    if is_unknown status then LifecycleUnknownCause.unattributed else LifecycleUnknownCause.unset
unknown_cause none (some l) status =
    if not (is_unknown status)
    then LifecycleUnknownCause.unset
    else if is_set l.unknown_cause
    then l.unknown_cause
    else LifecycleUnknownCause.unattributed
unknown_cause (some r) (some l) status =
    if not (is_unknown status)
    then LifecycleUnknownCause.unset
    else if is_set l.unknown_cause
    then l.unknown_cause
    else cause_between r l
