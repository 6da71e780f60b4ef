-- ===== src/Policy/Messages.antt =====
-- pkg/policy/default.go: the message beside a verdict, `GetMessage`. The formats of
-- `time.Time.Format` ("Jan 2006" and "Jan 2, 2006"), `%d` and `strings.EqualFold` are parameters.
use Prim.Native.String.{◌++◌}
use version_guard.Base.{
  ℕ, ◌≡◌, ◌≢◌, String, Bool, true, false, ◌&&◌, ◌||◌, Option, none, some, List, [], ◌∷◌, eqb, leb,
  ltb, if◌then◌else◌, ◌==◌, arith,
}
use version_guard.Types.{Time, past, Status, Resource, VersionLifecycle}
use version_guard.Policy.{
  DefaultPolicy, Clock, days_until, first_future_lifecycle_date, in_warning_window,
  is_yellow_status,
}

pub record Format : Type 0 where
  pub month_year : Time → String
  pub full_date : Time → String
  pub decimal : ℕ → String
  pub equal_fold : String → String → Bool

-- What a YELLOW message says, before its text: the cases of `getYellowMessage`.
pub data YellowNotice : Type 0 where
  deprecated_until : Time → YellowNotice
  deprecated_support extended_support upgrade_soon : YellowNotice
  leaves_standard reaches_eol : ℕ → Time → YellowNotice

-- `warningDate.Equal(*lifecycle.DeprecationDate)`
abbrev pub is_date : Time → Option Time → Bool
is_date date none = false
is_date date (some d) = eqb date d

abbrev pub or_else : Option Time → Option Time → Option Time
or_else none b = b
or_else (some a) b = some a

abbrev pub deprecated_notice : Option Time → YellowNotice
deprecated_notice none = deprecated_support
deprecated_notice (some end) = deprecated_until end

deprecated_notice-IsSpecific : (end : Option Time) → deprecated_notice end ≢ upgrade_soon
deprecated_notice-IsSpecific none e = cc
deprecated_notice-IsSpecific (some end) e = cc

-- The texts.
abbrev pub words : List String → String
words [] = ""
words (s ∷ ss) = s ++ words ss

abbrev pub of_version : Resource → String
of_version r = words ("Version " ∷ r.current_version ∷ " of " ∷ r.engine ∷ [])

module _ (p : DefaultPolicy) (now : Clock) where
  unfoldable pub warning_notice : Option Time → VersionLifecycle → YellowNotice
  warning_notice none l = upgrade_soon
  warning_notice (some date) l =
      let days = days_until now.until date in
      if ltb 0 days && leb days p.eol_warning_days
      then if is_date date l.deprecation_date
        then leaves_standard days date
        else reaches_eol days date
      else upgrade_soon

  unfoldable pub yellow_notice : VersionLifecycle → YellowNotice
  yellow_notice l =
      if l.is_deprecated_support
      then deprecated_notice (or_else l.deprecated_support_end l.eol_date)
      else if l.is_extended_support
      then extended_support
      else warning_notice (first_future_lifecycle_date now.future l) l

  warning_notice-in_window :
      (date : Option Time) (l : VersionLifecycle)
      → in_warning_window p now date ≡ true
      → warning_notice date l ≢ upgrade_soon
  unfolding warning_notice
  warning_notice-in_window none l h e = absurd cc
  warning_notice-in_window (some date) l h e = ground arith

  -- At the same readings of the clock as the verdict, the message of a YELLOW verdict is never the
  -- general one, "should be upgraded soon".
  pub yellow_notice-IsSpecific :
      (l : VersionLifecycle) → is_yellow_status p now l ≡ true → yellow_notice l ≢ upgrade_soon
  unfolding is_yellow_status yellow_notice
  yellow_notice-IsSpecific l h e = ground (
    arith,
    deprecated_notice-IsSpecific (or_else l.deprecated_support_end l.eol_date),
    warning_notice-in_window (first_future_lifecycle_date now.future l) l,
  )

module _ (f : Format) (p : DefaultPolicy) (now : Clock) where
  abbrev pub in_month : Option Time → String
  in_month none = ""
  in_month (some date) = f.month_year date

  abbrev pub exists : Option Time → Bool
  exists none = false
  exists (some date) = true

  unfoldable pub get_red_message : Resource → VersionLifecycle → String
  get_red_message r l =
      if l.is_eol && exists l.eol_date
      then words
          (of_version r ∷ " is past End-of-Life (EOL since " ∷ in_month l.eol_date ∷ ")" ∷ [])
      else if l.is_deprecated && exists l.deprecation_date
      then words (of_version r ∷ " is deprecated (since " ∷ in_month l.deprecation_date ∷ ")" ∷ [])
      else if past now.support l.extended_support_end
      then words (
          "Extended support for "
          ∷ r.engine
          ∷ " version "
          ∷ r.current_version
          ∷ " has ended (ended "
          ∷ in_month l.extended_support_end
          ∷ ")"
          ∷ [])
      else of_version r ++ " requires immediate attention"

  unfoldable pub is_lambda : Resource → Bool
  is_lambda r = r.engine == "aws-lambda" || f.equal_fold r.type "lambda"

  unfoldable pub version_subject : Resource → String
  version_subject r = if is_lambda r then "Runtime" else "Version"

  abbrev pub deprecated_text : Resource → String
  deprecated_text r = words (
      version_subject r
      ∷ " "
      ∷ r.current_version
      ∷ " for "
      ∷ r.engine
      ∷ " is in deprecated support"
      ∷ [])

  abbrev pub in_days : Resource → String → ℕ → Time → String
  in_days r what days date =
      words (of_version r ∷ what ∷ f.decimal days ∷ " days (on " ∷ f.full_date date ∷ ")" ∷ [])

  unfoldable pub notice_text : Resource → YellowNotice → String
  notice_text r (deprecated_until end) =
      words (deprecated_text r ∷ " until " ∷ f.full_date end ∷ [])
  notice_text r deprecated_support = deprecated_text r
  notice_text r extended_support = of_version r ++ " is in extended support"
  notice_text r (leaves_standard days date) = in_days r " will leave standard support in " days date
  notice_text r (reaches_eol days date) = in_days r " will reach End-of-Life in " days date
  notice_text r upgrade_soon = of_version r ++ " should be upgraded soon"

  unfoldable pub get_yellow_message : Resource → VersionLifecycle → String
  get_yellow_message r l = notice_text r (yellow_notice p now l)

  unfoldable pub get_unknown_message : Resource → VersionLifecycle → String
  get_unknown_message r l =
      if l.version == ""
      then words
          ("No lifecycle data available for " ∷ r.engine ∷ " version " ∷ r.current_version ∷ [])
      else words (
          "Unable to determine support status for " ∷ r.engine ∷ " version " ∷ r.current_version
          ∷ [])

  unfoldable pub get_message : Resource → VersionLifecycle → Status → String
  get_message r l Status.red = get_red_message r l
  get_message r l Status.yellow = get_yellow_message r l
  get_message r l Status.green = of_version r ++ " is currently supported"
  get_message r l Status.unknown = get_unknown_message r l
  get_message r l (Status.other s) =
      words ("Unknown status for " ∷ r.engine ∷ " version " ∷ r.current_version ∷ [])
