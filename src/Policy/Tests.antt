-- ===== src/Policy/Tests.antt =====
-- Tests of the policy, on the sample database.
use version_guard.Base.{◌≡◌, ◌↔◌, ◌<◌, ◌≤◌, ◌+◌, ◌*◌, refl, true, some, [], ◌∷◌, arith}
use version_guard.Types.{Status}
use version_guard.Types.Details.{standard_end, lifecycle_details}
use version_guard.Types.Earliest.{IsEarliest, actionable_date-IsEarliest}
use version_guard.Policy.{
  new_default_policy, classify, day, days_until, in_warning_window, is_yellow_status,
  version_matches,
}
use version_guard.Policy.Matching.{Covers, version_matches_iff}
use version_guard.Policy.Window.{in_warning_window_iff}
use version_guard.Policy.Verdicts.{Verdict, classify-Verdict}
use version_guard.Samples.{end_of_line, month_before, at, mysql, line}

a_month_before : classify new_default_policy (at month_before) mysql line ≡ Status.yellow
unfolding classify days_until
a_month_before = refl

-- A day before the end, and later on, the warning is over.
on_the_last_day : classify new_default_policy (at end_of_line) mysql line ≡ Status.green
unfolding classify days_until
on_the_last_day = refl

classify-Verdict_example :
    ((classify new_default_policy (at month_before) mysql line ≡ Status.red)
      ↔ Verdict (at month_before) mysql line Status.red)
    × ((classify new_default_policy (at month_before) mysql line ≡ Status.yellow)
        ↔ Verdict (at month_before) mysql line Status.yellow)
    × ((classify new_default_policy (at month_before) mysql line ≡ Status.green)
        ↔ Verdict (at month_before) mysql line Status.green)
    × ((classify new_default_policy (at month_before) mysql line ≡ Status.unknown)
        ↔ Verdict (at month_before) mysql line Status.unknown)
classify-Verdict_example = classify-Verdict (at month_before) mysql line

version_matches_iff_example : (version_matches "8.1" "8.1.3" ≡ true) ↔ Covers "8.1" "8.1.3"
version_matches_iff_example = version_matches_iff "8.1" "8.1.3"

ninety_days : new_default_policy.eol_warning_days < 106_751
ninety_days = omega arith

in_warning_window_iff_example :
    (in_warning_window new_default_policy (at month_before) (some end_of_line) ≡ true)
    ↔ ((month_before + day ≤ end_of_line) × (end_of_line < month_before + (90 + 1) * day))
in_warning_window_iff_example =
    in_warning_window_iff new_default_policy (at month_before) end_of_line ninety_days

actionable_date-IsEarliest_example :
    IsEarliest
      (standard_end line
        ∷ line.deprecated_support_end
        ∷ line.extended_support_end
        ∷ line.eol_date
        ∷ [])
      (lifecycle_details (some line)).actionable_date
actionable_date-IsEarliest_example = actionable_date-IsEarliest line

is_warned : is_yellow_status new_default_policy (at month_before) line ≡ true
unfolding is_yellow_status days_until
is_warned = refl
