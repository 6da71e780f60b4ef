-- ===== src/Policy/Window.antt =====
-- pkg/policy/default.go: the first boundary ahead, and the window in which it warns.
use version_guard.Base.{
  ◌+◌, ◌*◌, ◌≤◌, ◌<◌, ◌≡◌, refl, inl, inr, ◌↔◌, true, Option, none, some, List, [], ◌∷◌, map, arith,
  ltb, if◌then◌else◌, Bool-cases,
}
use version_guard.Types.{Time, VersionLifecycle}
use version_guard.Types.Details.{earlier, first_from}
use version_guard.Types.Earliest.{IsEarliest, first_from-IsEarliest, drop_none}
use version_guard.Policy.{
  DefaultPolicy, Clock, day, days_until, future_from, first_future_lifecycle_date,
  in_warning_window,
}

-- A boundary that has come is no boundary any more.
abbrev pub ahead : Time → Option Time → Option Time
ahead now none = none
ahead now (some date) = if ltb now date then some date else none

future_from-first_from :
    (now : Time) (first : Option Time) (dates : List (Option Time))
    → future_from now first dates ≡ first_from first (map (ahead now) dates)
unfolding future_from first_from
future_from-first_from now first [] = refl
future_from-first_from now first (none ∷ dates) = future_from-first_from now first dates
future_from-first_from now first (some d ∷ dates) = elim (Bool-cases (ltb now d)) [
  | inl after ↦ rw after (future_from-first_from now (earlier first d) dates)
  | inr before ↦ rw before (future_from-first_from now first dates)
]

-- The policy looks at the earliest of the four boundaries that lie after the clock's reading.
pub first_future-IsEarliest :
    (now : Time) (l : VersionLifecycle)
    → IsEarliest
        (map (ahead now) (
          l.deprecation_date ∷ l.deprecated_support_end ∷ l.extended_support_end ∷ l.eol_date ∷ []))
        (first_future_lifecycle_date now l)
unfolding first_future_lifecycle_date
first_future-IsEarliest now l = rw future_from-first_from (drop_none (first_from-IsEarliest none _))

-- With a limit of `n` days below the 106,751 days at which a duration saturates, a boundary warns
-- exactly from a whole day before it to `n + 1` whole days before it.
pub in_warning_window_iff :
    (p : DefaultPolicy) (now : Clock) (date : Time)
    → p.eol_warning_days < 106_751
    → (in_warning_window p now (some date) ≡ true)
      ↔ ((now.until + day ≤ date) × (date < now.until + (p.eol_warning_days + 1) * day))
unfolding days_until
in_warning_window_iff p now date h = ground arith
