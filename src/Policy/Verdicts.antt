-- ===== src/Policy/Verdicts.antt =====
-- pkg/policy/default.go: what the four verdicts of `Classify` say.
use version_guard.Base.{
  ◌+◌, ◌*◌, ◌≤◌, ◌<◌, ◌≡◌, ◌≢◌, refl, inl, inr, ◌⊎◌, ◌↔◌, true, false, Bool, not, ◌||◌, Option,
  none, some, arith, if◌then◌else◌, Bool-cases, sym, ◌∙◌, or₃-eq-true, false_of_not, not_of_false,
  eq_iff, ◌==◌,
}
use mathlib.Core.Bool.{false≢true}
use version_guard.Types.{Time, past, Status, Resource, VersionLifecycle}
use version_guard.Policy.{
  DefaultPolicy, Clock, day, first_future_lifecycle_date, in_warning_window, version_matches,
  is_red_status, is_yellow_status, classify, new_default_policy,
}
use version_guard.Policy.Matching.{Covers, version_matches_iff}
use version_guard.Policy.Window.{in_warning_window_iff}

-- The lifecycle is of a cycle that covers the resource's version.
abbrev pub Applies : Resource → VersionLifecycle → Type 0
Applies r l = (l.version ≢ "") × Covers l.version r.current_version

-- All support has ended, or what is left of it is no window that the policy only warns of.
abbrev pub HasEnded : Clock → VersionLifecycle → Type 0
HasEnded now l =
    (l.is_eol ≡ true)
    ⊎ ((l.is_deprecated ≡ true)
        × (l.is_extended_support ≡ false)
        × (l.is_deprecated_support ≡ false))
    ⊎ (past now.support l.extended_support_end ≡ true)

-- The first boundary ahead lies from one day to ninety days off, in whole days.
abbrev pub IsNear : Clock → Option Time → Type 0
IsNear now none = ⊥
IsNear now (some date) = (now.until + day ≤ date) × (date < now.until + 91 * day)

-- The lifecycle is in deprecated or extended support, or near its first boundary.
abbrev pub IsWarned : Clock → VersionLifecycle → Type 0
IsWarned now l =
    (l.is_deprecated_support ≡ true)
    ⊎ ((l.is_extended_support ≡ true) ⊎ IsNear now (first_future_lifecycle_date now.future l))

-- The test by which `Classify` gives up first.
abbrev inapplicable : Resource → VersionLifecycle → Bool
inapplicable r l = l.version == "" || not (version_matches l.version r.current_version)

inapplicable-Applies :
    (r : Resource) (l : VersionLifecycle) → (inapplicable r l ≡ false) ↔ Applies r l
inapplicable-Applies r l = (
  λ h. (
    λ e. ground (arith, (eq_iff l.version "").1 e),
    (version_matches_iff l.version r.current_version).0 (ground arith),
  ),
  λ a.
      ground
        (arith, eq_iff l.version "", a.0, (version_matches_iff l.version r.current_version).1 a.1),
)

is_red_status-HasEnded :
    (p : DefaultPolicy) (now : Clock) (l : VersionLifecycle)
    → (is_red_status p now l ≡ true) ↔ HasEnded now l
unfolding is_red_status
is_red_status-HasEnded p now l = ground arith

IsNear-window :
    (now : Clock) (date : Option Time)
    → (in_warning_window new_default_policy now date ≡ true) ↔ IsNear now date
IsNear-window now none = ((λ h. absurd (false≢true h)), λ h. absurd h)
IsNear-window now (some date) = in_warning_window_iff new_default_policy now date (omega arith)

is_yellow_status-IsWarned :
    (now : Clock) (l : VersionLifecycle)
    → (is_yellow_status new_default_policy now l ≡ true) ↔ IsWarned now l
unfolding is_yellow_status
is_yellow_status-IsWarned now l = (
  λ h. elim (or₃-eq-true l.is_deprecated_support l.is_extended_support _ h) [
    | inl deprecated ↦ inl deprecated
    | inr (inl extended) ↦ inr (inl extended)
    | inr (inr near) ↦
        inr (inr ((IsNear-window now (first_future_lifecycle_date now.future l)).0 near))
  ],
  λ w. elim w [
    | inl deprecated ↦ ground arith
    | inr (inl extended) ↦ ground arith
    | inr (inr near) ↦
        ground (arith, (IsNear-window now (first_future_lifecycle_date now.future l)).1 near)
  ],
)

-- The verdict, by the four tests.
abbrev verdict : Bool → Bool → Bool → Bool → Status
verdict skip red yellow supported =
    if skip
    then Status.unknown
    else if red
    then Status.red
    else if yellow
    then Status.yellow
    else if supported
    then Status.green
    else Status.unknown

-- The statements that the tests decide make the verdict.
module _ {A H W : Type 0} (skip red yellow supported : Bool) (applies : (skip ≡ false) ↔ A)
    (ended : (red ≡ true) ↔ H) (warned : (yellow ≡ true) ↔ W) where
  verdict-red : (verdict skip red yellow supported ≡ Status.red) ↔ (A × H)
  verdict-red = (
    λ h. (applies.0 (ground arith), ended.0 (ground arith)),
    λ (a, e). ground (arith, applies.1 a, ended.1 e),
  )

  verdict-yellow : (verdict skip red yellow supported ≡ Status.yellow) ↔ (A × (¬ H) × W)
  verdict-yellow = (
    λ h. (applies.0 (ground arith), not_of_false red ended (ground arith), warned.0 (ground arith)),
    λ (a, e, w). ground (arith, applies.1 a, false_of_not red ended e, warned.1 w),
  )

  verdict-green :
      (verdict skip red yellow supported ≡ Status.green) ↔ (A × (¬ H) × (¬ W) × (supported ≡ true))
  verdict-green = (
    λ h. (
      applies.0 (ground arith),
      not_of_false red ended (ground arith),
      not_of_false yellow warned (ground arith),
      ground arith,
    ),
    λ (a, e, w, s).
        ground (arith, applies.1 a, false_of_not red ended e, false_of_not yellow warned w),
  )

  verdict-unknown :
      (verdict skip red yellow supported ≡ Status.unknown)
      ↔ ((¬ A) ⊎ (A × (¬ H) × (¬ W) × (supported ≡ false)))
  verdict-unknown = (
    λ h. elim (Bool-cases skip) [
      | inl skipped ↦ inl (λ a. false≢true (sym (applies.1 a) ∙ skipped))
      | inr kept ↦ inr (
        applies.0 kept,
        not_of_false red ended (ground arith),
        not_of_false yellow warned (ground arith),
        ground arith,
      )
    ],
    λ u. elim u [
      | inl not_a ↦ elim (Bool-cases skip) [
        | inl skipped ↦ rw skipped
        | inr kept ↦ absurd (not_a (applies.0 kept))
      ]
      | inr (a, e, w, s) ↦
          ground (arith, applies.1 a, false_of_not red ended e, false_of_not yellow warned w)
    ],
  )

abbrev pub Verdict : Clock → Resource → VersionLifecycle → Status → Type 0
Verdict now r l Status.red = Applies r l × HasEnded now l
Verdict now r l Status.yellow = Applies r l × (¬ HasEnded now l) × IsWarned now l
Verdict now r l Status.green =
    Applies r l × (¬ HasEnded now l) × (¬ IsWarned now l) × (l.is_supported ≡ true)
Verdict now r l Status.unknown =
    (¬ Applies r l)
    ⊎ (Applies r l × (¬ HasEnded now l) × (¬ IsWarned now l) × (l.is_supported ≡ false))
Verdict now r l (Status.other s) = ⊥

classify-verdict :
    (now : Clock) (r : Resource) (l : VersionLifecycle)
    → classify new_default_policy now r l
      ≡ verdict
          (inapplicable r l)
          (is_red_status new_default_policy now l)
          (is_yellow_status new_default_policy now l)
          l.is_supported
unfolding classify
classify-verdict now r l = refl

-- Under the standard policy a resource is RED exactly when the lifecycle is of a cycle that covers
-- its version and support has ended; YELLOW exactly when support has not ended but the version is
-- in deprecated or extended support or its first boundary ahead is 1 to 90 whole days off; GREEN
-- exactly when neither holds and the version is supported; and UNKNOWN exactly when the lifecycle
-- is of no cycle that covers the version, or neither holds and the version is not supported.
pub classify-Verdict :
    (now : Clock) (r : Resource) (l : VersionLifecycle)
    → ((classify new_default_policy now r l ≡ Status.red) ↔ Verdict now r l Status.red)
      × ((classify new_default_policy now r l ≡ Status.yellow) ↔ Verdict now r l Status.yellow)
      × ((classify new_default_policy now r l ≡ Status.green) ↔ Verdict now r l Status.green)
      × ((classify new_default_policy now r l ≡ Status.unknown) ↔ Verdict now r l Status.unknown)
classify-Verdict now r l = rw classify-verdict (
  verdict-red _ _ _ _ applies ended warned,
  verdict-yellow _ _ _ _ applies ended warned,
  verdict-green _ _ _ _ applies ended warned,
  verdict-unknown _ _ _ _ applies ended warned,
)
  where
    applies : (inapplicable r l ≡ false) ↔ Applies r l
    applies = inapplicable-Applies r l

    ended : (is_red_status new_default_policy now l ≡ true) ↔ HasEnded now l
    ended = is_red_status-HasEnded new_default_policy now l

    warned : (is_yellow_status new_default_policy now l ≡ true) ↔ IsWarned now l
    warned = is_yellow_status-IsWarned now l
