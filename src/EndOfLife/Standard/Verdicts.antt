-- ===== src/EndOfLife/Standard/Verdicts.antt =====
-- pkg/eol/endoflife/adapters.go with pkg/policy/default.go: from a cycle of the API, through the
-- standard schema, to the verdict of the standard policy. The adapter runs when the provider's cache
-- is filled, and the policy when a resource is classified, which may be a day later.
use version_guard.Base.{
  ◌+◌, ◌*◌, ◌≤◌, ◌<◌, ◌≡◌, ◌≢◌, ◌↔◌, ◌⊎◌, inl, inr, true, false, none, some, arith, sym, ◌∙◌, subst,
}
use mathlib.Core.Bool.{false≢true}
use version_guard.Types.{Time, past, Status, Resource, VersionLifecycle}
use version_guard.Policy.{Clock, IsMonotone, new_default_policy, day, first_future_lifecycle_date}
use version_guard.Policy
use version_guard.Policy.Matching.{Covers}
use version_guard.Policy.Window.{ahead}
use version_guard.Policy.Verdicts.{Applies, HasEnded, IsWarned, IsNear, classify-Verdict}
use version_guard.EndOfLife.{ProductCycle}
use version_guard.EndOfLife.Standard.{
  DerivedBoundaries, parse_cycle_dates, derive_boundaries, classify, cycle_metadata, adapt_cycle,
}
use version_guard.EndOfLife.Standard.Flags.{
  boundaries, Ended, classify-HasEnded, cycle_metadata-IsFresh, adapt_cycle-IsCoherent,
}

-- The cycle is named, and covers the version that the resource runs.
abbrev pub IsCycleOf : Resource → ProductCycle → Type 0
IsCycleOf r cycle = (cycle.cycle ≢ "") × Covers cycle.cycle r.current_version

classify-version :
    (now : Time) (b : DerivedBoundaries) (l : VersionLifecycle)
    → (classify now b l).version ≡ l.version
unfolding classify
classify-version now b l = ground arith

adapt_cycle-version :
    (fetched now : Time) (cycle : ProductCycle)
    → (adapt_cycle fetched now cycle).version ≡ cycle.cycle
unfolding adapt_cycle cycle_metadata
adapt_cycle-version fetched now cycle = classify-version now _ _

module _ (fetched now : Time) (clock : Clock) (r : Resource) (cycle : ProductCycle) where
  abbrev pub status_of : Status
  status_of = Policy.classify new_default_policy clock r (adapt_cycle fetched now cycle)

  adapt_cycle-HasEnded :
      HasEnded clock (adapt_cycle fetched now cycle)
      ↔ (Ended now (boundaries cycle) ⊎ (past clock.support (boundaries cycle).extended_end ≡ true))
  unfolding adapt_cycle
  adapt_cycle-HasEnded = classify-HasEnded clock now _ _ (cycle_metadata-IsFresh fetched cycle)

  applies : IsCycleOf r cycle → Applies r (adapt_cycle fetched now cycle)
  applies c =
      subst (λ v. (v ≢ "") × Covers v r.current_version)
        (sym (adapt_cycle-version fetched now cycle)) c

  -- A resource whose version a cycle of the standard schema covers is RED exactly when, as the
  -- adapter ran, the end of life had passed or standard support had with no window after it, or
  -- when, as the policy runs, the end of extended support has passed.
  pub red_iff :
      IsCycleOf r cycle
      → (status_of ≡ Status.red) ↔ (
          Ended now (boundaries cycle)
          ⊎ (past clock.support (boundaries cycle).extended_end ≡ true))
  red_iff c =
      let (to, from) = (classify-Verdict clock r (adapt_cycle fetched now cycle)).0 in
      (λ e. adapt_cycle-HasEnded.0 (to e).1, λ e. from (applies c, adapt_cycle-HasEnded.1 e))

  unsupported-HasEnded :
      (adapt_cycle fetched now cycle).is_supported ≡ false
      → HasEnded clock (adapt_cycle fetched now cycle)
  unsupported-HasEnded u = inr (inl ((adapt_cycle-IsCoherent fetched now cycle).dropped u))

  -- A resource whose version a cycle of the standard schema covers is never UNKNOWN.
  pub not_unknown : IsCycleOf r cycle → status_of ≢ Status.unknown
  not_unknown c e = elim ((classify-Verdict clock r (adapt_cycle fetched now cycle)).3.0 e) [
    | inl no_cycle ↦ no_cycle (applies c)
    | inr (_, not_ended, _, unsupported) ↦ not_ended (unsupported-HasEnded unsupported)
  ]

-- A cycle whose one boundary is its end of life.
abbrev pub IsPlain : ProductCycle → Time → Type 0
IsPlain cycle e =
    parse_cycle_dates cycle
    ≡ record { eol = some e; support = none; extended_support = none; extended_true = false }

-- What the adapter makes of it before that end.
record IsPlainSupported (l : VersionLifecycle) (e : Time) : Type 0 where
  ends : l.eol_date ≡ some e
  no_deprecation : l.deprecation_date ≡ none
  no_deprecated_support : l.deprecated_support_end ≡ none
  no_extended_support : l.extended_support_end ≡ none
  flags :
      (l.is_eol ≡ false)
      × (l.is_deprecated ≡ false)
      × (l.is_extended_support ≡ false)
      × (l.is_deprecated_support ≡ false)
      × (l.is_supported ≡ true)

plain-IsPlainSupported :
    (fetched now e : Time) (cycle : ProductCycle)
    → IsPlain cycle e
    → now ≤ e
    → IsPlainSupported (adapt_cycle fetched now cycle) e
unfolding adapt_cycle derive_boundaries classify cycle_metadata
plain-IsPlainSupported fetched now e cycle plain h = rw plain (ground arith)

plain-first_future :
    (l : VersionLifecycle) (now e : Time)
    → IsPlainSupported l e
    → first_future_lifecycle_date now l ≡ ahead now (some e)
unfolding first_future_lifecycle_date
plain-first_future l now e p = ground arith

-- The end of life warns: it is a whole day off at least, and no more than ninety whole days.
abbrev pub IsWarning : Clock → Time → Type 0
IsWarning clock e = (clock.until + day ≤ e) × (e < clock.until + 91 * day)

ahead-IsNear :
    (clock : Clock) (e : Time)
    → IsMonotone clock
    → IsNear clock (ahead clock.future (some e)) ↔ IsWarning clock e
ahead-IsNear clock e m = ground arith

plain-IsWarned :
    (clock : Clock) (l : VersionLifecycle) (e : Time)
    → IsMonotone clock
    → IsPlainSupported l e
    → IsWarned clock l ↔ IsWarning clock e
plain-IsWarned clock l e m p =
    let near = ahead-IsNear clock e m in
    let (_, _, not_extended, not_deprecated, _) = p.flags in
    rw (plain-first_future l clock.future e p) (
      λ w. elim w [
        | inl h ↦ absurd (false≢true (sym not_deprecated ∙ h))
        | inr (inl h) ↦ absurd (false≢true (sym not_extended ∙ h))
        | inr (inr h) ↦ near.0 h
      ],
      λ h. inr (inr (near.1 h)),
    )

plain-not_ended :
    (clock : Clock) (l : VersionLifecycle) (e : Time) → IsPlainSupported l e → ¬ HasEnded clock l
plain-not_ended clock l e p = ground arith

-- A version with an end of life and no other boundary, adapted before that end, is GREEN at every
-- later classification but from ninety-one days to one day before the end: GREEN on the last day, and
-- GREEN after the end too, for as long as the adapted cycle stays in the cache.
pub plain_green_iff :
    (fetched now e : Time) (clock : Clock) (r : Resource) (cycle : ProductCycle)
    → IsCycleOf r cycle
    → IsPlain cycle e
    → now ≤ e
    → IsMonotone clock
    → (status_of fetched now clock r cycle ≡ Status.green) ↔ (¬ IsWarning clock e)
plain_green_iff fetched now e clock r cycle c plain h m =
    let l = adapt_cycle fetched now cycle in
    let p = plain-IsPlainSupported fetched now e cycle plain h in
    let warned = plain-IsWarned clock l e m p in
    let (to, from) = (classify-Verdict clock r l).2 in
    (
      λ g w. (to g).2 (warned.1 w),
      λ n. from (
        applies fetched now clock r cycle c,
        plain-not_ended clock l e p,
        (λ w. n (warned.0 w)),
        p.flags.4,
      ),
    )
