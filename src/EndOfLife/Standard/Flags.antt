-- ===== src/EndOfLife/Standard/Flags.antt =====
-- pkg/eol/endoflife/adapters.go with pkg/policy/default.go: the flags that the standard schema sets,
-- and the verdicts that the standard policy draws from them.
use version_guard.Base.{◌≡◌, ◌↔◌, refl, ◌⊎◌, true, false, arith}
use version_guard.Types.{Time, past, upcoming, VersionLifecycle}
use version_guard.Policy.{Clock}
use version_guard.Policy.Verdicts.{HasEnded}
use version_guard.EndOfLife.{ProductCycle}
use version_guard.EndOfLife.Standard.{
  DerivedBoundaries, parse_cycle_dates, derive_boundaries, classify, cycle_metadata, adapt_cycle,
}

-- The flags tell one story: an ended version is neither supported nor in a window; a version that is
-- not supported is deprecated; the two windows exclude one another, and both are deprecated support.
pub record IsCoherent (l : VersionLifecycle) : Type 0 where
  pub ended : l.is_eol ≡ true → (l.is_supported ≡ false) × (l.is_deprecated ≡ true)
  pub dropped :
      l.is_supported ≡ false
      → (l.is_deprecated ≡ true)
        × (l.is_extended_support ≡ false)
        × (l.is_deprecated_support ≡ false)
  pub extended :
      l.is_extended_support ≡ true → (l.is_deprecated ≡ true) × (l.is_deprecated_support ≡ false)
  pub deprecated : l.is_deprecated_support ≡ true → l.is_deprecated ≡ true

-- No flag is set yet.
abbrev pub IsFresh : VersionLifecycle → Type 0
IsFresh l =
    (l.is_eol ≡ false)
    × (l.is_deprecated ≡ false)
    × (l.is_extended_support ≡ false)
    × (l.is_deprecated_support ≡ false)
    × (l.is_supported ≡ false)

pub cycle_metadata-IsFresh :
    (fetched : Time) (cycle : ProductCycle) → IsFresh (cycle_metadata fetched cycle)
unfolding cycle_metadata
cycle_metadata-IsFresh fetched cycle = (refl, refl, refl, refl, refl)

classify-IsCoherent :
    (now : Time) (b : DerivedBoundaries) (l : VersionLifecycle)
    → IsFresh l
    → IsCoherent (classify now b l)
unfolding classify
classify-IsCoherent now b l fresh = ground arith

-- Whatever the cycle and the time, the flags of the standard schema are coherent: a version past
-- its end of life is not supported, and deprecated; one that is not supported is deprecated and in
-- no window; the windows of extended and of deprecated support exclude one another, and a version
-- in one is deprecated.
pub adapt_cycle-IsCoherent :
    (fetched now : Time) (cycle : ProductCycle) → IsCoherent (adapt_cycle fetched now cycle)
unfolding adapt_cycle
adapt_cycle-IsCoherent fetched now cycle =
    classify-IsCoherent now _ _ (cycle_metadata-IsFresh fetched cycle)

-- The boundaries that the cycle's dates give.
abbrev pub boundaries : ProductCycle → DerivedBoundaries
boundaries cycle = derive_boundaries (parse_cycle_dates cycle)

-- Support has ended at a time: the end of life has passed, or standard support has and no window
-- follows it.
abbrev pub Ended : Time → DerivedBoundaries → Type 0
Ended now b =
    (past now b.true_eol ≡ true)
    ⊎ ((past now b.standard_end ≡ true)
        × (upcoming now b.extended_end ≡ false)
        × (upcoming now b.deprecated_support_end ≡ false))

pub classify-HasEnded :
    (clock : Clock) (now : Time) (b : DerivedBoundaries) (l : VersionLifecycle)
    → IsFresh l
    → HasEnded clock (classify now b l)
      ↔ (Ended now b ⊎ (past clock.support l.extended_support_end ≡ true))
unfolding classify
classify-HasEnded clock now b l fresh = ground arith
