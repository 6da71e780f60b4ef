-- ===== src/EndOfLife/Standard/Boundaries.antt =====
-- pkg/eol/endoflife/adapters.go: what `deriveBoundaries` guarantees of the boundaries.
use version_guard.Base.{◌<◌, ◌≡◌, ◌≢◌, ◌⊎◌, Option, none, some, arith}
use version_guard.Types.{Time}
use version_guard.EndOfLife.Standard.{LifecycleDates, DerivedBoundaries, derive_boundaries}

abbrev pub Before : Option Time → Option Time → Type 0
Before (some a) (some b) = a < b
Before _ _ = ⊥

abbrev pub IsAbsent : Option Time → Type 0
IsAbsent date = date ≡ none

-- The shape of derived boundaries: the end of extended support is the end of life, and a window of
-- deprecated support opens at the end of standard support and closes no later than the end of life.
pub record IsOrdered (b : DerivedBoundaries) : Type 0 where
  pub extended : IsAbsent b.extended_end ⊎ (b.extended_end ≡ b.true_eol)
  pub opens : IsAbsent b.deprecated_support_end ⊎ Before b.standard_end b.deprecated_support_end
  pub closes :
      IsAbsent b.deprecated_support_end
      ⊎ (b.deprecated_support_end ≡ b.true_eol)
      ⊎ Before b.deprecated_support_end b.true_eol
  pub ends : IsAbsent b.extended_end ⊎ (b.true_eol ≢ none)

-- Whatever dates a cycle has, the boundaries that the standard schema derives are in order: an end
-- of extended support is the end of life; an end of deprecated support comes after the end of
-- standard support, and is the end of life or comes before it.
pub derive_boundaries-IsOrdered : (dates : LifecycleDates) → IsOrdered (derive_boundaries dates)
unfolding derive_boundaries
derive_boundaries-IsOrdered dates = ground arith
