-- ===== src/Types/Elapsed.antt =====
-- The difference of two times in whole units, as `time.Duration` and its conversion to `int64` give
-- it: saturated, and truncated towards zero. The seconds are exact, without the rounding of
-- `float64`.
use Prim.Native.Nat.{min}
use version_guard.Base.{ℕ, zero, suc, ◌-◌, ◌/◌, if◌then◌else◌, leb}
use version_guard.Types.{Time}

pub data ℤ : Type 0 where
  pos negsuc : ℕ → ℤ

abbrev pub negate : ℕ → ℤ
negate zero = pos 0
negate (suc n) = negsuc n

-- `end.Sub(start)`, in units of so many nanoseconds.
unfoldable pub elapsed : ℕ → Time → Time → ℤ
elapsed unit start end =
    if leb start end
    then pos (min (end - start) 9_223_372_036_854_775_807 / unit)
    else negate (min (start - end) 9_223_372_036_854_775_808 / unit)
