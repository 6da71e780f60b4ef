-- ===== src/Types/Earliest.antt =====
-- pkg/types/lifecycle_details.go: `firstLifecycleDate` finds the earliest date.
use mathlib.Core.List.{Memᴰ}
use version_guard.Base.{
  ◌≤◌, ◌≡◌, refl, inl, inr, Option, none, some, List, [], ◌∷◌, All, arith, ltb, Bool-cases,
}
use version_guard.Types.{Time, VersionLifecycle}
use version_guard.Types.Details.{first_from, standard_end, lifecycle_details}

-- `date` is not before `bound`; a missing date is no constraint.
abbrev pub NotBefore : Time → Option Time → Type 0
NotBefore bound none = Unit
NotBefore bound (some date) = bound ≤ date

abbrev pub IsMissing : Option Time → Type 0
IsMissing date = date ≡ none

-- The earliest of the dates that are there: `none` of none, or one of them that is below all.
pub data IsEarliest (dates : List (Option Time)) : Option Time → Type 0 where
  nothing : All IsMissing dates → IsEarliest dates none
  least : (t : Time) → Memᴰ (some t) dates → All (NotBefore t) dates → IsEarliest dates (some t)

All-NotBefore_mono :
    {t u : Time}
    → t ≤ u
    → (dates : List (Option Time)) → All (NotBefore u) dates
    → All (NotBefore t) dates
All-NotBefore_mono h [] b = tt
All-NotBefore_mono h (none ∷ dates) b = (tt, All-NotBefore_mono h dates b.1)
All-NotBefore_mono h (some d ∷ dates) b = (omega arith, All-NotBefore_mono h dates b.1)

pub drop_none :
    {dates : List (Option Time)} {r : Option Time}
    → IsEarliest (none ∷ dates) r
    → IsEarliest dates r
drop_none (nothing a) = nothing a.1
drop_none (least t (Memᴰ.tail m) a) = least t m a.1
drop_none (least t (Memᴰ.head e) a) = absurd (cc)

skip_missing :
    {date : Option Time} {dates : List (Option Time)} {r : Option Time}
    → IsEarliest (date ∷ dates) r
    → IsEarliest (none ∷ date ∷ dates) r
skip_missing (nothing a) = nothing (refl, a)
skip_missing (least t m a) = least t (Memᴰ.tail m) (tt, a)

skip_none :
    {first : Option Time} {dates : List (Option Time)} {r : Option Time}
    → IsEarliest (first ∷ dates) r
    → IsEarliest (first ∷ none ∷ dates) r
skip_none (nothing a) = nothing (a.0, (refl, a.1))
skip_none (least t (Memᴰ.head e) a) = least t (Memᴰ.head e) (a.0, (tt, a.1))
skip_none (least t (Memᴰ.tail m) a) = least t (Memᴰ.tail (Memᴰ.tail m)) (a.0, (tt, a.1))

-- Of two dates the loop goes on with the earlier, and nothing is lost.
skip_later :
    {f d : Time} {dates : List (Option Time)} {r : Option Time}
    → f ≤ d
    → IsEarliest (some f ∷ dates) r
    → IsEarliest (some f ∷ some d ∷ dates) r
skip_later h (nothing a) = absurd (cc)
skip_later h (least t (Memᴰ.head e) a) = least t (Memᴰ.head e) (a.0, (omega (arith), a.1))
skip_later h (least t (Memᴰ.tail m) a) =
    least t (Memᴰ.tail (Memᴰ.tail m)) (a.0, (omega (arith), a.1))

swap_first :
    {f d : Time} {dates : List (Option Time)} {r : Option Time}
    → d ≤ f
    → IsEarliest (some d ∷ dates) r
    → IsEarliest (some f ∷ some d ∷ dates) r
swap_first h (nothing a) = absurd (cc)
swap_first h (least t m a) = least t (Memᴰ.tail m) (omega (arith), a)

pub first_from-IsEarliest :
    (first : Option Time) (dates : List (Option Time))
    → IsEarliest (first ∷ dates) (first_from first dates)
unfolding first_from
first_from-IsEarliest none [] = nothing (refl, tt)
first_from-IsEarliest (some f) [] = least f (Memᴰ.head refl) (omega arith, tt)
first_from-IsEarliest first (none ∷ dates) = skip_none (first_from-IsEarliest first dates)
first_from-IsEarliest none (some d ∷ dates) = skip_missing (first_from-IsEarliest (some d) dates)
first_from-IsEarliest (some f) (some d ∷ dates) = elim (Bool-cases (ltb d f)) [
  | inl before ↦ rw before (swap_first (ground arith) (first_from-IsEarliest (some d) dates))
  | inr after ↦ rw after (skip_later (ground arith) (first_from-IsEarliest (some f) dates))
]

-- The actionable date of a finding is the earliest of the four support boundaries of its
-- lifecycle, and there is none exactly when the lifecycle has no boundary at all.
pub actionable_date-IsEarliest :
    (l : VersionLifecycle)
    → IsEarliest
        (standard_end l ∷ l.deprecated_support_end ∷ l.extended_support_end ∷ l.eol_date ∷ [])
        (lifecycle_details (some l)).actionable_date
unfolding lifecycle_details
actionable_date-IsEarliest l = drop_none (first_from-IsEarliest none _)
