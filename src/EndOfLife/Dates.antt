-- ===== src/EndOfLife/Dates.antt =====
-- pkg/eol/endoflife/provider.go: `anyToDateString` and `parseDate`. `time.Parse` is modelled at the
-- one layout that the program uses, "2006-01-02", in the proleptic Gregorian calendar.
use Prim.Native.Char.{code}
use version_guard.Base.{
  ℕ, zero, suc, ◌+◌, ◌-◌, ◌*◌, ◌/◌, ◌%◌, String, Bool, not, ◌&&◌, ◌||◌, Option, none, some, List,
  [], ◌∷◌, leb, ltb, eqb, if◌then◌else◌, ◌==◌, trim_space,
}
use version_guard.Types.{Time}
use version_guard.EndOfLife.{Value, text}

-- The characters of a text, as numbers.
abbrev points : String → List ℕ
points String.[] = []
points (String.◌∷◌ first rest) = code first ∷ points rest

abbrev is_leap : ℕ → Bool
is_leap y = eqb (y % 4) 0 && (not (eqb (y % 100) 0) || eqb (y % 400) 0)

days_in : ℕ → ℕ → ℕ
days_in y m =
    if eqb m 2
    then (if is_leap y then 29 else 28)
    else if eqb m 4 || eqb m 6 || eqb m 9 || eqb m 11
    then 30
    else 31

-- The days of the months before the month `m`, counted from 1.
days_before : ℕ → ℕ → ℕ
days_before y zero = 0
days_before y (suc zero) = 0
days_before y (suc (suc m)) = days_before y (suc m) + days_in y (suc m)

-- The leap years among the years before `y`.
abbrev leap_years : ℕ → ℕ
leap_years y = (y + 3) / 4 + (y + 399) / 400 - (y + 99) / 100

-- The days from the start of the year 0.
unfoldable pub day_number : ℕ → ℕ → ℕ → ℕ
unfolding days_before days_in
day_number y m d = 365 * y + leap_years y + days_before y m + (d - 1)

abbrev is_digit : ℕ → Bool
is_digit c = leb b'0' c && leb c b'9'

abbrev two : ℕ → ℕ → ℕ
two a b = 10 * (a - b'0') + (b - b'0')

civil : ℕ → ℕ → ℕ → Option Time
unfolding day_number
civil y m d =
    if ltb 0 m && leb m 12 && ltb 0 d && leb d (days_in y m)
    then some (day_number y m d * 86_400_000_000_000)
    else none

parse_codes : List ℕ → Option Time
unfolding civil
parse_codes (a ∷ b ∷ c ∷ d ∷ h ∷ m ∷ n ∷ i ∷ x ∷ y ∷ []) =
    if is_digit a
      && is_digit b
      && is_digit c
      && is_digit d
      && eqb h b'-'
      && is_digit m
      && is_digit n
      && eqb i b'-'
      && is_digit x
      && is_digit y
    then civil (100 * two a b + two c d) (two m n) (two x y)
    else none
parse_codes _ = none

-- `time.Parse("2006-01-02", s)`
unfoldable pub time_parse : String → Option Time
unfolding parse_codes
time_parse s = parse_codes (points s)

unfoldable pub any_to_date_string : Value → String
any_to_date_string (text v) = if v == "" || v == "false" || v == "true" then "" else v
any_to_date_string _ = ""

-- `none` is an error.
unfoldable pub parse_date : String → Option Time
unfolding time_parse trim_space
parse_date s =
    let date = trim_space s in if date == "true" || date == "false" then none else time_parse date

-- A date that is parsed only where its text is not empty, and dropped on an error.
unfoldable pub parse_present : String → Option Time
unfolding parse_date
parse_present s = if s == "" then none else parse_date s

unfoldable pub date_of : Value → Option Time
unfolding any_to_date_string parse_present
date_of v = parse_present (any_to_date_string v)
