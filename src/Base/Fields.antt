-- ===== src/Base/Fields.antt =====
-- Texts that are split at a character, and joined again: functions of Go's package `strings`.
use Prim.Native.Char.{Char, code}
use Prim.Native.String
use Prim.Native.String.{String}
use mathlib.Core.Path.{◌≡◌, refl, ◌∙◌}
use mathlib.Core.Option.{Option, none, some}
use mathlib.Core.Logic.{inl, inr}
use text.Mathlib.TextLemmas.{cons-append, nil-append}
use text.Mathlib.TextEquality.{Char-path}
use mathlib.Core.List.{List, [], ◌∷◌}
use native.Mathlib.Omega.{arith}
use version_guard.Base.Tests.{eqb, if◌then◌else◌, Bool-cases}

abbrev pub hyphen : Char
hyphen = Char.char 0x2d tt

abbrev pub point : Char
point = Char.char 0x2e tt

abbrev pub slash : Char
slash = Char.char 0x2f tt

abbrev pub bar : Char
bar = Char.char 0x7c tt

-- `name[strings.LastIndex(name, sep)+1:]`, if the separator is there.
unfoldable pub after_last : Char → String → Option String
after_last sep String.[] = none
after_last sep (String.◌∷◌ c s) = elim (after_last sep s) [
  | some short ↦ some short
  | none ↦ if eqb (code c) (code sep) then some s else none
]

-- The character goes to the front of the first field.
abbrev pub onto_first : Char → List String → List String
onto_first c [] = String.◌∷◌ c String.[] ∷ []
onto_first c (field ∷ fields) = String.◌∷◌ c field ∷ fields

-- `strings.Split` by a separator of one character.
unfoldable pub split : Char → String → List String
split sep String.[] = String.[] ∷ []
split sep (String.◌∷◌ c s) =
    let rest = split sep s in
    if eqb (code c) (code sep) then String.[] ∷ rest else onto_first c rest

-- `strings.Join` with a separator of one character.
unfoldable pub join : Char → List String → String
join sep [] = String.[]
join sep (field ∷ []) = field
join sep (field ∷ next ∷ fields) = String.◌++◌ field (String.◌∷◌ sep (join sep (next ∷ fields)))

join-onto_first :
    (sep c : Char) (fields : List String)
    → join sep (onto_first c fields) ≡ String.◌∷◌ c (join sep fields)
unfolding join
join-onto_first sep c [] = refl
join-onto_first sep c (field ∷ []) = refl
join-onto_first sep c (field ∷ next ∷ fields) = cons-append c field _

onto_first-cons :
    (c : Char) (fields : List String)
    → (field : String) × (rest : List String) × (onto_first c fields ≡ field ∷ rest)
onto_first-cons c [] = (_, _, refl)
onto_first-cons c (field ∷ fields) = (_, _, refl)

-- There is always a first field.
pub split-cons :
    (sep : Char) (s : String)
    → (field : String) × (fields : List String) × (split sep s ≡ field ∷ fields)
unfolding split
split-cons sep String.[] = (_, _, refl)
split-cons sep (String.◌∷◌ c s) = elim (Bool-cases (eqb (code c) (code sep))) [
  | inl same ↦ rw same (String.[], split sep s, refl)
  | inr other ↦ rw other (onto_first-cons c (split sep s))
]

join-separated :
    (sep : Char) (fields : List String)
    → ((field : String) × (rest : List String) × (fields ≡ field ∷ rest))
    → join sep (String.[] ∷ fields) ≡ String.◌∷◌ sep (join sep fields)
unfolding join
join-separated sep [] h = absurd cc
join-separated sep (field ∷ fields) h = nil-append _

-- To join the fields of a text gives the text.
pub join-split : (sep : Char) (s : String) → join sep (split sep s) ≡ s
unfolding split join
join-split sep String.[] = refl
join-split sep (String.◌∷◌ c s) = elim (Bool-cases (eqb (code c) (code sep))) [
  | inl same ↦ rw same (
      join-separated sep (split sep s) (split-cons sep s)
      ∙ rw (join-split sep s, Char-path c sep (ground (arith, same))) refl)
  | inr other ↦ rw other (join-onto_first sep c (split sep s) ∙ rw (join-split sep s) refl)
]
