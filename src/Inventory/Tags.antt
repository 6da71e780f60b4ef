-- ===== src/Inventory/Tags.antt =====
-- pkg/inventory/wiz/client.go: `ParseTags`, which reads the JSON of a tags column without a decoder.
-- Inside, a text is a list of its characters, and a position in it the rest of the text from there.
pub mod Scanned
pub mod Braces
pub mod Trimmed
pub mod Printed
pub mod Spaced
use Prim.Native.Char.{Char, code}
use Prim.Native.String
use text.Mathlib.TextBridge.{of_list}
use version_guard.Base.{
  ℕ, zero, suc, String, Bool, true, false, ◌==◌, ◌||◌, Option, none, some, List, [], ◌∷◌, ◌++◌, Map,
  insert, eqb, is_empty, if◌then◌else◌, trim_space, drop,
}
use version_guard.Types.Elapsed.{ℤ, pos, negsuc}

abbrev pub Chars : Type 0
Chars = List Char

abbrev pub chars : String → Chars
chars String.[] = []
chars (String.◌∷◌ c s) = c ∷ chars s

abbrev pub same : Char → Char → Bool
same c d = eqb (code c) (code d)

abbrev pub quote : Char
quote = Char.char 0x22 tt

abbrev pub open_brace : Char
open_brace = Char.char 0x7b tt

abbrev pub close_brace : Char
close_brace = Char.char 0x7d tt

abbrev pub open_bracket : Char
open_bracket = Char.char 0x5b tt

abbrev pub close_bracket : Char
close_bracket = Char.char 0x5d tt

-- `strings.HasPrefix`
abbrev pub matches : Chars → Chars → Bool
matches [] s = true
matches (d ∷ sub) [] = false
matches (d ∷ sub) (c ∷ s) = if same c d then matches sub s else false

-- `s[strings.Index(s, sub):]`; `none` is the index -1.
unfoldable pub from_first : Chars → Chars → Option Chars
from_first sub [] = if is_empty sub then some [] else none
from_first sub (c ∷ s) =
    let later = from_first sub s in if matches sub (c ∷ s) then some (c ∷ s) else later

abbrev pub onto : Char → Option Chars → Option Chars
onto c none = none
onto c (some s) = some (c ∷ s)

-- `s[:strings.Index(s, "\"")]`
unfoldable pub until_quote : Chars → Option Chars
until_quote [] = none
until_quote (c ∷ s) = let later = until_quote s in if same c quote then some [] else onto c later

abbrev pub separator : Chars
separator = chars "\":\""

abbrev pub or_empty : Option Chars → Chars
or_empty none = []
or_empty (some s) = s

-- The text behind the three characters `":"`, up to the next quote.
abbrev pub after_separator : Option Chars → Chars
after_separator none = []
after_separator (some s) = or_empty (until_quote (drop 3 s))

-- The separator is looked for from the position of the name on.
abbrev pub quoted_after : Option Chars → Chars
quoted_after none = []
quoted_after (some s) = after_separator (from_first separator s)

-- One of the two halves of `parseTagObject`. The first quote is that of the name itself, so that the
-- separator is never found at its position.
unfoldable pub quoted_value : Chars → Chars → Chars
unfolding from_first until_quote drop
quoted_value name object = quoted_after (from_first name object)

abbrev pub key_name : Chars
key_name = chars "\"key\""

abbrev pub value_name : Chars
value_name = chars "\"value\""

unfoldable pub parse_tag_object : Chars → Chars × Chars
unfolding quoted_value
parse_tag_object object = (quoted_value key_name object, quoted_value value_name object)

-- `depth++` and `depth--`
abbrev pub up : ℤ → ℤ
up (pos n) = pos (suc n)
up (negsuc zero) = pos 0
up (negsuc (suc n)) = negsuc n

abbrev pub down : ℤ → ℤ
down (pos zero) = negsuc 0
down (pos (suc n)) = pos n
down (negsuc n) = negsuc (suc n)

abbrev pub is_pos : ℕ → ℤ → Bool
is_pos n (pos m) = eqb m n
is_pos n (negsuc m) = false

-- The variables of the loop of `splitTags`; `current` is the text from `start` on.
pub record Scan : Type 0 where
  pub depth : ℤ
  pub current : Chars
  pub tags : List Chars

abbrev pub opened : Char → Scan → Scan
opened c s = record {
  depth = up s.depth;
  current = if is_pos 1 (up s.depth) then c ∷ [] else s.current ++ c ∷ [];
  tags = s.tags;
}

abbrev pub closed : Char → Scan → Scan
closed c s =
    let current = s.current ++ c ∷ [] in
    record {
      depth = down s.depth;
      current = current;
      tags = if is_pos 0 (down s.depth) then s.tags ++ current ∷ [] else s.tags;
    }

abbrev pub passed : Char → Scan → Scan
passed c s = record s { current = s.current ++ c ∷ [] }

abbrev pub step : Char → Scan → Scan
step c s =
    if same c open_brace then opened c s else if same c close_brace then closed c s else passed c s

unfoldable pub scan : Scan → Chars → Scan
scan s [] = s
scan s (c ∷ text) = scan (step c s) text

abbrev pub scan_start : Scan
scan_start = record { depth = pos 0; current = []; tags = [] }

unfoldable pub split_tags : Chars → List Chars
unfolding scan
split_tags text = (scan scan_start text).tags

-- `strings.TrimPrefix` and `strings.TrimSuffix` of one character.
abbrev pub trim_first : Char → Chars → Chars
trim_first d [] = []
trim_first d (c ∷ s) = if same c d then s else c ∷ s

abbrev pub trim_last : Char → Chars → Chars
trim_last d [] = []
trim_last d (c ∷ []) = if same c d then [] else c ∷ []
trim_last d (c ∷ e ∷ s) = c ∷ trim_last d (e ∷ s)

-- The body of the loop of `ParseTags`.
abbrev pub store_tag : Chars × Chars → Map String → Map String
store_tag (key, value) tags =
    if is_empty key then tags else insert (of_list key) (of_list value) tags

unfoldable pub store_tags : List Chars → Map String → Map String
unfolding parse_tag_object insert
store_tags [] tags = tags
store_tags (object ∷ objects) tags = store_tags objects (store_tag (parse_tag_object object) tags)

abbrev pub parse_trimmed : String → String → Map String
parse_trimmed json trimmed =
    if json == "" || (trimmed == "[]" || trimmed == "")
    then []
    else store_tags (split_tags (trim_last close_bracket (trim_first open_bracket (chars trimmed))))
        []

-- The error of `ParseTags` is always nil.
unfoldable pub parse_tags : String → Map String
unfolding trim_space split_tags store_tags
parse_tags json = parse_trimmed json (trim_space json)
