-- ===== src/Inventory/Tags/Scanned.antt =====
-- pkg/inventory/wiz/client.go: what `splitTags` and `parseTagObject` make of plain texts.
use version_guard.Base.{
  ◌≡◌, refl, ap, ◌∙◌, false, some, [], ◌∷◌, ◌++◌, All, arith, drop, if_ind, Bool-cases, inl, inr,
}
use version_guard.Inventory.Tags.{
  Chars, same, quote, open_brace, close_brace, from_first, until_quote, quoted_value, matches,
  chars, separator, key_name, value_name, quoted_after, after_separator,
}
use Prim.Native.Char.{Char}
use text.Mathlib.TextEquality.{Char-path}

-- Neither a quote nor a brace.
abbrev pub IsPlain : Char → Type 0
IsPlain c = (same c quote ≡ false) × (same c open_brace ≡ false) × (same c close_brace ≡ false)

-- `{"key":"k","value":"v"}`
abbrev pub value_part : Chars → Chars
value_part v = chars "\",\"value\":\"" ++ (v ++ chars "\"}")

abbrev pub print_tag : Chars → Chars → Chars
print_tag k v = chars "{\"key\":\"" ++ (k ++ value_part v)

pub until_quote-plain :
    (text rest : Chars) → All IsPlain text → until_quote (text ++ quote ∷ rest) ≡ some text
unfolding until_quote
until_quote-plain [] rest h = refl
until_quote-plain (c ∷ text) rest h = rw (h.0.0, until_quote-plain text rest h.1) refl

-- A name in quotes does not begin within a plain text.
from_first-plain :
    (name text rest : Chars)
    → All IsPlain text
    → from_first (quote ∷ name) (text ++ rest) ≡ from_first (quote ∷ name) rest
unfolding from_first
from_first-plain name [] rest h = refl
from_first-plain name (c ∷ text) rest h = rw (h.0.0) (from_first-plain name text rest h.1)

pub key-print_tag : (k v : Chars) → All IsPlain k → quoted_value key_name (print_tag k v) ≡ k
unfolding quoted_value
key-print_tag k v h = rw (until_quote-plain k _ h) refl

abbrev pub colon : Char
colon = Char.char 0x3a tt

pub skip_key :
    (c : Char) (k rest : Chars)
    → All IsPlain (c ∷ k)
    → same c colon ≡ false
    → from_first separator (quote ∷ c ∷ k ++ rest) ≡ from_first separator rest
unfolding from_first
skip_key c k rest h n = rw (n, h.0.0) (from_first-plain (colon ∷ quote ∷ []) k rest h.1)

-- From the quote before the key on, the separator is found behind the name of the value.
pub separator-print_tag :
    (c : Char) (k v : Chars)
    → All IsPlain (c ∷ k)
    → All IsPlain v
    → same c colon ≡ false
    → quoted_after (some (quote ∷ c ∷ k ++ value_part v)) ≡ v
unfolding from_first until_quote drop
separator-print_tag c k v h g n =
    ap after_separator (skip_key c k (value_part v) h n)
    ∙ rw (until_quote-plain v (close_brace ∷ []) g) refl

-- From the key on, the name of the value is found behind it.
pub later-print_tag :
    (k v : Chars)
    → All IsPlain k
    → All IsPlain v
    → quoted_after (from_first value_name (k ++ value_part v)) ≡ v
unfolding from_first until_quote drop
later-print_tag k v h g =
    ap quoted_after (from_first-plain (chars "value\"") k (value_part v) h)
    ∙ rw (until_quote-plain v (close_brace ∷ []) g) refl

-- The name of the value may be the key; then it is found there first, with the same result.
pub value-print_tag :
    (k v : Chars) → All IsPlain k → All IsPlain v → quoted_value value_name (print_tag k v) ≡ v
unfolding quoted_value
value-print_tag [] v h g = later-print_tag [] v h g
value-print_tag (c ∷ k) v h g = elim (Bool-cases (same c colon)) [
  | inl e ↦ rw (Char-path c colon (ground (arith, e))) (later-print_tag k v h.1 g)
  | inr n ↦
      if_ind (λ o. quoted_after o ≡ v) (matches value_name (quote ∷ c ∷ k ++ value_part v))
        (separator-print_tag c k v h g n) (later-print_tag (c ∷ k) v h g)
]
