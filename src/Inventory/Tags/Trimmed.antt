-- ===== src/Inventory/Tags/Trimmed.antt =====
-- pkg/inventory/wiz/client.go: what `ParseTags` does before it splits, on a text in brackets.
use Prim.Native.Char.{Char}
use mathlib.Core.Bool.{false≢true}
use text.Mathlib.TextBridge.{of_list}
use version_guard.Base.{
  ◌≡◌, ◌≢◌, refl, sym, ap, ◌∙◌, false, ◌==◌, eq_iff, String, [], ◌∷◌, ◌++◌, false_of_not, is_empty,
  trim_space, trim_right, trim_left, trim_cons,
}
use version_guard.Inventory.Tags.{
  Chars, chars, same, open_bracket, close_bracket, split_tags, store_tags, trim_last, parse_trimmed,
}

pub of_list-chars : (s : String) → of_list (chars s) ≡ s
of_list-chars String.[] = refl
of_list-chars (String.◌∷◌ c s) = ap (String.◌∷◌ c) (of_list-chars s)

pub chars-of_list : (l : Chars) → chars (of_list l) ≡ l
chars-of_list [] = refl
chars-of_list (c ∷ l) = ap (◌∷◌ c) (chars-of_list l)

pub is_empty-chars : (s : String) → s ≢ "" → is_empty (chars s) ≡ false
is_empty-chars String.[] h = absurd (h refl)
is_empty-chars (String.◌∷◌ c s) h = refl

trim_right-bracket :
    (s : Chars) → trim_right (of_list (s ++ close_bracket ∷ [])) ≡ of_list (s ++ close_bracket ∷ [])
unfolding trim_right
trim_right-bracket [] = refl
trim_right-bracket (c ∷ []) = refl
trim_right-bracket (c ∷ d ∷ s) = ap (trim_cons c) (trim_right-bracket (d ∷ s))

pub trim_space-bracket :
    (s : Chars)
    → trim_space (of_list (open_bracket ∷ (s ++ close_bracket ∷ [])))
      ≡ of_list (open_bracket ∷ (s ++ close_bracket ∷ []))
unfolding trim_space trim_left
trim_space-bracket s = trim_right-bracket (open_bracket ∷ s)

trim_last-bracket : (s : Chars) → trim_last close_bracket (s ++ close_bracket ∷ []) ≡ s
trim_last-bracket [] = refl
trim_last-bracket (c ∷ []) = refl
trim_last-bracket (c ∷ d ∷ s) = ap (◌∷◌ c) (trim_last-bracket (d ∷ s))

differs : (s t : String) → chars s ≢ chars t → (s == t) ≡ false
differs s t h = false_of_not (s == t) (eq_iff s t) (λ p. h (ap chars p))

abbrev pub behind : Chars → Chars
behind [] = []
behind (c ∷ s) = s

abbrev second : Chars → Char
second (c ∷ d ∷ s) = d
second s = open_bracket

-- The text in brackets is not one of the two that have no tags.
pub parse_trimmed-bracket :
    (c : Char) (s : Chars)
    → same c close_bracket ≡ false
    → let json = of_list (open_bracket ∷ c ∷ (s ++ close_bracket ∷ [])) in
      parse_trimmed json json ≡ store_tags (split_tags (c ∷ s)) []
parse_trimmed-bracket c s n =
    let json : String = of_list (open_bracket ∷ c ∷ (s ++ close_bracket ∷ [])) in
    rw
      (
        differs json "" (λ p. absurd cc),
        differs json "[]" (λ p. false≢true (sym n ∙ ap (λ l. same (second l) close_bracket) p)),
        chars-of_list (s ++ close_bracket ∷ []),
        trim_last-bracket (c ∷ s),
      )
      refl
