-- ===== src/Inventory/Tags/Spaced.antt =====
-- pkg/inventory/wiz/client.go: `ParseTags` on JSON with a space after the colon of a key only.
use Prim.Native.Char.{Char}
use text.Mathlib.TextBridge.{of_list}
use mathlib.Core.List.{append_assoc}
use version_guard.Base.{
  ◌≡◌, refl, ap, ◌∙◌, false, String, [], ◌∷◌, ◌++◌, All, if_ind, subst, sym, is_empty,
}
use version_guard.Inventory.Tags.{
  Chars, chars, same, quote, open_brace, close_brace, open_bracket, close_bracket, scan, scan_start,
  split_tags, quoted_value, quoted_after, after_separator, key_name, value_name, parse_tag_object,
  store_tags, parse_tags, parse_trimmed, matches, store_tag,
}
use version_guard.Inventory.Tags.Scanned.{
  IsPlain, colon, skip_key, value_part, until_quote-plain, later-print_tag, separator-print_tag,
}
use version_guard.Inventory.Tags.Braces.{
  IsBraceFree, All-IsBraceFree, append-IsBraceFree, IsPlain-IsBraceFree, scan-braced,
}
use version_guard.Inventory.Tags.Trimmed.{trim_space-bracket, parse_trimmed-bracket, behind}

-- `"key": "k","value":"v"`
abbrev spaced_body : Chars → Chars → Chars
spaced_body k v = chars "\"key\": \"" ++ (k ++ (chars "\",\"value\":\"" ++ (v ++ chars "\"")))

abbrev spaced_tag : Chars → Chars → Chars
spaced_tag k v = chars "{\"key\": \"" ++ (k ++ value_part v)

-- `[{"key": "k","value":"v"}]`
abbrev pub spaced_tags : Chars → Chars → String
spaced_tags k v = of_list (open_bracket ∷ (spaced_tag k v ++ close_bracket ∷ []))

key-spaced_tag :
    (c : Char) (k v : Chars)
    → All IsPlain (c ∷ k)
    → All IsPlain v
    → same c colon ≡ false
    → quoted_value key_name (spaced_tag (c ∷ k) v) ≡ v
unfolding quoted_value
key-spaced_tag c k v h g n =
    ap after_separator (skip_key c k (value_part v) h n)
    ∙ rw (until_quote-plain v (close_brace ∷ []) g) refl

value-spaced_tag :
    (c : Char) (k v : Chars)
    → All IsPlain (c ∷ k)
    → All IsPlain v
    → same c colon ≡ false
    → quoted_value value_name (spaced_tag (c ∷ k) v) ≡ v
unfolding quoted_value
value-spaced_tag c k v h g n =
    if_ind (λ o. quoted_after o ≡ v) (matches value_name (quote ∷ c ∷ k ++ value_part v))
      (separator-print_tag c k v h g n) (later-print_tag (c ∷ k) v h g)

spaced_body-IsBraceFree :
    (k v : Chars) → All IsPlain k → All IsPlain v → All IsBraceFree (spaced_body k v)
spaced_body-IsBraceFree k v h g =
    append-IsBraceFree (chars "\"key\": \"") _ (All-IsBraceFree (chars "\"key\": \"") refl) (
      append-IsBraceFree k _ (IsPlain-IsBraceFree k h) (
        append-IsBraceFree (chars "\",\"value\":\"") _
          (All-IsBraceFree (chars "\",\"value\":\"") refl)
          (append-IsBraceFree v _ (IsPlain-IsBraceFree v g) (All-IsBraceFree (chars "\"") refl))))

spaced_tag-body : (k v : Chars) → spaced_tag k v ≡ open_brace ∷ spaced_body k v ++ close_brace ∷ []
spaced_tag-body k v = rw (append_assoc k, append_assoc v) refl

split_tags-spaced_tag :
    (k v : Chars)
    → All IsPlain k
    → All IsPlain v
    → split_tags (spaced_tag k v) ≡ spaced_tag k v ∷ []
unfolding split_tags
split_tags-spaced_tag k v h g =
    subst (λ o. (scan scan_start o).tags ≡ o ∷ []) (sym (spaced_tag-body k v))
      (ap (λ s. s.tags) (scan-braced (spaced_body k v) [] [] [] (spaced_body-IsBraceFree k v h g)))

parse_tag_object-spaced_tag :
    (c : Char) (k v : Chars)
    → All IsPlain (c ∷ k)
    → All IsPlain v
    → same c colon ≡ false
    → parse_tag_object (spaced_tag (c ∷ k) v) ≡ (v, v)
unfolding parse_tag_object
parse_tag_object-spaced_tag c k v h g n =
    rw (key-spaced_tag c k v h g n, value-spaced_tag c k v h g n) refl

-- The JSON of one tag, with a space after the colon of the key and none after that of the value, is
-- misread: when neither the key nor the value has a quote or a brace, the key is not empty and does
-- not begin with a colon, and the value is not empty, the tag is stored under its value in place of
-- its key.
pub parse_tags-spaced_tags :
    (c : Char) (k v : Chars)
    → All IsPlain (c ∷ k)
    → All IsPlain v
    → same c colon ≡ false
    → is_empty v ≡ false
    → parse_tags (spaced_tags (c ∷ k) v) ≡ (of_list v, of_list v) ∷ []
unfolding parse_tags store_tags
parse_tags-spaced_tags c k v h g n given =
    let text = spaced_tag (c ∷ k) v in
    ap (parse_trimmed (spaced_tags (c ∷ k) v)) (trim_space-bracket text)
    ∙ (parse_trimmed-bracket open_brace (behind text) refl
        ∙ (ap (λ l. store_tags l []) (split_tags-spaced_tag (c ∷ k) v h g)
            ∙ (ap (λ pair. store_tag pair []) (parse_tag_object-spaced_tag c k v h g n)
                ∙ rw given refl)))
