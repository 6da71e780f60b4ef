-- ===== src/Inventory/Tags/Printed.antt =====
-- pkg/inventory/wiz/client.go: `ParseTags` on tags as JSON without spaces writes them.
use Prim.Native.Char.{Char}
use mathlib.Core.List.{append_assoc, append-nil}
use text.Mathlib.TextBridge.{of_list}
use version_guard.Base.{
  ◌≡◌, ◌≢◌, refl, sym, ap, subst, ◌∙◌, false, ◌==◌, eq_iff, String, List, [], ◌∷◌, ◌++◌, map, All,
  Map, insert, Fresh, IsUnique, arith,
}
use version_guard.Types.Elapsed.{pos}
use version_guard.Inventory.Tags.{
  Chars, chars, open_brace, close_brace, open_bracket, close_bracket, Scan, scan, split_tags,
  parse_tag_object, store_tags, parse_tags, store_tag, parse_trimmed,
}
use version_guard.Inventory.Tags.Scanned.{IsPlain, print_tag, key-print_tag, value-print_tag}
use version_guard.Inventory.Tags.Braces.{
  IsBraceFree, All-IsBraceFree, append-IsBraceFree, IsPlain-IsBraceFree, scan-braced,
}
use version_guard.Inventory.Tags.Trimmed.{
  of_list-chars, is_empty-chars, trim_space-bracket, parse_trimmed-bracket, behind,
}

-- What stands between the braces of a tag.
abbrev body : Chars → Chars → Chars
body k v = chars "\"key\":\"" ++ (k ++ (chars "\",\"value\":\"" ++ (v ++ chars "\"")))

body-IsBraceFree : (k v : Chars) → All IsPlain k → All IsPlain v → All IsBraceFree (body k v)
body-IsBraceFree k v h g =
    append-IsBraceFree (chars "\"key\":\"") _ (All-IsBraceFree (chars "\"key\":\"") refl) (
      append-IsBraceFree k _ (IsPlain-IsBraceFree k h) (
        append-IsBraceFree (chars "\",\"value\":\"") _
          (All-IsBraceFree (chars "\",\"value\":\"") refl)
          (append-IsBraceFree v _ (IsPlain-IsBraceFree v g) (All-IsBraceFree (chars "\"") refl))))

print_tag-body : (k v : Chars) → print_tag k v ≡ open_brace ∷ body k v ++ close_brace ∷ []
print_tag-body k v = rw (append_assoc k, append_assoc v) refl

scan-print_tag :
    (k v x rest : Chars) (tags : List Chars)
    → All IsPlain k
    → All IsPlain v
    → scan (record { depth = pos 0; current = x; tags = tags }) (print_tag k v ++ rest)
      ≡ scan
          (record { depth = pos 0; current = print_tag k v; tags = tags ++ print_tag k v ∷ [] })
          rest
scan-print_tag k v x rest tags h g =
    let start : Scan = record { depth = pos 0; current = x; tags = tags } in
    subst
      (λ o.
        scan start (o ++ rest)
        ≡ scan (record { depth = pos 0; current = o; tags = tags ++ o ∷ [] }) rest)
      (sym (print_tag-body k v))
      (ap (λ z. scan start (open_brace ∷ z)) (append_assoc (body k v) (close_brace ∷ []) rest)
        ∙ scan-braced (body k v) x rest tags (body-IsBraceFree k v h g))

abbrev object_of : String × String → Chars
object_of (key, value) = print_tag (chars key) (chars value)

-- The objects of the later tags, each after a comma.
abbrev print_more : Map String → Chars
print_more [] = []
print_more (tag ∷ tags) = Char.char 0x2c tt ∷ (object_of tag ++ print_more tags)

abbrev print_list : Map String → Chars
print_list [] = []
print_list (tag ∷ tags) = object_of tag ++ print_more tags

-- `[{"key":"app","value":"my-app"},{"key":"env","value":"prod"}]`
abbrev pub print_tags : Map String → String
print_tags tags = of_list (open_bracket ∷ (print_list tags ++ close_bracket ∷ []))

-- A key is not empty, and neither the key nor the value has a quote or a brace.
abbrev pub TagIsPlain : String × String → Type 0
TagIsPlain (key, value) = (key ≢ "") × All IsPlain (chars key) × All IsPlain (chars value)

scan-print_more :
    (ts : Map String) (x : Chars) (tags : List Chars)
    → All TagIsPlain ts
    → (scan (record { depth = pos 0; current = x; tags = tags }) (print_more ts)).tags
      ≡ tags ++ map object_of ts
unfolding scan
scan-print_more [] x tags h = sym (append-nil tags)
scan-print_more ((k, v) ∷ ts) x tags h =
    ap (λ s. s.tags)
      (scan-print_tag (chars k) (chars v) (x ++ Char.char 0x2c tt ∷ []) (print_more ts) tags h.0.1
        h.0.2)
    ∙ (scan-print_more ts _ (tags ++ object_of (k, v) ∷ []) h.1
        ∙ append_assoc tags (object_of (k, v) ∷ []) (map object_of ts))

split_tags-print_list :
    (ts : Map String) → All TagIsPlain ts → split_tags (print_list ts) ≡ map object_of ts
unfolding split_tags
split_tags-print_list [] h = refl
split_tags-print_list ((k, v) ∷ ts) h =
    ap (λ s. s.tags) (scan-print_tag (chars k) (chars v) [] (print_more ts) [] h.0.1 h.0.2)
    ∙ scan-print_more ts _ (object_of (k, v) ∷ []) h.1

Fresh-append : (m n : Map String) (j k v : String) → Fresh j (m ++ (k, v) ∷ n) → (j == k) ≡ false
Fresh-append [] n j k v h = ground (arith, h, eq_iff j k, eq_iff k j)
Fresh-append (entry ∷ m) n j k v h = Fresh-append m n j k v h.1

Fresh-of_IsUnique : (m n : Map String) (k v : String) → IsUnique (m ++ (k, v) ∷ n) → Fresh k m
Fresh-of_IsUnique [] n k v h = tt
Fresh-of_IsUnique ((j, w) ∷ m) n k v h = (Fresh-append m n j k v h.0, Fresh-of_IsUnique m n k v h.1)

insert-Fresh : (k v : String) (m : Map String) → Fresh k m → insert k v m ≡ m ++ (k, v) ∷ []
unfolding insert
insert-Fresh k v [] h = refl
insert-Fresh k v ((j, w) ∷ m) h = rw (h.0) (ap (◌∷◌ (j, w)) (insert-Fresh k v m h.1))

parse_tag_object-object_of :
    (k v : String) → TagIsPlain (k, v) → parse_tag_object (object_of (k, v)) ≡ (chars k, chars v)
unfolding parse_tag_object
parse_tag_object-object_of k v h =
    rw (key-print_tag (chars k) (chars v) h.1, value-print_tag (chars k) (chars v) h.1 h.2) refl

store_tag-object_of :
    (k v : String) (m : Map String)
    → TagIsPlain (k, v)
    → Fresh k m
    → store_tag (parse_tag_object (object_of (k, v))) m ≡ m ++ (k, v) ∷ []
store_tag-object_of k v m h f =
    ap (λ pair. store_tag pair m) (parse_tag_object-object_of k v h)
    ∙ rw (is_empty-chars k h.0, of_list-chars k, of_list-chars v) (insert-Fresh k v m f)

store_tags-object_of :
    (ts m : Map String)
    → All TagIsPlain ts
    → IsUnique (m ++ ts)
    → store_tags (map object_of ts) m ≡ m ++ ts
unfolding store_tags
store_tags-object_of [] m h u = sym (append-nil m)
store_tags-object_of ((k, v) ∷ ts) m h u =
    ap (store_tags (map object_of ts))
      (store_tag-object_of k v m h.0 (Fresh-of_IsUnique m ts k v u))
    ∙ (store_tags-object_of ts (m ++ (k, v) ∷ []) h.1
          (subst IsUnique (sym (append_assoc m ((k, v) ∷ []) ts)) u)
        ∙ append_assoc m ((k, v) ∷ []) ts)

-- Tags whose keys are distinct and not empty, and in which no key and no value has a quote or a
-- brace, are read back from their JSON without spaces, in their order.
pub parse_tags-print_tags :
    (tags : Map String) → All TagIsPlain tags → IsUnique tags → parse_tags (print_tags tags) ≡ tags
unfolding parse_tags
parse_tags-print_tags [] h u = refl
parse_tags-print_tags ((k, v) ∷ ts) h u =
    let text = print_list ((k, v) ∷ ts) in
    ap (parse_trimmed (print_tags ((k, v) ∷ ts))) (trim_space-bracket text)
    ∙ (parse_trimmed-bracket open_brace (behind text) refl
        ∙ (ap (λ l. store_tags l []) (split_tags-print_list ((k, v) ∷ ts) h)
            ∙ store_tags-object_of ((k, v) ∷ ts) [] h u))
