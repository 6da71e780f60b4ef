-- ===== src/Override/Paths.antt =====
-- Go's `path/filepath` on Unix and `strings.TrimSuffix`, where deploy/endoflife-override/manifest.go
-- calls them on the path of an override.
use Prim.Native.Char.{Char, code}
use Prim.Native.String
use Prim.Native.String.{len, slice}
use text.Mathlib.Text.{starts_with}
use version_guard.Base.{
  ◌-◌, String, Bool, ◌&&◌, ◌||◌, List, [], ◌∷◌, eqb, ◌==◌, if◌then◌else◌, contains, split, join,
}

abbrev slash : Char
slash = "/"

abbrev dot : Char
dot = "."

-- The segments of a path that are kept, the last one first.
unfoldable pub clean_segments : Bool → List String → List String → List String
clean_segments rooted kept [] = kept
clean_segments rooted [] (s ∷ rest) =
    clean_segments rooted (if s == "" || s == "." || rooted && s == ".." then [] else s ∷ []) rest
clean_segments rooted (top ∷ kept) (s ∷ rest) =
    clean_segments rooted
      (if s == "" || s == "."
        then top ∷ kept
        else if s == ".." && not_up top
        then kept
        else s ∷ top ∷ kept)
      rest
  where
    not_up : String → Bool
    not_up t = if t == ".." then Bool.false else Bool.true

abbrev reverse_onto : List String → List String → List String
reverse_onto done [] = done
reverse_onto done (s ∷ rest) = reverse_onto (s ∷ done) rest

-- `filepath.Clean`
unfoldable pub clean : String → String
unfolding clean_segments split join
clean path =
    let rooted = starts_with path "/" in
    let body = join slash (reverse_onto [] (clean_segments rooted [] (split slash path))) in
    if rooted then String.◌++◌ "/" body else if body == "" then "." else body

-- `filepath.Ext` of a name without slashes.
unfoldable pub extension : String → String
unfolding contains
extension String.[] = ""
extension (String.◌∷◌ c rest) =
    let later = extension rest in
    if contains rest "." then later else if eqb (code c) (code dot) then String.◌∷◌ c rest else ""

-- `strings.TrimSuffix`
unfoldable pub trim_suffix : String → String → String
trim_suffix s suffix =
    if slice s (len s - len suffix) (len s) == suffix then slice s 0 (len s - len suffix) else s
