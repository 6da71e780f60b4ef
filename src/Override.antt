-- ===== src/Override.antt =====
-- deploy/endoflife-override/manifest.go: the validation of the local overrides of endoflife.date.
-- The files and what the JSON decoders read from them, `url.ParseRequestURI` and the format of dates
-- are parameters. Of an error its kind is kept, and the index of the override. A path is relative to
-- the root. The warnings that are written before an error are left out.
pub mod Paths
pub mod Sound
pub mod Tests
use text.Mathlib.Text.{starts_with}
use version_guard.Base.{
  ℕ, suc, ◌+◌, ◌-◌, ◌*◌, String, Bool, true, false, not, ◌||◌, ◌&&◌, Option, none, some, List, [],
  ◌∷◌, ◌++◌, map, any, eqb, ltb, ◌==◌, if◌then◌else◌, ◌⊎◌, inl, inr, trim_space, trim_prefix,
  is_some, contains,
}
use version_guard.Types.{Time}
use version_guard.Types.Elapsed.{ℤ, pos, negsuc}
use version_guard.Policy.{day}
use version_guard.EndOfLife.{ProductCycle}
use version_guard.EndOfLife.Dates.{time_parse}
use version_guard.EndOfLife.Validation.{validate_product_cycle}
use version_guard.EndOfLife.Client.{Decoded, Trailer, body_error, entries}
use version_guard.Override.Paths.{clean, extension, trim_suffix}

pub record ManifestOverride : Type 0 where
  pub product : String
  pub path : String
  pub reason : String
  pub owner : String
  pub source_url : String
  pub reviewed_on : String
  pub review_due_on : String

pub record Manifest : Type 0 where
  pub overrides : List ManifestOverride
  pub schema_version : ℤ

-- What `os.Lstat` tells of a path.
pub data FileInfo : Type 0 where
  symlink directory regular irregular : FileInfo

-- A URL that `url.ParseRequestURI` accepts.
pub record Url : Type 0 where
  pub scheme : String
  pub host : String

-- The body of an API file, as its decoder reads it.
pub record Body : Type 0 where
  pub decoded : Decoded
  pub trailer : Trailer

-- The directory of the overrides; `none` is an error of the call.
pub record Root : Type 0 where
  pub manifest : Option Manifest
  pub stat : String → Option FileInfo
  pub read : String → Option Body
  pub api_files : Option (List String)
  pub parse_url : String → Option Url
  pub format_date : Time → String

pub data OverrideError : Type 0 where
  missing_field duplicate_product duplicate_path not_https invalid_url invalid_date : OverrideError
  due_before_reviewed interval_too_long not_direct wrong_name no_file file_is_symlink :
      OverrideError
  not_regular invalid_file : OverrideError

pub data ManifestError : Type 0 where
  no_manifest other_schema no_api_directory api_is_symlink api_not_directory : ManifestError
  invalid_override : ℕ → OverrideError → ManifestError
  no_listing unlisted_file : ManifestError

-- `maximumReviewInterval`
abbrev pub maximum_review_interval : ℕ
maximum_review_interval = 30 * day

-- `parseManifestDate`
unfoldable pub parse_manifest_date : Root → String → Option Time
unfolding time_parse
parse_manifest_date root value = elim (time_parse value) [
  | none ↦ none
  | some parsed ↦ if root.format_date parsed == value then some parsed else none
]

-- The end of the review. The order of the dates and the bound are the same without the saturation of
-- `Sub`.
abbrev pub review_between : Option Time → Option Time → OverrideError ⊎ Time
review_between none due = inl invalid_date
review_between (some reviewed) none = inl invalid_date
review_between (some reviewed) (some due) =
    if ltb due reviewed
    then inl due_before_reviewed
    else if ltb maximum_review_interval (due - reviewed)
    then inl interval_too_long
    else inr due

abbrev pub is_https : Option Url → Bool
is_https none = false
is_https (some url) = url.scheme == "https" && not (url.host == "")

-- `validateAPIFile`
abbrev pub validate_api_file : Root → Option Body → Option OverrideError
validate_api_file root none = some invalid_file
validate_api_file root (some body) =
    if is_some (body_error body.decoded.fails body.decoded.cycles body.trailer)
      || any (λ c. is_some (validate_product_cycle root.format_date c))
          (entries body.decoded.cycles)
    then some invalid_file
    else none

-- The checks of the file, with what `Lstat` tells of it.
abbrev pub check_file : Root → Option FileInfo → Option Body → Option OverrideError
check_file root none body = some no_file
check_file root (some symlink) body = some file_is_symlink
check_file root (some directory) body = some not_regular
check_file root (some irregular) body = some not_regular
check_file root (some regular) body = validate_api_file root body

unfoldable pub check_path : Root → ManifestOverride → Option OverrideError
check_path root o =
    let clean_path = clean o.path in
    let filename = trim_prefix clean_path "api/" in
    if not (clean_path == o.path)
      || filename == clean_path
      || filename == ""
      || contains filename "/"
      || contains filename "\\"
      || not (extension filename == ".json")
    then some not_direct
    else if not (trim_suffix filename ".json" == o.product)
    then some wrong_name
    else check_file root (root.stat clean_path) (root.read clean_path)

abbrev pub required_fields : ManifestOverride → List String
required_fields o =
    o.product ∷ o.path ∷ o.reason ∷ o.owner ∷ o.source_url ∷ o.reviewed_on ∷ o.review_due_on ∷ []

-- The last checks, with the end of the review at hand. The result is the warnings, which name the
-- product and the day.
abbrev pub with_review :
    ManifestOverride
    → Time
    → OverrideError ⊎ Time
    → Option OverrideError
    → OverrideError ⊎ List (String × String)
with_review o now (inl e) path_error = inl e
with_review o now (inr due) (some e) = inl e
with_review o now (inr due) none =
    inr (if ltb now (due + day) then [] else (o.product, o.review_due_on) ∷ [])

-- `validateOverride`, with the products and the paths before it.
unfoldable pub validate_override :
    Root
    → Time
    → List String
    → List String
    → ManifestOverride
    → OverrideError ⊎ List (String × String)
unfolding parse_manifest_date trim_space
validate_override root now products paths o =
    if any (λ field. trim_space field == "") (required_fields o)
    then inl missing_field
    else if any (λ p. p == o.product) products
    then inl duplicate_product
    else if any (λ p. p == o.path) paths
    then inl duplicate_path
    else if not (starts_with o.source_url "https://")
    then inl not_https
    else if not (is_https (root.parse_url o.source_url))
    then inl invalid_url
    else with_review o now
        (review_between (parse_manifest_date root o.reviewed_on)
          (parse_manifest_date root o.review_due_on))
        (check_path root o)

-- The warnings of an override and of those behind it, or the first error.
abbrev pub followed_by :
    ℕ
    → OverrideError ⊎ List (String × String)
    → ManifestError ⊎ List (String × String)
    → ManifestError ⊎ List (String × String)
followed_by i (inl e) rest = inl (invalid_override i e)
followed_by i (inr warnings) (inl e) = inl e
followed_by i (inr warnings) (inr later) = inr (warnings ++ later)

-- The loop over the overrides, from the index `i` on.
unfoldable pub validate_overrides :
    Root
    → Time
    → ℕ
    → List String
    → List String
    → List ManifestOverride
    → ManifestError ⊎ List (String × String)
validate_overrides root now i products paths [] = inr []
validate_overrides root now i products paths (o ∷ rest) =
    followed_by i (validate_override root now products paths o)
      (validate_overrides root now (suc i) (o.product ∷ products) (o.path ∷ paths) rest)

abbrev pub has_entry : Manifest → String → Bool
has_entry m file = any (λ path. path == file) (map (λ o. o.path) m.overrides)

-- The check of the API files behind the loop.
abbrev pub check_listing :
    Manifest
    → Option (List String)
    → ManifestError ⊎ List (String × String)
    → ManifestError ⊎ List (String × String)
check_listing m files (inl e) = inl e
check_listing m none (inr warnings) = inl no_listing
check_listing m (some files) (inr warnings) =
    if any (λ file. not (has_entry m file)) files then inl unlisted_file else inr warnings

abbrev pub is_current_schema : ℤ → Bool
is_current_schema (pos n) = eqb n 1
is_current_schema (negsuc n) = false

abbrev pub check_directory :
    Option FileInfo
    → ManifestError ⊎ List (String × String)
    → ManifestError ⊎ List (String × String)
check_directory none rest = inl no_api_directory
check_directory (some symlink) rest = inl api_is_symlink
check_directory (some regular) rest = inl api_not_directory
check_directory (some irregular) rest = inl api_not_directory
check_directory (some directory) rest = rest

abbrev pub check_manifest : Root → Time → Option Manifest → ManifestError ⊎ List (String × String)
check_manifest root now none = inl no_manifest
check_manifest root now (some m) =
    if is_current_schema m.schema_version
    then check_directory (root.stat "api")
        (check_listing m root.api_files (validate_overrides root now 0 [] [] m.overrides))
    else inl other_schema

-- `validateManifest`; the result is the warnings.
unfoldable pub validate_manifest : Root → Time → ManifestError ⊎ List (String × String)
validate_manifest root now = check_manifest root now root.manifest
