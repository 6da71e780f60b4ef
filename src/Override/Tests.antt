-- ===== src/Override/Tests.antt =====
-- Tests of the overrides: a manifest with one override, of MySQL.
use version_guard.Base.{
  ◌≡◌, refl, none, some, [], ◌∷◌, ◌==◌, if◌then◌else◌, inr, false, eqb, ◌*◌, trim_space,
  trim_prefix, contains, split, join,
}
use version_guard.Types.{Time}
use version_guard.Types.Elapsed.{pos}
use version_guard.EndOfLife.{ProductCycle, Value}
use version_guard.EndOfLife.Dates.{time_parse}
use version_guard.EndOfLife.Validation.{
  validate_product_cycle, validate_optional_date, validate_date_or_boolean,
}
use version_guard.EndOfLife.Client.{end_of_input}
use version_guard.Override.Paths.{clean, clean_segments, extension, trim_suffix}
use version_guard.Override.{
  ManifestOverride, FileInfo, Root, parse_manifest_date, check_path, validate_override,
  validate_overrides, validate_manifest,
}
use version_guard.Override.Sound.{IsSound, validate_manifest-IsSound}

abbrev mysql : ManifestOverride
mysql = record {
  product = "mysql";
  path = "api/mysql.json";
  reason = "a cycle is missing";
  owner = "databases";
  source_url = "https://dev.mysql.com/doc";
  reviewed_on = "2026-08-05";
  review_due_on = "2026-09-04";
}

abbrev cycle : ProductCycle
cycle = record {
  cycle = "8.0";
  release_date = "";
  support = Value.nil;
  eol = Value.nil;
  extended_support = Value.nil;
  lts = Value.nil;
  latest = "";
  latest_release_date = "";
}

-- The days of the review, as `format_date` reads them back.
abbrev reviewed : Time
reviewed = 740198 * 86_400_000_000_000

abbrev root : Root
root = record {
  manifest = some (record { overrides = mysql ∷ []; schema_version = pos 1 });
  stat = λ path. if path == "api" then some FileInfo.directory else some FileInfo.regular;
  read = λ path. some (record {
    decoded = record { cycles = some (some cycle ∷ []); fails = false };
    trailer = end_of_input;
  });
  api_files = some ("api/mysql.json" ∷ []);
  parse_url = λ url. some (record { scheme = "https"; host = "dev.mysql.com" });
  format_date = λ t. if eqb t reviewed then "2026-08-05" else "2026-09-04";
}

path_is_direct : check_path root mysql ≡ none
unfolding check_path clean clean_segments split join extension trim_suffix trim_prefix contains
    validate_product_cycle validate_optional_date validate_date_or_boolean trim_space
path_is_direct = refl

escape_is_cleaned : clean "api/../manifest.json" ≡ "manifest.json"
unfolding clean clean_segments split join
escape_is_cleaned = refl

days : time_parse "2026-08-05" ≡ some reviewed
unfolding time_parse
days = refl

root_is_valid : validate_manifest root reviewed ≡ inr []
unfolding validate_manifest validate_overrides validate_override parse_manifest_date time_parse
    check_path clean clean_segments split join extension trim_suffix trim_prefix contains
    validate_product_cycle validate_optional_date validate_date_or_boolean trim_space
root_is_valid = refl

validate_manifest-IsSound_example : IsSound root
validate_manifest-IsSound_example = validate_manifest-IsSound root reviewed [] root_is_valid
