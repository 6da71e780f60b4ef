-- ===== src/Inventory/Tests.antt =====
-- Tests of the inventory: a report with one function of AWS Lambda, a container image and a cluster.
use Prim.Native.Char.{Char}
use mathlib.Core.Bool.{false≢true}
use version_guard.Base.{
  ℕ, zero, suc, contains, inl, ◌≡◌, ◌≢◌, ◌≤◌, ◌↔◌, refl, String, Bool, true, false, ◌==◌, eq_iff,
  none, some, [], ◌∷◌, Map, inr, to_lower, trim_space, trim_left, trim_right, split, join, take,
  arith, All, not, ◌&&◌, sym, ◌∙◌,
}
use version_guard.Config.Transforms.{EngineTransform}
use version_guard.Inventory.Transforms.{apply_engine_transform}
use version_guard.Inventory.Transforms.Configured.{EngineRule, apply_engine_transform_iff}
use version_guard.Inventory.Names.{
  extract_service_from_name, end_index, is_environment_suffix, is_common_suffix,
}
use version_guard.Inventory.Names.Cut.{IsService, extract_service_from_name-IsService}
use version_guard.Inventory.Tags.{Chars, chars, same, quote, open_brace, close_brace, parse_tags}
use version_guard.Inventory.Tags.Scanned.{IsPlain}
use version_guard.Inventory.Tags.Printed.{TagIsPlain, print_tags, parse_tags-print_tags}
use version_guard.Inventory.Tags.Spaced.{spaced_tags, parse_tags-spaced_tags}
use version_guard.Inventory.Client.{Report}
use version_guard.Inventory.Source.{matches_native_type}
use version_guard.Inventory.Source.Patterns.{Accepts, matches_native_type_iff}
use version_guard.Inventory.Http.{
  graphql_error, ReportResponse, validate_report_metadata, validate_run, validate_times, do_graphql,
  HttpAnswer, GraphqlError, decide,
}
use version_guard.Inventory.Http.Accepted.{IsCurrent, validate_report_metadata-IsCurrent}
use version_guard.Inventory.Http.Retried.{Retries, do_graphql-Retries}
use version_guard.Types.Elapsed.{pos}
use version_guard.Samples.{month_before}

abbrev lower : Char → Char
lower c = c

abbrev tags : Map String
tags = ("app", "billing") ∷ ("env", "prod") ∷ []

abbrev engine_default : EngineTransform
engine_default = record {
  constant = "";
  default_if_empty = "eks";
  substring_lookup = [];
  from_version_major = none;
}

abbrev all_plain : Chars → Bool
all_plain [] = true
all_plain (c ∷ s) =
    not (same c quote) && (not (same c open_brace) && not (same c close_brace)) && all_plain s

All-IsPlain : (s : Chars) → all_plain s ≡ true → All IsPlain s
All-IsPlain [] h = tt
All-IsPlain (c ∷ s) h = ground (arith, All-IsPlain s)

differs : (s t : String) → (s == t) ≡ false → s ≢ t
differs s t h e = false≢true (sym h ∙ (eq_iff s t).1 e)

tags_are_plain : All TagIsPlain tags
tags_are_plain = (
  (differs "app" "" refl, All-IsPlain (chars "app") refl, All-IsPlain (chars "billing") refl),
  ((differs "env" "" refl, All-IsPlain (chars "env") refl, All-IsPlain (chars "prod") refl), tt),
)

parse_tags-print_tags_example : parse_tags (print_tags tags) ≡ tags
parse_tags-print_tags_example = parse_tags-print_tags tags tags_are_plain ((refl, tt), (tt, tt))

parse_tags-spaced_tags_example :
    parse_tags (spaced_tags (chars "app") (chars "billing")) ≡ ("billing", "billing") ∷ []
parse_tags-spaced_tags_example =
    parse_tags-spaced_tags (Char.char 0x61 tt) (chars "pp") (chars "billing")
      (All-IsPlain (chars "app") refl) (All-IsPlain (chars "billing") refl) refl refl

apply_engine_transform_iff_example :
    ("mysql" ≡ apply_engine_transform lower " mysql" "8.0" (some engine_default))
    ↔ EngineRule (to_lower lower (trim_space " mysql")) "8.0" engine_default "mysql"
apply_engine_transform_iff_example =
    apply_engine_transform_iff lower " mysql" "8.0" engine_default "mysql" (omega arith, tt, tt)

matches_native_type_iff_example :
    (matches_native_type "elastiCache/*/cluster" "elastiCache/Redis/cluster" ≡ true)
    ↔ Accepts "elastiCache/*/cluster" "elastiCache/Redis/cluster"
matches_native_type_iff_example =
    matches_native_type_iff "elastiCache/*/cluster" "elastiCache/Redis/cluster"

extract_service_from_name-IsService_example :
    IsService lower "payment-api-staging-db"
      (extract_service_from_name lower "payment-api-staging-db")
extract_service_from_name-IsService_example =
    extract_service_from_name-IsService lower "payment-api-staging-db"

service_runs : extract_service_from_name lower "payment-api-staging-db" ≡ "payment-api"
unfolding extract_service_from_name end_index is_environment_suffix is_common_suffix to_lower split
    join take
service_runs = refl

-- Two answers tell of the rate limit.
abbrev limited_twice : ℕ → HttpAnswer
limited_twice zero = graphql_error "Rate limit exceeded"
limited_twice (suc zero) = HttpAnswer.status 429 "Rate limit exceeded"
limited_twice (suc (suc n)) = HttpAnswer.unread

third_is_last : do_graphql limited_twice (λ i. false) ≡ (inl GraphqlError.read_failed, 3)
unfolding do_graphql decide contains
third_is_last = refl

do_graphql-Retries_example :
    let answer = do_graphql limited_twice (λ i. false) in
    Retries limited_twice (λ i. false) 5 0 answer.0 answer.1 × (answer.1 ≤ 5)
do_graphql-Retries_example = do_graphql-Retries limited_twice (λ i. false)

abbrev response : ReportResponse
response = record {
  id = "report";
  name = "lambda functions";
  run_interval_hours = pos 24;
  last_run = some (record {
    run_at = month_before;
    status = "COMPLETED";
    url = "https://example.com/report";
    results = some (record { row_count = some (pos 3); type = "ReportRunResultsGraphQuery" });
  });
}

abbrev report : Report
report = record {
  id = "report";
  name = "lambda functions";
  download_url = "https://example.com/report";
  last_run = month_before;
  run_interval_hours = 24;
  expected_rows = 3;
}

report_is_accepted : validate_report_metadata (some response) "report" month_before ≡ inr report
unfolding validate_report_metadata validate_run validate_times trim_space trim_left trim_right
report_is_accepted = refl

validate_report_metadata-IsCurrent_example : IsCurrent month_before report × (report.id ≡ "report")
validate_report_metadata-IsCurrent_example =
    validate_report_metadata-IsCurrent (some response) "report" month_before report
      report_is_accepted
