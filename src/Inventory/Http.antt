-- ===== src/Inventory/Http.antt =====
-- pkg/inventory/wiz/http_client.go: the metadata of a report that `GetReport` accepts, and the retries
-- of `doGraphQL`. HTTP and the JSON decoders are parameters: the answers to the requests. The sum of
-- the interval is exact, without the wrap-around of an interval of more than 2^63 nanoseconds.
pub mod Accepted
pub mod Retried
use version_guard.Base.{
  ℕ, zero, suc, ◌+◌, ◌*◌, ◌-◌, String, Bool, true, false, not, ◌==◌, ◌&&◌, ◌||◌, Option, none, some,
  List, [], ◌∷◌, ltb, eqb, if◌then◌else◌, ◌⊎◌, inl, inr, trim_space, contains,
}
use version_guard.Types.{Time, zero_time}
use version_guard.Types.Elapsed.{ℤ, pos, negsuc}
use version_guard.Inventory.Client.{Report, hour, report_freshness_grace}

pub record RunResults : Type 0 where
  pub row_count : Option ℤ
  pub type : String

pub record ReportRun : Type 0 where
  pub run_at : Time
  pub results : Option RunResults
  pub status : String
  pub url : String

pub record ReportResponse : Type 0 where
  pub last_run : Option ReportRun
  pub id : String
  pub name : String
  pub run_interval_hours : ℤ

pub data MetadataError : Type 0 where
  not_found identity_mismatch no_name no_last_run not_completed no_url no_run_time : MetadataError
  invalid_interval no_results unsupported_type no_row_count invalid_row_count : MetadataError
  in_future stale : MetadataError

-- `maxFutureClockSkew`
abbrev pub max_future_clock_skew : ℕ
max_future_clock_skew = 300_000_000_000

abbrev pub is_supported_type : String → Bool
is_supported_type type =
    type == "ReportRunResultsGraphQuery"
    || type == "ReportRunResultsCloudResource"
    || type == "ReportRunResultsCloudResourceV2"

-- The last checks, with the interval and the number of rows at hand.
unfoldable pub validate_times : ReportResponse → ReportRun → ℕ → ℕ → Time → MetadataError ⊎ Report
validate_times report run hours rows now =
    if ltb (now + max_future_clock_skew) run.run_at
    then inl in_future
    else if ltb (hours * hour + report_freshness_grace) (now - run.run_at)
    then inl stale
    else inr (record {
      id = report.id;
      name = report.name;
      download_url = run.url;
      last_run = run.run_at;
      run_interval_hours = hours;
      expected_rows = rows;
    })

abbrev pub validate_rows : ReportResponse → ReportRun → ℕ → Option ℤ → Time → MetadataError ⊎ Report
validate_rows report run hours none now = inl no_row_count
validate_rows report run hours (some (negsuc n)) now = inl invalid_row_count
validate_rows report run hours (some (pos rows)) now = validate_times report run hours rows now

abbrev pub validate_results :
    ReportResponse → ReportRun → ℕ → Option RunResults → Time → MetadataError ⊎ Report
validate_results report run hours none now = inl no_results
validate_results report run hours (some results) now =
    if is_supported_type results.type
    then validate_rows report run hours results.row_count now
    else inl unsupported_type

abbrev pub validate_interval : ReportResponse → ReportRun → ℤ → Time → MetadataError ⊎ Report
validate_interval report run (pos zero) now = inl invalid_interval
validate_interval report run (negsuc n) now = inl invalid_interval
validate_interval report run (pos (suc n)) now = validate_results report run (suc n) run.results now

unfoldable pub validate_run : ReportResponse → Option ReportRun → Time → MetadataError ⊎ Report
unfolding validate_times trim_space
validate_run report none now = inl no_last_run
validate_run report (some run) now =
    if not (run.status == "COMPLETED")
    then inl not_completed
    else if trim_space run.url == ""
    then inl no_url
    else if eqb run.run_at zero_time
    then inl no_run_time
    else validate_interval report run report.run_interval_hours now

unfoldable pub validate_report_metadata :
    Option ReportResponse → String → Time → MetadataError ⊎ Report
unfolding validate_run trim_space
validate_report_metadata none report_id now = inl not_found
validate_report_metadata (some report) report_id now =
    if not (report.id == report_id)
    then inl identity_mismatch
    else if trim_space report.name == ""
    then inl no_name
    else validate_run report report.last_run now

-- What a request comes to: no answer, an answer that cannot be read, or a status and a body with the
-- message of its first error, `none` without one; `unparsable` is a body that is no GraphQL answer.
pub data HttpAnswer : Type 0 where
  unsent unread unparsable_data : HttpAnswer
  status : ℕ → String → HttpAnswer
  unparsable : HttpAnswer
  graphql_error : String → HttpAnswer
  answered : ReportResponse → HttpAnswer

pub data GraphqlError : Type 0 where
  request_failed read_failed not_graphql bad_data retries_exhausted cancelled : GraphqlError
  bad_status : ℕ → GraphqlError
  reported : String → GraphqlError

-- What one request decides: an end, or another try after the wait.
pub data Decision : Type 0 where
  retry : Decision
  finish : GraphqlError ⊎ ReportResponse → Decision

abbrev pub is_rate_limit : String → Bool
is_rate_limit message = contains message "Rate limit exceeded"

-- The body of the loop of `doGraphQL`.
unfoldable pub decide : HttpAnswer → Decision
unfolding contains
decide unsent = finish (inl request_failed)
decide unread = finish (inl read_failed)
decide (status code body) = if is_rate_limit body then retry else finish (inl (bad_status code))
decide unparsable = finish (inl not_graphql)
decide (graphql_error message) =
    if is_rate_limit message then retry else finish (inl (reported message))
decide unparsable_data = finish (inl bad_data)
decide (answered report) = finish (inr report)

abbrev pub max_retries : ℕ
max_retries = 5

-- The loop, with the tries that are left: the result, and the number of requests that were sent.
-- `send` gives the answer to a request by its number, `is_done` whether the context ends in the wait.
module _ (send : ℕ → HttpAnswer) (is_done : ℕ → Bool) where
  abbrev pub go_on :
      ℕ → Decision → (GraphqlError ⊎ ReportResponse) × ℕ → (GraphqlError ⊎ ReportResponse) × ℕ
  go_on i (finish result) later = (result, suc i)
  go_on i retry later = if is_done i then (inl cancelled, suc i) else later

  unfoldable pub try_from : ℕ → ℕ → (GraphqlError ⊎ ReportResponse) × ℕ
  unfolding decide
  try_from zero i = (inl retries_exhausted, i)
  try_from (suc left) i = go_on i (decide (send i)) (try_from left (suc i))

  unfoldable pub do_graphql : (GraphqlError ⊎ ReportResponse) × ℕ
  unfolding try_from
  do_graphql = try_from max_retries 0
