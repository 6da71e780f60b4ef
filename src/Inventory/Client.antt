-- ===== src/Inventory/Client.antt =====
-- pkg/inventory/wiz/client.go: `Client`, which caches the reports that it downloads.
-- The API of Wiz (`WizClient`) and the CSV reader are parameters: what they answer in one call. One
-- caller runs at a time: `singleflight` and the locks are not modelled. Of an error its kind is kept.
-- The interval and the number of rows of a report are not negative: `GetReport` rejects others.
pub mod Cached
pub mod Sound
use version_guard.Base.{
  ℕ, suc, ◌+◌, ◌*◌, String, Bool, true, false, not, ◌==◌, ◌||◌, Option, none, some, List, [], ◌∷◌,
  Map, lookup, insert, length, leb, eqb, if◌then◌else◌, ◌⊎◌, inl, inr,
}
use version_guard.Types.{Time, zero_time}
use version_guard.Inventory.Columns.{Row, build_column_index, has_column}

pub record Report : Type 0 where
  pub id : String
  pub name : String
  pub download_url : String
  pub last_run : Time
  pub run_interval_hours : ℕ
  pub expected_rows : ℕ

pub record CachedReport : Type 0 where
  pub data_ : List Row
  pub fetched_at : Time
  pub freshness_deadline : Time

pub record Client : Type 0 where
  pub cache : Map CachedReport
  pub cache_ttl : ℕ

abbrev pub hour : ℕ
hour = 3_600_000_000_000

abbrev pub default_cache_ttl : ℕ
default_cache_ttl = hour

-- `reportFreshnessGrace`
abbrev pub report_freshness_grace : ℕ
report_freshness_grace = 6 * hour

unfoldable pub new_client : ℕ → Client
new_client cache_ttl = record {
  cache = [];
  cache_ttl = if eqb cache_ttl 0 then default_cache_ttl else cache_ttl;
}

-- `WizClient`, and `csv.Reader.ReadAll` of what is downloaded.
pub record WizClient : Type 0 where
  pub get_access_token : Option String
  pub get_report : String → String → Option Report
  pub download_report : String → Option String
  pub read_all : String → Option (List Row)

-- `out_of_range` is the panic of `rows[0]`.
pub data ReportError : Type 0 where
  no_token no_report no_download bad_csv no_header wrong_rows bad_schema out_of_range : ReportError

-- The readings of the clock: at the two tests of each look into the cache, and for the entry.
pub record Readings : Type 0 where
  pub first_since : Time
  pub first_now : Time
  pub second_since : Time
  pub second_now : Time
  pub stored : Time

-- `time.Since(fetchedAt) >= cacheTTL`
abbrev pub is_expired : ℕ → Time → CachedReport → Bool
is_expired cache_ttl since entry = leb (entry.fetched_at + cache_ttl) since

-- `!deadline.IsZero() && !time.Now().Before(deadline)`
abbrev pub is_overdue : Time → CachedReport → Bool
is_overdue now entry =
    if eqb entry.freshness_deadline zero_time then false else leb entry.freshness_deadline now

abbrev pub fresh_data : ℕ → Time → Time → Option CachedReport → Option (List Row)
fresh_data cache_ttl since now none = none
fresh_data cache_ttl since now (some entry) =
    if is_expired cache_ttl since entry || is_overdue now entry then none else some entry.data_

-- `lookup`
unfoldable pub cached_rows : Client → Time → Time → String → Option (List Row)
unfolding lookup
cached_rows c since now report_id = fresh_data c.cache_ttl since now (lookup report_id c.cache)

abbrev pub all_present : Row → List String → Option ReportError
all_present header [] = none
all_present header (name ∷ names) =
    if has_column (build_column_index header) name
    then all_present header names
    else some bad_schema

-- `validateRequiredColumns`; `none` is success.
unfoldable pub validate_required_columns : List Row → List String → Option ReportError
unfolding build_column_index has_column
validate_required_columns [] required = some out_of_range
validate_required_columns (header ∷ rows) required = all_present header required

abbrev pub entry_of : Report → List Row → Time → CachedReport
entry_of report rows stored = record {
  data_ = rows;
  fetched_at = stored;
  freshness_deadline =
      report.last_run + (report.run_interval_hours * hour + report_freshness_grace);
}

-- The rows are cached when the caller's columns are there.
abbrev pub stored_if :
    Option ReportError → Client → String → CachedReport → (ReportError ⊎ List Row) × Client
stored_if none c report_id entry =
    (inr entry.data_, record c { cache = insert report_id entry c.cache })
stored_if (some e) c report_id entry = (inr entry.data_, c)

-- The end of `fetchAndCache`, once the CSV is read.
unfoldable pub store_rows :
    Client → String → List String → Time → Report → List Row → (ReportError ⊎ List Row) × Client
unfolding validate_required_columns insert
store_rows c report_id required stored report [] = (inl no_header, c)
store_rows c report_id required stored report (header ∷ rows) =
    if eqb (length rows) report.expected_rows
    then stored_if (validate_required_columns (header ∷ rows) required) c report_id
        (entry_of report (header ∷ rows) stored)
    else (inl wrong_rows, c)

-- The calls of `fetchAndCache` in their order, each with the answer of the one before.
module _ (api : WizClient) where
  abbrev pub read_rows : Report → Option (List Row) → ReportError ⊎ Report × List Row
  read_rows report none = inl bad_csv
  read_rows report (some rows) = inr (report, rows)

  abbrev pub read_body : Report → Option String → ReportError ⊎ Report × List Row
  read_body report none = inl no_download
  read_body report (some body) = read_rows report (api.read_all body)

  abbrev pub read_report : Option Report → ReportError ⊎ Report × List Row
  read_report none = inl no_report
  read_report (some report) = read_body report (api.download_report report.download_url)

  abbrev pub read_with : String → Option String → ReportError ⊎ Report × List Row
  read_with report_id none = inl no_token
  read_with report_id (some token) = read_report (api.get_report token report_id)

abbrev pub store_answer :
    Client
    → String
    → List String
    → Time
    → ReportError ⊎ Report × List Row
    → (ReportError ⊎ List Row) × Client
store_answer c report_id required stored (inl e) = (inl e, c)
store_answer c report_id required stored (inr (report, rows)) =
    store_rows c report_id required stored report rows

unfoldable pub fetch_and_cache :
    WizClient → Client → String → List String → Time → (ReportError ⊎ List Row) × Client
unfolding store_rows
fetch_and_cache api c report_id required stored =
    store_answer c report_id required stored (read_with api report_id api.get_access_token)

abbrev pub passing : Option ReportError → List Row → ReportError ⊎ List Row
passing none rows = inr rows
passing (some e) rows = inl e

-- The validation of the caller's columns, which ends every answer with rows.
abbrev pub checked : ReportError ⊎ List Row → List String → ReportError ⊎ List Row
checked (inl e) required = inl e
checked (inr rows) required = passing (validate_required_columns rows required) rows

-- Rows from the cache, or what comes without them.
abbrev pub hit_or :
    Option (List Row)
    → List String
    → Client
    → (ReportError ⊎ List Row) × Client
    → (ReportError ⊎ List Row) × Client
hit_or (some rows) required c next = (checked (inr rows) required, c)
hit_or none required c next = next

unfoldable pub get_report_data :
    WizClient → Readings → Client → String → List String → (ReportError ⊎ List Row) × Client
unfolding cached_rows fetch_and_cache validate_required_columns
get_report_data api r c report_id required =
    let fetched = fetch_and_cache api c report_id required r.stored in
    hit_or (cached_rows c r.first_since r.first_now report_id) required c (
      hit_or (cached_rows c r.second_since r.second_now report_id) required c
        (checked fetched.0 required, fetched.1))
