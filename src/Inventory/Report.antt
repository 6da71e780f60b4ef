-- ===== src/Inventory/Report.antt =====
-- pkg/inventory/wiz/helpers.go, generic.go: the resources of a report (`parseWizReport`,
-- `ListResources`, `GetResource`). The environment variable WIZ_REPORT_IDS and its JSON decoder are
-- parameters. The clock is read for each row, by its number.
pub mod Tests
pub mod Listed
pub mod Parts
use version_guard.Base.{
  ℕ, zero, suc, String, Bool, true, false, ◌==◌, Option, none, some, List, [], ◌∷◌, Map, lookup,
  if◌then◌else◌, ◌⊎◌, inl, inr,
}
use version_guard.Types.{Time, Resource, ResourceType}
use version_guard.Config.{ResourceConfig}
use version_guard.Inventory.Columns.{ColumnIndex, Row, RowError, build_column_index, column_value}
use version_guard.Inventory.Client.{
  Client, WizClient, Readings, ReportError, out_of_range, get_report_data,
}
use version_guard.Inventory.Source.{
  Externals, native_type_column, required_columns, matches_native_type, parse_resource_row,
}

-- `filterRow`
unfoldable pub is_wanted : ResourceConfig → ColumnIndex → Row → Bool
unfolding matches_native_type column_value
is_wanted cfg cols row =
    matches_native_type cfg.inventory.native_type_pattern (column_value cols row native_type_column)

-- A row that fails to parse, or is dropped, adds nothing.
abbrev pub added : RowError ⊎ Option Resource → List Resource → List Resource
added (inl e) later = later
added (inr none) later = later
added (inr (some r)) later = r ∷ later

unfoldable pub parse_rows :
    Externals → ResourceConfig → (ℕ → Time) → ColumnIndex → ℕ → List Row → List Resource
unfolding is_wanted parse_resource_row
parse_rows x cfg clock cols i [] = []
parse_rows x cfg clock cols i (row ∷ rows) =
    let later = parse_rows x cfg clock cols (suc i) rows in
    if is_wanted cfg cols row
    then added (parse_resource_row x cfg (clock i) cols row) later
    else later

pub data SourceError : Type 0 where
  ids_not_set ids_not_json no_report_id not_found : SourceError
  unhealthy : ReportError → SourceError

-- `parseWizReport`, once the client has answered.
unfoldable pub parse_wiz_report :
    Externals → ResourceConfig → (ℕ → Time) → ReportError ⊎ List Row → SourceError ⊎ List Resource
unfolding parse_rows build_column_index
parse_wiz_report x cfg clock (inl e) = inl (unhealthy e)
parse_wiz_report x cfg clock (inr []) = inl (unhealthy out_of_range)
parse_wiz_report x cfg clock (inr (header ∷ rows)) =
    inr (parse_rows x cfg clock (build_column_index header) 0 rows)

abbrev pub id_in : Option (Map String) → String → SourceError ⊎ Option String
id_in none resource_id = inl ids_not_json
id_in (some ids) resource_id = inr (lookup resource_id ids)

-- `getReportIDFromMap`; a missing ID is `none`.
unfoldable pub report_id_of :
    (String → Option (Map String)) → String → String → SourceError ⊎ Option String
unfolding lookup
report_id_of unmarshal_ids env resource_id =
    if env == "" then inl ids_not_set else id_in (unmarshal_ids env) resource_id

-- An ID that is missing, or empty, is an error.
abbrev pub named : SourceError ⊎ Option String → SourceError ⊎ String
named (inl e) = inl e
named (inr none) = inl no_report_id
named (inr (some id)) = if id == "" then inl no_report_id else inr id

-- What the source calls in one `ListResources`.
pub record Call : Type 0 where
  pub externals : Externals
  pub unmarshal_ids : String → Option (Map String)
  pub env : String
  pub api : WizClient
  pub readings : Readings
  pub clock : ℕ → Time

abbrev pub list_from :
    Call → ResourceConfig → Client → SourceError ⊎ String → (SourceError ⊎ List Resource) × Client
list_from call cfg c (inl e) = (inl e, c)
list_from call cfg c (inr report_id) =
    let answer = get_report_data call.api call.readings c report_id (required_columns cfg) in
    (parse_wiz_report call.externals cfg call.clock answer.0, answer.1)

unfoldable pub list_resources :
    Call → ResourceConfig → Client → (SourceError ⊎ List Resource) × Client
unfolding report_id_of get_report_data parse_wiz_report required_columns
list_resources call cfg c =
    list_from call cfg c (named (report_id_of call.unmarshal_ids call.env cfg.id))

unfoldable pub find_resource : String → List Resource → SourceError ⊎ Resource
find_resource id [] = inl not_found
find_resource id (r ∷ rs) = if r.id == id then inr r else find_resource id rs

abbrev pub found_in : String → SourceError ⊎ List Resource → SourceError ⊎ Resource
found_in id (inl e) = inl e
found_in id (inr rs) = find_resource id rs

unfoldable pub get_resource :
    Call → ResourceConfig → Client → String → (SourceError ⊎ Resource) × Client
unfolding list_resources find_resource
get_resource call cfg c id =
    let listed = list_resources call cfg c in (found_in id listed.0, listed.1)
