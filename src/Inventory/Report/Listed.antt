-- ===== src/Inventory/Report/Listed.antt =====
-- pkg/inventory/wiz/helpers.go, generic.go: the resources that `ListResources` returns.
use mathlib.Core.List.{Memᴰ}
use version_guard.Base.{Bool, ◌≡◌, String, true, some, List, ◌∷◌, All, inr}
use version_guard.Types.{Time, Resource}
use version_guard.Config.{ResourceConfig}
use version_guard.Inventory.Columns.{ColumnIndex, Row, build_column_index, has_column, column_value}
use version_guard.Inventory.Client.{Client, get_report_data}
use version_guard.Inventory.Source.{
  Externals, required_columns, parse_resource_row, native_type_column,
}
use version_guard.Inventory.Source.Rows.{IsOfRow}
use version_guard.Inventory.Source.Patterns.{Accepts}
use version_guard.Inventory.Report.{Call, report_id_of, named}

-- The resource is that of one of the rows, whose native type the pattern stands for.
abbrev pub IsOfReport : Externals → ResourceConfig → ColumnIndex → List Row → Resource → Type 0
IsOfReport x cfg cols rows r =
    (row : Row) × Memᴰ row rows
    × Accepts cfg.inventory.native_type_pattern (column_value cols row native_type_column)
    × IsOfRow x cfg cols row r

-- A row whose native type the pattern stands for is listed, if its resource can be made.
abbrev pub IsKept : Externals → ResourceConfig → ColumnIndex → List Resource → Row → Type 0
IsKept x cfg cols rs row =
    Accepts cfg.inventory.native_type_pattern (column_value cols row native_type_column)
    → (now : Time) × ((r : Resource)
        → parse_resource_row x cfg now cols row ≡ inr (some r)
        → Memᴰ r rs)

-- What a listing without an error tells: the ID of a report is configured, the client answers with the
-- header and the rows of that report, the header has each column that is required, each resource is
-- of one of these rows, and each row of the right type whose resource can be made is listed.
pub record IsListed (call : Call) (cfg : ResourceConfig) (c : Client) (rs : List Resource)
    : Type 0 where
  pub report_id : String
  pub header : Row
  pub rows : List Row
  pub configured : named (report_id_of call.unmarshal_ids call.env cfg.id) ≡ inr report_id
  pub answered :
      (get_report_data call.api call.readings c report_id (required_columns cfg)).0
      ≡ inr (header ∷ rows)
  pub has_columns :
      All (λ name. has_column (build_column_index header) name ≡ true) (required_columns cfg)
  pub of_rows : All (IsOfReport call.externals cfg (build_column_index header) rows) rs
  pub kept : All (IsKept call.externals cfg (build_column_index header) rs) rows
