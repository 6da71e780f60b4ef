-- ===== src/Inventory/Columns.antt =====
-- pkg/inventory/wiz/helpers.go: the columns of a report, found by the names in its header.
pub mod Found
use version_guard.Base.{
  ℕ, zero, suc, String, Bool, Option, none, some, List, [], ◌∷◌, Map, lookup, insert, is_some, ◌==◌,
  if◌then◌else◌, ◌⊎◌, inl, inr, after_last, point,
}

abbrev pub ColumnIndex : Type 0
ColumnIndex = Map ℕ

abbrev pub Row : Type 0
Row = List String

abbrev pub column_aliases : Map String
column_aliases =
    ("versionDetails.version", "version")
    ∷ ("region", "regionLocation")
    ∷ ("cloudAccount.externalId", "cloudPlatform")
    ∷ ("name", "Name")
    ∷ []

-- An alias is not registered over a name that is there.
abbrev pub add_alias : Option String → ℕ → ColumnIndex → ColumnIndex
add_alias none i idx = idx
add_alias (some short) i idx = if is_some (lookup short idx) then idx else insert short i idx

-- The loop of `buildColumnIndex`, from the column `i` on.
unfoldable pub build_from : ℕ → Row → ColumnIndex → ColumnIndex
unfolding lookup insert after_last
build_from i [] idx = idx
build_from i (name ∷ names) idx =
    build_from (suc i) names (add_alias (after_last point name) i (insert name i idx))

unfoldable pub build_column_index : Row → ColumnIndex
unfolding build_from
build_column_index header = build_from 0 header []

-- The column of a name, or of its alias in another schema.
unfoldable pub find_column : ColumnIndex → String → Option ℕ
unfolding lookup
find_column idx name = elim (lookup name idx) [
  | some i ↦ some i
  | none ↦ elim (lookup name column_aliases) [ some alias ↦ lookup alias idx | none ↦ none ]
]

-- `row[i]`, or "" when the row is too short.
unfoldable pub cell : Row → ℕ → String
cell [] i = ""
cell (value ∷ row) zero = value
cell (value ∷ row) (suc i) = cell row i

-- `col`
unfoldable pub column_value : ColumnIndex → Row → String → String
unfolding find_column cell
column_value idx row name = elim (find_column idx name) [ some i ↦ cell row i | none ↦ "" ]

unfoldable pub has_column : ColumnIndex → String → Bool
unfolding find_column
has_column idx name = is_some (find_column idx name)

pub data RowError : Type 0 where
  no_column no_value : RowError

-- `require`
unfoldable pub require_column : ColumnIndex → Row → String → RowError ⊎ String
unfolding column_value has_column
require_column idx row name =
    let v = column_value idx row name in
    if v == "" then (if has_column idx name then inl no_value else inl no_column) else inr v
