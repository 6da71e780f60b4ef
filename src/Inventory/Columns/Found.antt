-- ===== src/Inventory/Columns/Found.antt =====
-- pkg/inventory/wiz/helpers.go: which column of a header `buildColumnIndex` registers under a name.
use version_guard.Base.{
  ℕ, suc, ◌≡◌, String, Bool, false, ◌==◌, eq_iff, Option, none, some, [], ◌∷◌, lookup, insert,
  lookup-insert, if◌then◌else◌, arith, after_last, point,
}
use version_guard.Inventory.Columns.{ColumnIndex, Row, add_alias, build_from, build_column_index}

-- The last column of exactly this name.
pub last_exact : ℕ → String → Row → Option ℕ
last_exact i name [] = none
last_exact i name (h ∷ hs) = elim (last_exact (suc i) name hs) [
  | some j ↦ some j
  | none ↦ if h == name then some i else none
]

abbrev is_short : Option String → String → Bool
is_short none name = false
is_short (some short) name = short == name

-- The first column with this name behind its last point.
pub first_short : ℕ → String → Row → Option ℕ
first_short i name [] = none
first_short i name (h ∷ hs) =
    let later = first_short (suc i) name hs in
    if is_short (after_last point h) name then some i else later

infixr 30 ◌or◌
abbrev pub ◌or◌ : Option ℕ → Option ℕ → Option ℕ
none or later = later
some i or later = some i

lookup-add_alias :
    (short : Option String) (i : ℕ) (idx : ColumnIndex) (name : String)
    → lookup name (add_alias short i idx)
      ≡ (lookup name idx or (if is_short short name then some i else none))
lookup-add_alias none i idx name = ground arith
lookup-add_alias (some short) i idx name =
    ground (arith, lookup-insert short name i idx, eq_iff short name)

lookup-build_from :
    (i : ℕ) (header : Row) (idx : ColumnIndex) (name : String)
    → lookup name (build_from i header idx)
      ≡ (last_exact i name header or lookup name idx or first_short i name header)
unfolding build_from last_exact first_short
lookup-build_from i [] idx name = ground arith
lookup-build_from i (h ∷ hs) idx name = ground (
  arith,
  lookup-build_from (suc i) hs (add_alias (after_last point h) i (insert h i idx)) name,
  lookup-add_alias (after_last point h) i (insert h i idx) name,
  lookup-insert h name i idx,
)

-- A name stands for the last column of exactly this name, or without one for the first column with
-- the name behind its last point.
pub lookup-build_column_index :
    (header : Row) (name : String)
    → lookup name (build_column_index header)
      ≡ (last_exact 0 name header or first_short 0 name header)
unfolding build_column_index lookup
lookup-build_column_index header name = lookup-build_from 0 header [] name
