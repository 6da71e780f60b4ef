-- ===== src/Inventory/Report/Parts.antt =====
-- pkg/inventory/wiz/helpers.go: the rows of a report in two parts.
use version_guard.Base.{
  ℕ, suc, ◌+◌, ◌≡◌, refl, ap, ◌∙◌, Option, none, some, List, [], ◌∷◌, ◌++◌, length, arith,
  Bool-cases, ◌⊎◌, inl, inr,
}
use version_guard.Types.{Time, Resource}
use version_guard.Config.{ResourceConfig}
use version_guard.Inventory.Columns.{ColumnIndex, Row, RowError}
use version_guard.Inventory.Source.{Externals, parse_resource_row}
use version_guard.Inventory.Report.{is_wanted, added, parse_rows}

added-append :
    (z : RowError ⊎ Option Resource) (xs ys : List Resource) → added z (xs ++ ys) ≡ added z xs ++ ys
added-append (inl e) xs ys = refl
added-append (inr none) xs ys = refl
added-append (inr (some r)) xs ys = refl

parse_rows-append_at :
    (x : Externals) (cfg : ResourceConfig) (clock : ℕ → Time) (cols : ColumnIndex) (i j : ℕ)
    (front back : List Row)
    → length front + i ≡ j
    → parse_rows x cfg clock cols i (front ++ back)
      ≡ parse_rows x cfg clock cols i front ++ parse_rows x cfg clock cols j back
unfolding parse_rows
parse_rows-append_at x cfg clock cols i j [] back e =
    ap (λ k. parse_rows x cfg clock cols k back) (omega arith)
parse_rows-append_at x cfg clock cols i j (row ∷ front) back e =
    let later = parse_rows-append_at x cfg clock cols (suc i) j front back (omega arith) in
    elim (Bool-cases (is_wanted cfg cols row)) [
      | inl wanted ↦
          let parsed = parse_resource_row x cfg (clock i) cols row in
          rw wanted (ap (added parsed) later ∙ added-append parsed _ _)
      | inr other ↦ rw other later
    ]

-- Each row stands on its own: the rows of two parts of a report give the resources of the one before
-- those of the other, whatever rows of either fail to parse, are dropped or are not of the type.
pub parse_rows-append :
    (x : Externals) (cfg : ResourceConfig) (clock : ℕ → Time) (cols : ColumnIndex) (i : ℕ)
    (front back : List Row)
    → parse_rows x cfg clock cols i (front ++ back)
      ≡ parse_rows x cfg clock cols i front ++ parse_rows x cfg clock cols (length front + i) back
parse_rows-append x cfg clock cols i front back =
    parse_rows-append_at x cfg clock cols i (length front + i) front back refl
