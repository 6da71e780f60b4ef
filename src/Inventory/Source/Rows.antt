-- ===== src/Inventory/Source/Rows.antt =====
-- pkg/inventory/wiz/generic.go: the columns that the mappings name, and the resource of a row.
use mathlib.Core.Sum.{inl-ne-inr}
use version_guard.Base.{
  ◌≡◌, refl, sym, ap, ◌∙◌, String, ◌==◌, eq_iff, Option, none, some, [], ◌∷◌, Map, All, lookup,
  insert, lookup-insert, Fresh, IsUnique, lookup-Fresh, if◌then◌else◌, arith, Bool-cases, ◌⊎◌, inl,
  inr, inr-injective, if_cases, subst, some-injective,
}
use version_guard.Types.{Time, Resource}
use version_guard.Config.{InventoryConfig, ResourceConfig}
use version_guard.Config.Checks.{MappingsAreReady}
use version_guard.Config.Ready.{IsGiven, IsGiven-iff}
use version_guard.Inventory.Columns.{
  ColumnIndex, Row, RowError, has_column, column_value, require_column,
}
use version_guard.Inventory.Source.{
  Externals, column, mapped, insert_all, all_mappings, with_id, with_version, parse_resource_row,
  source_provider, resource_of,
}
use version_guard.Inventory.Transforms.{apply_version_transform}

abbrev over : Option String → Option String → Option String
over (some v) later = some v
over none later = later

lookup-insert_all :
    (key : String) (entries m : Map String)
    → IsUnique entries
    → lookup key (insert_all entries m) ≡ over (lookup key entries) (lookup key m)
unfolding insert_all lookup
lookup-insert_all key [] m u = refl
lookup-insert_all key ((k, v) ∷ entries) m (fresh, u) = elim (Bool-cases (k == key)) [
  | inl e ↦
      rw
        (
          lookup-insert_all key entries (insert k v m) u,
          lookup-insert k key v m,
          e,
          lookup-Fresh key entries (subst (λ j. Fresh j entries) ((eq_iff k key).0 e) fresh),
        )
        refl
  | inr n ↦ rw (lookup-insert_all key entries (insert k v m) u, lookup-insert k key v m, n) refl
]

lookup-All :
    (P : String × String → Type 0) (k v : String) (m : Map String)
    → All P m
    → lookup k m ≡ some v
    → P (k, v)
unfolding lookup
lookup-All P k v [] h e = absurd cc
lookup-All P k v ((j, w) ∷ m) h e = elim (if_cases (j == k) e) [
  | inl p ↦ subst P (ground (arith, eq_iff j k, p.0, some-injective w v p.1)) h.0
  | inr p ↦ lookup-All P k v m h.1 p.1
]

mapped-over : (o : Option String) → mapped o ≡ mapped (over o none)
mapped-over none = refl
mapped-over (some v) = refl

-- The two ways to read a key, with its entries at hand.
column_read :
    (required optional : Option String)
    → ((v : String) → required ≡ some v → IsGiven v × (optional ≡ none))
    → (if mapped required == "" then mapped optional else mapped required)
      ≡ mapped (over optional (over required none))
column_read none optional h = mapped-over optional
column_read (some v) optional h = rw ((h v refl).1, (IsGiven-iff v).1 (h v refl).0) refl

lookup-all_mappings :
    (i : InventoryConfig) (key : String)
    → IsUnique i.required_mappings
    → IsUnique i.field_mappings
    → lookup key (all_mappings i)
      ≡ over (lookup key i.field_mappings) (over (lookup key i.required_mappings) none)
unfolding all_mappings lookup
lookup-all_mappings i key u w =
    lookup-insert_all key i.field_mappings (insert_all i.required_mappings []) w
    ∙ ap (over (lookup key i.field_mappings)) (lookup-insert_all key i.required_mappings [] u)

-- With mappings as the loader leaves them, in Go maps that hold each key once, a key's column is the
-- one that the union of the two maps gives it, whichever of them it stands in.
pub column-all_mappings :
    (i : InventoryConfig) (key : String)
    → MappingsAreReady i
    → IsUnique i.required_mappings
    → IsUnique i.field_mappings
    → column i key ≡ mapped (lookup key (all_mappings i))
unfolding column all_mappings
column-all_mappings i key ready u w =
    column_read (lookup key i.required_mappings) (lookup key i.field_mappings) (λ v e. (
      lookup-All (λ entry. IsGiven entry.1) key v i.required_mappings ready.1 e,
      lookup-All (λ entry. lookup entry.0 i.field_mappings ≡ none) key v i.required_mappings ready.2
          e,
    ))
    ∙ ap mapped (sym (lookup-all_mappings i key u w))

with_id-inr :
    (make : String → Option Resource) (z : RowError ⊎ String) (r : Resource)
    → with_id make z ≡ inr (some r)
    → (id : String) × (z ≡ inr id) × (make id ≡ some r)
with_id-inr make (inl e) r h = absurd (inl-ne-inr h)
with_id-inr make (inr id) r h = (id, refl, inr-injective _ _ h)

with_version-some :
    (make : String → Resource) (o : Option String) (r : Resource)
    → with_version make o ≡ some r
    → (version : String) × (o ≡ some version) × (make version ≡ r)
with_version-some make none r h = absurd cc
with_version-some make (some version) r h = (version, refl, some-injective _ _ h)

require_column-inr :
    (cols : ColumnIndex) (row : Row) (name value : String)
    → require_column cols row name ≡ inr value
    → IsGiven value × (value ≡ column_value cols row name)
unfolding require_column
require_column-inr cols row name value h = elim (if_cases (column_value cols row name == "") h) [
  | inl p ↦ absurd (no_value p.1)
  | inr p ↦
      let same = inr-injective _ _ p.1 in
      (subst IsGiven same ((IsGiven-iff (column_value cols row name)).0 p.0), sym same)
]
  where
    no_value :
        (if has_column cols name then inl RowError.no_value else inl RowError.no_column) ≡ inr value
        → ⊥
    no_value g = elim (if_cases (has_column cols name) g) [
      | inl p ↦ inl-ne-inr p.1
      | inr p ↦ inl-ne-inr p.1
    ]

abbrev pub IsOfRow : Externals → ResourceConfig → ColumnIndex → Row → Resource → Type 0
IsOfRow x cfg cols row r =
    IsGiven r.id
    × (r.id ≡ column_value cols row (column cfg.inventory "resource_id"))
    × (r.type ≡ cfg.id)
    × (r.cloud_provider ≡ source_provider cfg)
    × (apply_version_transform x.unmarshal (column_value cols row (column cfg.inventory "version"))
          cfg.transforms.version (column_value cols row)
        ≡ some r.current_version)

-- A resource that is made of a row has the ID of the row, which is not empty, the type and the
-- provider of the configuration, and the version that the declared transform gives the row.
pub parse_resource_row-IsOfRow :
    (x : Externals) (cfg : ResourceConfig) (now : Time) (cols : ColumnIndex) (row : Row)
    (r : Resource)
    → parse_resource_row x cfg now cols row ≡ inr (some r)
    → IsOfRow x cfg cols row r
unfolding parse_resource_row resource_of
parse_resource_row-IsOfRow x cfg now cols row r h =
    let (id, found, made) =
      with_id-inr _ (require_column cols row (column cfg.inventory "resource_id")) r h in
    let (version, transformed, same) =
      with_version-some (resource_of x cfg now cols row id) _ r made in
    let (given, value) =
      require_column-inr cols row (column cfg.inventory "resource_id") id found in
    subst (IsOfRow x cfg cols row) same (given, value, refl, refl, transformed)
