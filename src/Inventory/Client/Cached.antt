-- ===== src/Inventory/Client/Cached.antt =====
-- pkg/inventory/wiz/client.go: what the cache of reports holds, and what a caller gets.
use mathlib.Core.Option.{some-injective}
use mathlib.Core.Sum.{inl-ne-inr}
use version_guard.Base.{
  ℕ, ◌+◌, ◌<◌, ◌≡◌, refl, sym, ap, subst, String, true, false, Option, none, some, List, [], ◌∷◌,
  All, lookup, arith, ◌⊎◌, inl, inr, inr-injective, ◌∙◌, ◌||◌, if_cases, ◌↔◌,
}
use version_guard.Types.{Time, zero_time}
use version_guard.Inventory.Columns.{Row, build_column_index, has_column}
use version_guard.Inventory.Client.{
  CachedReport, Client, WizClient, Readings, ReportError, fresh_data, cached_rows, all_present,
  validate_required_columns, fetch_and_cache, passing, checked, get_report_data, hit_or, is_expired,
  is_overdue,
}

-- The rows have a header, in which each of the columns is found.
abbrev pub HasColumns : List String → List Row → Type 0
HasColumns required [] = ⊥
HasColumns required (header ∷ rows) =
    All (λ name. has_column (build_column_index header) name ≡ true) required

all_present-All :
    (header : Row) (required : List String)
    → all_present header required ≡ none
    → All (λ name. has_column (build_column_index header) name ≡ true) required
all_present-All header [] h = tt
all_present-All header (name ∷ names) h =
    elim (if_cases (has_column (build_column_index header) name) h) [
      | inl p ↦ (p.0, all_present-All header names p.1)
      | inr p ↦ absurd cc
    ]

validated-HasColumns :
    (rows : List Row) (required : List String)
    → validate_required_columns rows required ≡ none
    → HasColumns required rows
unfolding validate_required_columns
validated-HasColumns [] required h = absurd cc
validated-HasColumns (header ∷ rows) required h = all_present-All header required h

passing-inr :
    (o : Option ReportError) (rows got : List Row)
    → passing o rows ≡ inr got
    → (o ≡ none) × (rows ≡ got)
passing-inr none rows got h = (refl, inr-injective _ _ h)
passing-inr (some e) rows got h = absurd (inl-ne-inr h)

checked-HasColumns :
    (z : ReportError ⊎ List Row) (required : List String) (got : List Row)
    → checked z required ≡ inr got
    → HasColumns required got
checked-HasColumns (inl e) required got h = absurd (inl-ne-inr h)
checked-HasColumns (inr rows) required got h =
    let p = passing-inr (validate_required_columns rows required) rows got h in
    subst (HasColumns required) p.1 (validated-HasColumns rows required p.0)

hit_or-HasColumns :
    (o : Option (List Row)) (required : List String) (c : Client)
    (next : (ReportError ⊎ List Row) × Client) (got : List Row)
    → (next.0 ≡ inr got → HasColumns required got)
    → (hit_or o required c next).0 ≡ inr got
    → HasColumns required got
hit_or-HasColumns none required c next got later h = later h
hit_or-HasColumns (some rows) required c next got later h =
    checked-HasColumns (inr rows) required got h

-- Rows that a caller gets, from the cache or from the API, have a header in which each of the columns
-- that the caller requires is found, under its name or its alias.
pub get_report_data-HasColumns :
    (api : WizClient) (r : Readings) (c : Client) (report_id : String) (required : List String)
    (rows : List Row)
    → (get_report_data api r c report_id required).0 ≡ inr rows
    → HasColumns required rows
unfolding get_report_data
get_report_data-HasColumns api r c report_id required rows h =
    let fetched = fetch_and_cache api c report_id required r.stored in
    hit_or-HasColumns (cached_rows c r.first_since r.first_now report_id) required c _ rows
      (hit_or-HasColumns (cached_rows c r.second_since r.second_now report_id) required c
        (checked fetched.0 required, fetched.1) rows (checked-HasColumns fetched.0 required rows))
      h

-- An entry that is younger than the time to live, and whose run is not overdue.
abbrev pub IsFresh : ℕ → Time → Time → CachedReport → Type 0
IsFresh ttl since now entry =
    (since < entry.fetched_at + ttl)
    × ((entry.freshness_deadline ≡ zero_time) ⊎ (now < entry.freshness_deadline))

age_within_iff :
    (ttl : ℕ) (since now : Time) (entry : CachedReport)
    → ((is_expired ttl since entry || is_overdue now entry) ≡ false) ↔ IsFresh ttl since now entry
age_within_iff ttl since now entry = ground arith

fresh_data_iff :
    (ttl : ℕ) (since now : Time) (o : Option CachedReport) (rows : List Row)
    → (fresh_data ttl since now o ≡ some rows) ↔ (
        (entry : CachedReport) × (o ≡ some entry)
        × (entry.data_ ≡ rows)
        × IsFresh ttl since now entry)
fresh_data_iff ttl since now none rows = (λ h. absurd cc, λ h. absurd cc)
fresh_data_iff ttl since now (some entry) rows = (
  λ h. elim (if_cases (is_expired ttl since entry || is_overdue now entry) h) [
    | inl p ↦ absurd cc
    | inr p ↦ (entry, refl, some-injective _ _ p.1, (age_within_iff ttl since now entry).0 p.0)
  ],
  λ (e, found, same, f).
      rw
        ((age_within_iff ttl since now entry).1
          (subst (IsFresh ttl since now) (sym (some-injective _ _ found)) f))
        (ap some (ap (λ x. x.data_) (some-injective _ _ found) ∙ same)),
)

-- A look into the cache gives rows exactly when the report has an entry with these rows that was made
-- less than the time to live ago, and whose deadline is unset or ahead.
pub cached_rows_iff :
    (c : Client) (since now : Time) (id : String) (rows : List Row)
    → (cached_rows c since now id ≡ some rows) ↔ (
        (entry : CachedReport) × (lookup id c.cache ≡ some entry)
        × (entry.data_ ≡ rows)
        × IsFresh c.cache_ttl since now entry)
unfolding cached_rows
cached_rows_iff c since now id rows = fresh_data_iff c.cache_ttl since now (lookup id c.cache) rows
