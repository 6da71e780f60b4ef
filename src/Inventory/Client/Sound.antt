-- ===== src/Inventory/Client/Sound.antt =====
-- pkg/inventory/wiz/client.go: histories of calls of `GetReportData`.
use mathlib.Core.Option.{some-injective}
use mathlib.Core.Sum.{inl-injective}
use version_guard.Base.{
  ℕ, ◌≡◌, ◌≢◌, refl, sym, subst, String, Option, none, some, List, [], ◌∷◌, lookup, insert,
  lookup-insert, eqb, length, ◌⊎◌, inl, inr, ◌∙◌, if_ind, ◌==◌, if_cases,
}
use version_guard.Types.{Time}
use version_guard.Inventory.Columns.{Row, build_column_index, has_column}
use version_guard.Inventory.Client.{
  Report, CachedReport, Client, WizClient, Readings, ReportError, out_of_range, new_client,
  cached_rows, all_present, validate_required_columns, entry_of, stored_if, store_rows,
  fetch_and_cache, passing, checked, get_report_data, hit_or, store_answer, read_with, read_rows,
  read_body, read_report,
}
use version_guard.Inventory.Client.Cached.{cached_rows_iff}

-- A report with a header row.
abbrev pub HasHeader : List Row → Type 0
HasHeader rows = (header : Row) × (rest : List Row) × (rows ≡ header ∷ rest)

-- Every cached report has a header row.
abbrev pub CacheIsSound : Client → Type 0
CacheIsSound c =
    (id : String) (entry : CachedReport) → lookup id c.cache ≡ some entry → HasHeader entry.data_

abbrev ResultIsSound : ReportError ⊎ List Row → Type 0
ResultIsSound (inl e) = e ≢ out_of_range
ResultIsSound (inr rows) = HasHeader rows

abbrev AnswerIsSound : (ReportError ⊎ List Row) × Client → Type 0
AnswerIsSound answer = ResultIsSound answer.0 × CacheIsSound answer.1

insert-CacheIsSound :
    (c : Client) (id : String) (entry : CachedReport)
    → HasHeader entry.data_
    → CacheIsSound c
    → CacheIsSound (record c { cache = insert id entry c.cache })
insert-CacheIsSound c id entry h sound other found e =
    elim (if_cases (id == other) (sym (lookup-insert id other entry c.cache) ∙ e)) [
      | inl p ↦ subst (λ x. HasHeader x.data_) (some-injective _ _ p.1) h
      | inr p ↦ sound other found p.1
    ]

store_rows-AnswerIsSound :
    (c : Client) (id : String) (required : List String) (stored : Time) (report : Report)
    (rows : List Row)
    → CacheIsSound c
    → AnswerIsSound (store_rows c id required stored report rows)
unfolding store_rows
store_rows-AnswerIsSound c id required stored report [] h = (λ p. absurd cc, h)
store_rows-AnswerIsSound c id required stored report (header ∷ rows) h =
    let entry = entry_of report (header ∷ rows) stored in
    if_ind AnswerIsSound (eqb (length rows) report.expected_rows)
      (stored_if-AnswerIsSound (validate_required_columns (header ∷ rows) required) c id entry
        (header, rows, refl) h)
      ((λ p. absurd cc), h)
  where
    stored_if-AnswerIsSound :
        (o : Option ReportError) (c : Client) (id : String) (entry : CachedReport)
        → HasHeader entry.data_
        → CacheIsSound c
        → AnswerIsSound (stored_if o c id entry)
    stored_if-AnswerIsSound none c id entry g h = (g, insert-CacheIsSound c id entry g h)
    stored_if-AnswerIsSound (some e) c id entry g h = (g, h)

-- No answer of the API is a panic.
abbrev IsCalm : ReportError ⊎ Report × List Row → Type 0
IsCalm (inl e) = e ≢ out_of_range
IsCalm (inr answer) = Unit

module _ (api : WizClient) where
  read_rows-IsCalm : (report : Report) (o : Option (List Row)) → IsCalm (read_rows api report o)
  read_rows-IsCalm report none = λ p. absurd cc
  read_rows-IsCalm report (some rows) = tt

  read_body-IsCalm : (report : Report) (o : Option String) → IsCalm (read_body api report o)
  read_body-IsCalm report none = λ p. absurd cc
  read_body-IsCalm report (some body) = read_rows-IsCalm report (api.read_all body)

  read_report-IsCalm : (o : Option Report) → IsCalm (read_report api o)
  read_report-IsCalm none = λ p. absurd cc
  read_report-IsCalm (some report) =
      read_body-IsCalm report (api.download_report report.download_url)

  read_with-IsCalm : (id : String) (o : Option String) → IsCalm (read_with api id o)
  read_with-IsCalm id none = λ p. absurd cc
  read_with-IsCalm id (some token) = read_report-IsCalm (api.get_report token id)

store_answer-AnswerIsSound :
    (c : Client) (id : String) (required : List String) (stored : Time)
    (z : ReportError ⊎ Report × List Row)
    → IsCalm z
    → CacheIsSound c
    → AnswerIsSound (store_answer c id required stored z)
store_answer-AnswerIsSound c id required stored (inl e) n h = (n, h)
store_answer-AnswerIsSound c id required stored (inr (report, rows)) n h =
    store_rows-AnswerIsSound c id required stored report rows h

all_present_sound :
    (header : Row) (required : List String) (rows : List Row)
    → HasHeader rows
    → ResultIsSound (passing (all_present header required) rows)
all_present_sound header [] rows h = h
all_present_sound header (name ∷ names) rows h =
    if_ind (λ o. ResultIsSound (passing o rows)) (has_column (build_column_index header) name)
      (all_present_sound header names rows h) (λ p. absurd cc)

checked_sound :
    (z : ReportError ⊎ List Row) (required : List String)
    → ResultIsSound z
    → ResultIsSound (checked z required)
unfolding validate_required_columns
checked_sound (inl e) required h = h
checked_sound (inr []) required (header, rest, e) = absurd cc
checked_sound (inr (header ∷ rows)) required h = all_present_sound header required (header ∷ rows) h

cached_rows-HasHeader :
    (c : Client) (since now : Time) (id : String) (rows : List Row)
    → CacheIsSound c
    → cached_rows c since now id ≡ some rows
    → HasHeader rows
cached_rows-HasHeader c since now id rows h e =
    let (entry, found, same, f) = (cached_rows_iff c since now id rows).0 e in
    subst HasHeader same (h id entry found)

hit_or-AnswerIsSound :
    (o : Option (List Row)) (required : List String) (c : Client)
    (next : (ReportError ⊎ List Row) × Client)
    → ((rows : List Row) → o ≡ some rows → HasHeader rows)
    → CacheIsSound c
    → AnswerIsSound next
    → AnswerIsSound (hit_or o required c next)
hit_or-AnswerIsSound none required c next hit h later = later
hit_or-AnswerIsSound (some rows) required c next hit h later =
    (checked_sound (inr rows) required (hit rows refl), h)

get_report_data-AnswerIsSound :
    (api : WizClient) (r : Readings) (c : Client) (id : String) (required : List String)
    → CacheIsSound c
    → AnswerIsSound (get_report_data api r c id required)
unfolding get_report_data fetch_and_cache
get_report_data-AnswerIsSound api r c id required h =
    let fetched =
      store_answer-AnswerIsSound c id required r.stored (read_with api id api.get_access_token)
        (read_with-IsCalm api id api.get_access_token) h in
    hit_or-AnswerIsSound (cached_rows c r.first_since r.first_now id) required c _
      (λ rows e. cached_rows-HasHeader c r.first_since r.first_now id rows h e) h
      (hit_or-AnswerIsSound (cached_rows c r.second_since r.second_now id) required c _
        (λ rows e. cached_rows-HasHeader c r.second_since r.second_now id rows h e) h
        (checked_sound _ required fetched.0, fetched.1))

-- The clients that a history of calls leads to.
pub data IsReached (ttl : ℕ) : Client → Type 0 where
  fresh : IsReached ttl (new_client ttl)
  call :
      (api : WizClient) (r : Readings) (c : Client) (id : String) (required : List String)
      → IsReached ttl c
      → IsReached ttl (get_report_data api r c id required).1

reached-CacheIsSound : (ttl : ℕ) (c : Client) → IsReached ttl c → CacheIsSound c
unfolding new_client lookup
reached-CacheIsSound ttl c fresh = λ id entry e. absurd cc
reached-CacheIsSound ttl c (call api r d id required h) =
    (get_report_data-AnswerIsSound api r d id required (reached-CacheIsSound ttl d h)).1

-- After any history of calls of a new client, a call does not panic on a report without rows,
-- whatever the API answers.
pub get_report_data-no_panic :
    (ttl : ℕ) (c : Client) (api : WizClient) (r : Readings) (id : String) (required : List String)
    → IsReached ttl c
    → (get_report_data api r c id required).0 ≢ inl out_of_range
get_report_data-no_panic ttl c api r id required h p =
    panics ((get_report_data api r c id required).0) p
      (get_report_data-AnswerIsSound api r c id required (reached-CacheIsSound ttl c h)).0
  where
    panics : (z : ReportError ⊎ List Row) → z ≡ inl out_of_range → ¬ ResultIsSound z
    panics (inl e) p h = h (inl-injective _ _ p)
    panics (inr rows) p h = absurd cc
