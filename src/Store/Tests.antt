-- ===== src/Store/Tests.antt =====
-- Tests of the store of findings.
use version_guard.Base.{lookup, insert, ◌≡◌, refl, true, none, some, List, [], ◌∷◌, All}
use version_guard.Types.{Status, is_valid_status, Finding}
use version_guard.Store.{
  Store, new_store, FindingFilters, save_findings, save_all, get_finding, replace_findings,
  list_findings, matches_filters, stamp, evict,
}
use version_guard.Store.Contents.{latest, start, save, store-IsKeyed, IsKeyed}
use version_guard.Store.Replacing.{drop_type, get-replace}
use version_guard.Samples.{finding, month_before}

abbrev two_findings : List Finding
two_findings = finding "db-1" "aurora-mysql" Status.red ∷ finding "fn-1" "lambda" Status.green ∷ []

abbrev scanned : Store
scanned = save_findings month_before two_findings new_store

-- A replacement without "db-1" evicts it, and keeps the finding of the other type.
evicts :
    (get_finding "db-1" (replace_findings month_before "aurora-mysql" [] scanned) ≡ none)
    × (get_finding "fn-1" (replace_findings month_before "aurora-mysql" [] scanned)
        ≡ some (stamp month_before (finding "fn-1" "lambda" Status.green)))
unfolding get_finding replace_findings save_findings save_all evict stamp lookup insert
evicts = (refl, refl)

store-IsKeyed_example : IsKeyed scanned.findings
store-IsKeyed_example = store-IsKeyed scanned (save month_before two_findings start)

get-replace_example :
    get_finding "db-1" (replace_findings month_before "aurora-mysql" [] scanned)
    ≡ latest month_before "db-1" [] (drop_type "aurora-mysql" (get_finding "db-1" scanned))
get-replace_example =
    get-replace month_before "aurora-mysql" [] scanned "db-1" (save month_before two_findings start)

abbrev every : FindingFilters
every = record { resource_type = none; service = none; status = none; engine = none }

all_valid : All (λ f. is_valid_status f.status ≡ true) (list_findings every scanned)
unfolding list_findings matches_filters save_findings save_all stamp is_valid_status lookup insert
all_valid = (refl, (refl, tt))
