-- ===== src/Snapshot/Bucket/Tests.antt =====
-- Tests of the snapshots in a bucket.
use version_guard.Base.{◌≡◌, refl, String, true, false, some, none, [], ◌∷◌, lookup}
use version_guard.Types.{Status}
use version_guard.Snapshot.{Snapshot, new_builder, add_findings, build}
use version_guard.Samples.{finding, month_before, end_of_line}
use version_guard.Snapshot.Bucket.{
  S3Store, Listing, page, last_page, generate_key, save_to_bucket, latest_in_bucket, decoded,
  get_from_bucket, wire_snapshot, contains_snapshot_id, ends_in,
}
use version_guard.Snapshot.Bucket.Kept.{
  IsFirst, on_later, on_last, Misses, contains_snapshot_id-Misses, get_from_bucket-IsFirst,
  latest-save_to_bucket,
}

-- A snapshot with a finding that has an end of life date.
abbrev nightly : Snapshot
nightly = build (
    add_findings "lambda"
      ((record (finding "fn-1" "lambda" Status.red) { eol_date = some end_of_line }) ∷ [])
      (new_builder "nightly-scan-1" month_before))

-- An encoder of this snapshot only.
abbrev store : S3Store
store = record {
  prefix = "snapshots/";
  format_day = λ at. "0001/01/01";
  marshal = λ s. some "json";
  unmarshal = λ json. some (wire_snapshot nightly);
}

abbrev key : String
key = generate_key store nightly.generated_at nightly.snapshot_id

abbrev pages : Listing
pages = page (none ∷ some "snapshots/latest.json" ∷ []) (last_page (some key ∷ []))

latest_differs : contains_snapshot_id "snapshots/latest.json" "scan-1" ≡ false
unfolding contains_snapshot_id ends_in
latest_differs = refl

pointer_is_passed : Misses "scan-1" (some "snapshots/latest.json")
pointer_is_passed = contains_snapshot_id-Misses "scan-1" "snapshots/latest.json" latest_differs

is_first : IsFirst "scan-1" key pages
is_first = on_later _ _ (tt, (pointer_is_passed, tt)) (on_last [] [] tt)

is_named : nightly.snapshot_id ≡ "nightly-scan-1"
unfolding build add_findings new_builder
is_named = refl

-- The snapshot "scan-1" is asked for, and "nightly-scan-1" is returned.
get_from_bucket-IsFirst_example :
    get_from_bucket store pages ((key, "json") ∷ []) "scan-1"
    ≡ decoded store (lookup key ((key, "json") ∷ []))
get_from_bucket-IsFirst_example =
    get_from_bucket-IsFirst store ((key, "json") ∷ []) pages nightly "nightly-" "scan-1" is_named
      is_first

saves : (save_to_bucket store (λ k. true) nightly []).0 ≡ true
unfolding save_to_bucket
saves = refl

latest-save_to_bucket_example :
    latest_in_bucket store (save_to_bucket store (λ k. true) nightly []).1
    ≡ some (wire_snapshot nightly)
latest-save_to_bucket_example =
    latest-save_to_bucket store (λ k. true) nightly [] (λ data_ e. refl) saves
