-- ===== src/Snapshot/Tests.antt =====
-- Tests of the snapshot's statistics and of the snapshot store in memory.
use version_guard.Base.{
  lookup, insert, ◌≡◌, refl, false, none, some, List, [], ◌∷◌, ◌==◌, Map, IsUnique,
}
use version_guard.Types.{Status, Finding}
use version_guard.Snapshot.{
  Snapshot, empty_summary, calculate_statistics, new_builder, add_findings,
}
use version_guard.Snapshot.Totals.{HasBuckets, calculate_statistics-HasBuckets}
use version_guard.Snapshot.Memory.{
  MemoryStore, new_memory_store, save_snapshot, get_snapshot, get_latest_snapshot, last,
  latest-save_again,
}
use version_guard.Samples.{finding, month_before}

abbrev by_type : Map (List Finding)
by_type =
    ("aurora-mysql", finding "db-1" "aurora-mysql" Status.red ∷ [])
    ∷ ("lambda", finding "fn-1" "lambda" Status.green ∷ [])
    ∷ []

is_unique : IsUnique by_type
is_unique = ((refl, tt), (tt, tt))

calculate_statistics-HasBuckets_example :
    HasBuckets by_type (calculate_statistics by_type empty_summary).by_resource_type
calculate_statistics-HasBuckets_example =
    calculate_statistics-HasBuckets by_type empty_summary is_unique

abbrev first : Snapshot
first =
    add_findings "lambda" (finding "fn-1" "lambda" Status.green ∷ [])
      (new_builder "s1" month_before)

abbrev second : Snapshot
second = new_builder "s2" month_before

first_is_new : get_snapshot first.snapshot_id new_memory_store ≡ none
unfolding get_snapshot lookup insert
first_is_new = refl

has_id : (first.snapshot_id == "") ≡ false
unfolding add_findings new_builder lookup insert
has_id = refl

abbrev both : MemoryStore
both = (save_snapshot second (save_snapshot first new_memory_store).1).1

first_is_saved : get_snapshot first.snapshot_id both ≡ some first
unfolding get_snapshot save_snapshot add_findings new_builder lookup insert
first_is_saved = refl

second_is_last : last both.order ≡ some second.snapshot_id
unfolding save_snapshot add_findings new_builder lookup insert
second_is_last = refl

second_is_saved : get_snapshot second.snapshot_id both ≡ some second
unfolding get_snapshot save_snapshot add_findings new_builder lookup insert
second_is_saved = refl

differ : (first.snapshot_id == second.snapshot_id) ≡ false
unfolding add_findings new_builder lookup insert
differ = refl

latest-save_again_example : get_latest_snapshot (save_snapshot first both).1 ≡ some second
latest-save_again_example =
    latest-save_again first second first both has_id first_is_saved second_is_last second_is_saved
      differ
