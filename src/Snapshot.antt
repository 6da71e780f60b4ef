-- ===== src/Snapshot.antt =====
-- pkg/snapshot/builder.go and pkg/types/snapshot.go: the snapshot of a scan and its statistics.
-- The builder is a value that each method returns anew. A bucket that `getOrCreate` returns is
-- counted in place, in its map. A `CompliancePercentage` is a quotient of two counts that stand
-- beside it, and is not kept.
pub mod Tests
pub mod Counts
pub mod Memory
pub mod Listing
pub mod Bucket
pub mod Totals
use version_guard.Base.{
  ℕ, suc, ◌+◌, ◌-◌, ◌/◌, ◌≡◌, String, Bool, true, false, Option, none, some, List, [], ◌∷◌,
  if◌then◌else◌, ◌==◌, Map, lookup, insert,
}
use version_guard.Types.{Time, zero_time, Status, Finding, ResourceType, CloudProvider}
use version_guard.Types.Elapsed.{ℤ, pos, elapsed}

pub record StatBucket : Type 0 where
  pub total_resources : ℕ
  pub red_count : ℕ
  pub yellow_count : ℕ
  pub green_count : ℕ
  pub unknown_count : ℕ

abbrev pub empty_bucket : StatBucket
empty_bucket = record {
  total_resources = 0;
  red_count = 0;
  yellow_count = 0;
  green_count = 0;
  unknown_count = 0;
}

-- `SnapshotSummary`, whose own counts are kept as a bucket.
pub record SnapshotSummary : Type 0 where
  pub overall : StatBucket
  pub by_resource_type : Map StatBucket
  pub by_service : Map StatBucket
  pub by_cloud_provider : Map StatBucket

pub record Snapshot : Type 0 where
  pub snapshot_id : String
  pub version : String
  pub generated_at : Time
  pub scan_start_time : Time
  pub scan_end_time : Time
  pub scan_duration_sec : ℤ
  pub findings_by_type : Map (List Finding)
  pub summary : SnapshotSummary

abbrev pub empty_summary : SnapshotSummary
empty_summary = record {
  overall = empty_bucket;
  by_resource_type = [];
  by_service = [];
  by_cloud_provider = [];
}

-- `incrementStatusCount` and `incrementSummaryStatusCount`
unfoldable pub increment_status_count : Status → StatBucket → StatBucket
increment_status_count Status.red b = record b { red_count = suc b.red_count }
increment_status_count Status.yellow b = record b { yellow_count = suc b.yellow_count }
increment_status_count Status.green b = record b { green_count = suc b.green_count }
increment_status_count Status.unknown b = record b { unknown_count = suc b.unknown_count }
increment_status_count (Status.other s) b = b

-- A finding counted in a bucket.
abbrev pub count : Finding → StatBucket → StatBucket
count f b = increment_status_count f.status (record b { total_resources = suc b.total_resources })

abbrev pub or_empty : Option StatBucket → StatBucket
or_empty none = empty_bucket
or_empty (some b) = b

abbrev pub bucket_at : String → Map StatBucket → StatBucket
bucket_at key m = or_empty (lookup key m)

-- `getOrCreate`, and the finding counted in the bucket that it returns.
unfoldable pub count_under : String → Finding → Map StatBucket → Map StatBucket
count_under key f m = insert key (count f (bucket_at key m)) m

-- One round of the inner loop: the summary and the type's bucket.
unfoldable pub add_finding : Finding → SnapshotSummary → SnapshotSummary
add_finding f s = record s {
  overall = count f s.overall;
  by_service = if f.service == "" then s.by_service else count_under f.service f s.by_service;
  by_cloud_provider = count_under f.cloud_provider f s.by_cloud_provider;
}

unfoldable pub add_each : List Finding → StatBucket → SnapshotSummary → StatBucket × SnapshotSummary
add_each [] type_stat s = (type_stat, s)
add_each (f ∷ findings) type_stat s = add_each findings (count f type_stat) (add_finding f s)

-- One round of the outer loop.
unfoldable pub add_type : ResourceType → List Finding → SnapshotSummary → SnapshotSummary
add_type t findings s =
    let r = add_each findings empty_bucket s in
    record (r.1) { by_resource_type = insert t r.0 r.1.by_resource_type }

unfoldable pub calculate_statistics : Map (List Finding) → SnapshotSummary → SnapshotSummary
calculate_statistics [] s = s
calculate_statistics ((t, findings) ∷ m) s = calculate_statistics m (add_type t findings s)

unfoldable pub new_builder : String → Time → Snapshot
new_builder id now = record {
  snapshot_id = id;
  version = "v4";
  generated_at = now;
  scan_start_time = zero_time;
  scan_end_time = zero_time;
  scan_duration_sec = pos 0;
  findings_by_type = [];
  summary = empty_summary;
}

unfoldable pub with_scan_timing : Time → Time → Snapshot → Snapshot
with_scan_timing start end s = record s {
  scan_start_time = start;
  scan_end_time = end;
  scan_duration_sec = elapsed 1_000_000_000 start end;
}

unfoldable pub add_findings : ResourceType → List Finding → Snapshot → Snapshot
add_findings t findings s = record s { findings_by_type = insert t findings s.findings_by_type }

unfoldable pub build : Snapshot → Snapshot
build s = record s { summary = calculate_statistics s.findings_by_type s.summary }
