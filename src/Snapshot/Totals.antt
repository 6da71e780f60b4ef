-- ===== src/Snapshot/Totals.antt =====
-- pkg/snapshot/builder.go: the buckets of the resource types, and the totals of a snapshot.
use version_guard.Base.{
  ℕ, suc, ◌+◌, Bool, true, false, keep, ◌≡◌, refl, ap, ◌∙◌, some, List, [], ◌∷◌, arith, length, Map,
  lookup, lookup-insert, Fresh, IsUnique, if◌then◌else◌, eq_iff, ◌==◌,
}
use version_guard.Types.{Finding, ResourceType, Status}
use version_guard.Snapshot.{
  StatBucket, empty_bucket, SnapshotSummary, Snapshot, count, increment_status_count, add_finding,
  add_each, add_type, calculate_statistics, build,
}
use version_guard.Snapshot.Counts.{
  tally, all_findings, add_each-type_stat, calculate_statistics-overall,
}

count-total : (f : Finding) (b : StatBucket) → (count f b).total_resources ≡ suc b.total_resources
unfolding increment_status_count
count-total f b = ground arith

pub tally-total :
    (findings : List Finding) (b : StatBucket)
    → (tally findings b).total_resources ≡ b.total_resources + length findings
tally-total [] b = omega arith
tally-total (f ∷ findings) b = omega (arith, tally-total findings (count f b), count-total f b)

add_each-by_type :
    (findings : List Finding) (b : StatBucket) (s : SnapshotSummary)
    → (add_each findings b s).1.by_resource_type ≡ s.by_resource_type
unfolding add_each add_finding
add_each-by_type [] b s = refl
add_each-by_type (f ∷ findings) b s = add_each-by_type findings (count f b) (add_finding f s)

add_type-by_type :
    (t j : ResourceType) (findings : List Finding) (s : SnapshotSummary)
    → lookup j (add_type t findings s).by_resource_type
      ≡ (if t == j then some (tally findings empty_bucket) else lookup j s.by_resource_type)
unfolding add_type
add_type-by_type t j findings s =
    lookup-insert t j _ _
    ∙ rw (add_each-type_stat findings empty_bucket s, add_each-by_type findings empty_bucket s) refl

-- A type that is not in the map keeps its bucket.
calculate_statistics-other :
    (j : ResourceType) (m : Map (List Finding)) (s : SnapshotSummary)
    → Fresh j m
    → lookup j (calculate_statistics m s).by_resource_type ≡ lookup j s.by_resource_type
unfolding calculate_statistics
calculate_statistics-other j [] s h = refl
calculate_statistics-other j ((t, findings) ∷ m) s (d, h) =
    calculate_statistics-other j m (add_type t findings s) h
    ∙ add_type-by_type t j findings s
    ∙ rw d refl

abbrev is_red : Finding → Bool
is_red f = elim f.status [ Status.red ↦ true | _ ↦ false ]

abbrev is_yellow : Finding → Bool
is_yellow f = elim f.status [ Status.yellow ↦ true | _ ↦ false ]

abbrev is_green : Finding → Bool
is_green f = elim f.status [ Status.green ↦ true | _ ↦ false ]

abbrev is_unknown : Finding → Bool
is_unknown f = elim f.status [ Status.unknown ↦ true | _ ↦ false ]

-- The numbers of the findings, of all and of each status.
abbrev pub bucket_of : List Finding → StatBucket
bucket_of findings = record {
  total_resources = length findings;
  red_count = length (keep is_red findings);
  yellow_count = length (keep is_yellow findings);
  green_count = length (keep is_green findings);
  unknown_count = length (keep is_unknown findings);
}

-- A counter of the bucket that a finding raises by one exactly under a test.
tally_counter :
    (counter : StatBucket → ℕ) (test : Finding → Bool)
    → ((f : Finding) (b : StatBucket)
        → counter (count f b) ≡ (if test f then suc (counter b) else counter b))
    → (findings : List Finding) (b : StatBucket)
    → counter (tally findings b) ≡ counter b + length (keep test findings)
tally_counter counter test step [] b = omega arith
tally_counter counter test step (f ∷ findings) b =
    ground (arith, tally_counter counter test step findings (count f b), step f b)

-- The same for a bucket that starts at zero.
tally_counted :
    (counter : StatBucket → ℕ) (test : Finding → Bool)
    → ((f : Finding) (b : StatBucket)
        → counter (count f b) ≡ (if test f then suc (counter b) else counter b))
    → counter empty_bucket ≡ 0
    → (findings : List Finding)
    → counter (tally findings empty_bucket) ≡ length (keep test findings)
tally_counted counter test step start findings =
    omega (arith, tally_counter counter test step findings empty_bucket, start)

bucket_ext :
    (b c : StatBucket)
    → b.total_resources ≡ c.total_resources
    → b.red_count ≡ c.red_count
    → b.yellow_count ≡ c.yellow_count
    → b.green_count ≡ c.green_count
    → b.unknown_count ≡ c.unknown_count
    → b ≡ c
bucket_ext b c t r y g u = cc

tally-bucket_of : (findings : List Finding) → tally findings empty_bucket ≡ bucket_of findings
unfolding increment_status_count
tally-bucket_of findings =
    bucket_ext (tally findings empty_bucket) (bucket_of findings)
      (omega (arith, tally-total findings empty_bucket))
      (tally_counted (λ b. b.red_count) is_red (λ f b. ground arith) refl findings)
      (tally_counted (λ b. b.yellow_count) is_yellow (λ f b. ground arith) refl findings)
      (tally_counted (λ b. b.green_count) is_green (λ f b. ground arith) refl findings)
      (tally_counted (λ b. b.unknown_count) is_unknown (λ f b. ground arith) refl findings)

-- The bucket of each type has the numbers of its findings.
abbrev pub HasBuckets : Map (List Finding) → Map StatBucket → Type 0
HasBuckets [] buckets = Unit
HasBuckets ((t, findings) ∷ m) buckets =
    (lookup t buckets ≡ some (bucket_of findings)) × HasBuckets m buckets

-- When no type occurs twice, the statistics give each type of the snapshot a bucket with the number
-- of its findings, and the numbers of those that are red, yellow, green and unknown.
pub calculate_statistics-HasBuckets :
    (m : Map (List Finding)) (s : SnapshotSummary)
    → IsUnique m
    → HasBuckets m (calculate_statistics m s).by_resource_type
unfolding calculate_statistics
calculate_statistics-HasBuckets [] s h = tt
calculate_statistics-HasBuckets ((t, findings) ∷ m) s (fresh, h) = (
  calculate_statistics-other t m (add_type t findings s) fresh
      ∙ add_type-by_type t t findings s
      ∙ rw ((eq_iff t t).1 refl) (ap some (tally-bucket_of findings)),
  calculate_statistics-HasBuckets m (add_type t findings s) h,
)

-- A builder whose `Build` runs adds the number of its findings to the total that it has: once to a
-- new builder, and again at a second `Build`.
pub build-total :
    (snap : Snapshot)
    → (build snap).summary.overall.total_resources
      ≡ snap.summary.overall.total_resources + length (all_findings snap.findings_by_type)
unfolding build
build-total snap =
    ap (λ b. b.total_resources) (calculate_statistics-overall snap.findings_by_type snap.summary)
    ∙ tally-total (all_findings snap.findings_by_type) snap.summary.overall
