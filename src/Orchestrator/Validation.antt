-- ===== src/Orchestrator/Validation.antt =====
-- pkg/workflow/orchestrator/activities.go: `validateSnapshotSummary` accepts what the builder makes.
use version_guard.Base.{
  ℕ, ◌+◌, ◌≡◌, refl, ap, ◌∙◌, String, true, Option, none, some, List, [], ◌∷◌, arith, length,
  length-append, eqb, if◌then◌else◌, Map, insert-IsUnique, IsUnique,
}
use version_guard.Types.{Time, Finding, ResourceType}
use version_guard.Store.{Store, list_findings}
use version_guard.Snapshot.{
  StatBucket, empty_summary, Snapshot, new_builder, with_scan_timing, add_findings, build,
  calculate_statistics,
}
use version_guard.Snapshot.Counts.{all_findings}
use version_guard.Snapshot.Totals.{HasBuckets, calculate_statistics-HasBuckets, build-total}
use version_guard.Orchestrator.{
  CreateSnapshotInput, sum_types, is_valid_summary, add_types, by_type, built,
}

-- A snapshot of a builder: each type once, and no statistics yet.
pub record IsUnbuilt (snap : Snapshot) : Type 0 where
  pub unique : IsUnique snap.findings_by_type
  pub blank : snap.summary ≡ empty_summary

keep_sum :
    (total n k m l : ℕ) {o : Option ℕ}
    → total ≡ n
    → l ≡ n + m
    → o ≡ some ((k + total) + m)
    → (if eqb total n then o else none) ≡ some (k + l)
keep_sum total n k m l e f g = ground (arith, g)

sum_types-HasBuckets :
    (m : Map (List Finding)) (buckets : Map StatBucket) (n : ℕ)
    → HasBuckets m buckets
    → sum_types m buckets n ≡ some (n + length (all_findings m))
unfolding sum_types
sum_types-HasBuckets [] buckets n h = ap (λ k. some k) (omega arith)
sum_types-HasBuckets ((t, findings) ∷ m) buckets n (e, h) =
    rw (e, sum_types)
      (keep_sum (length findings) (length findings) n (length (all_findings m)) _ refl
        (length-append findings (all_findings m)) (sum_types-HasBuckets m buckets _ h))

overall_total :
    (snap : Snapshot)
    → IsUnbuilt snap
    → (calculate_statistics snap.findings_by_type snap.summary).overall.total_resources
      ≡ length (all_findings snap.findings_by_type)
unfolding build
overall_total snap u =
    build-total snap
    ∙ ap (λ s. s.overall.total_resources + length (all_findings snap.findings_by_type)) u.blank
    ∙ omega arith

build-is_valid_summary : (snap : Snapshot) → IsUnbuilt snap → is_valid_summary (build snap) ≡ true
unfolding is_valid_summary build
build-is_valid_summary snap u = ground (
  arith,
  sum_types-HasBuckets snap.findings_by_type _ 0
      (calculate_statistics-HasBuckets snap.findings_by_type snap.summary u.unique),
  overall_total snap u,
)

add_types-IsUnbuilt :
    (types : List ResourceType) (store : Store) (snap : Snapshot)
    → IsUnbuilt snap
    → IsUnbuilt (add_types types store snap)
unfolding add_types add_findings
add_types-IsUnbuilt [] store snap u = u
add_types-IsUnbuilt (t ∷ types) store snap u = add_types-IsUnbuilt types store _ (record {
  unique = insert-IsUnique t (list_findings (by_type t) store) snap.findings_by_type u.unique;
  blank = u.blank;
})

-- The summary of the snapshot that `CreateSnapshot` builds is valid: each of its types has a bucket
-- with the number of its findings, and these add up to the overall total.
pub built-is_valid_summary :
    (id : String) (now : Time) (input : CreateSnapshotInput) (store : Store)
    → is_valid_summary (built id now input store) ≡ true
unfolding built with_scan_timing new_builder build is_valid_summary
built-is_valid_summary id now input store =
    build-is_valid_summary _
      (add_types-IsUnbuilt input.resource_types store _ (record { unique = tt; blank = refl }))
