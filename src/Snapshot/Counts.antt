-- ===== src/Snapshot/Counts.antt =====
-- pkg/snapshot/builder.go: each count of the statistics is that of the findings it stands for.
use version_guard.Base.{
  ◌≡◌, refl, sym, ap, ◌∙◌, String, Bool, false, List, [], ◌∷◌, ◌++◌, arith, if◌then◌else◌,
  Bool-cases, inl, inr, ◌==◌, eq_iff, keep, Map, lookup-insert,
}
use version_guard.Types.{Finding}
use version_guard.Snapshot.{
  StatBucket, empty_bucket, SnapshotSummary, count, bucket_at, or_empty, count_under, add_finding,
  add_each, add_type, calculate_statistics,
}

-- The findings counted one after the other in a bucket.
abbrev pub tally : List Finding → StatBucket → StatBucket
tally [] b = b
tally (f ∷ findings) b = tally findings (count f b)

abbrev pub all_findings : Map (List Finding) → List Finding
all_findings [] = []
all_findings ((t, findings) ∷ m) = findings ++ all_findings m

tally-append : (xs ys : List Finding) (b : StatBucket) → tally (xs ++ ys) b ≡ tally ys (tally xs b)
tally-append [] ys b = refl
tally-append (x ∷ xs) ys b = tally-append xs ys (count x b)

keep-append :
    (p : Finding → Bool) (xs ys : List Finding) → keep p (xs ++ ys) ≡ keep p xs ++ keep p ys
keep-append p [] ys = refl
keep-append p (x ∷ xs) ys = elim (Bool-cases (p x)) [
  | inl e ↦ rw e (ap (λ l. x ∷ l) (keep-append p xs ys))
  | inr e ↦ rw e (keep-append p xs ys)
]

add_each-overall :
    (findings : List Finding) (b : StatBucket) (s : SnapshotSummary)
    → (add_each findings b s).1.overall ≡ tally findings s.overall
unfolding add_each add_finding
add_each-overall [] b s = refl
add_each-overall (f ∷ findings) b s = add_each-overall findings (count f b) (add_finding f s)

pub add_each-type_stat :
    (findings : List Finding) (b : StatBucket) (s : SnapshotSummary)
    → (add_each findings b s).0 ≡ tally findings b
unfolding add_each
add_each-type_stat [] b s = refl
add_each-type_stat (f ∷ findings) b s = add_each-type_stat findings (count f b) (add_finding f s)

-- The overall bucket counts every finding of every type once.
pub calculate_statistics-overall :
    (m : Map (List Finding)) (s : SnapshotSummary)
    → (calculate_statistics m s).overall ≡ tally (all_findings m) s.overall
unfolding calculate_statistics add_type
calculate_statistics-overall [] s = refl
calculate_statistics-overall ((t, findings) ∷ m) s =
    calculate_statistics-overall m (add_type t findings s)
    ∙ ap (tally (all_findings m)) (add_each-overall findings empty_bucket s)
    ∙ sym (tally-append findings (all_findings m) s.overall)

differ : (k j : String) → k ≡ "" → (j == "") ≡ false → (k == j) ≡ false
differ k j e h = ground (arith, eq_iff k j, eq_iff j "", e)

bucket_at-count_under :
    (k j : String) (f : Finding) (m : Map StatBucket)
    → bucket_at j (count_under k f m) ≡ (if k == j then count f (bucket_at j m) else bucket_at j m)
unfolding count_under
bucket_at-count_under k j f m =
    ap or_empty (lookup-insert k j (count f (bucket_at k m)) m)
    ∙ elim (Bool-cases (k == j)) [ inl e ↦ rw (e, (eq_iff k j).0 e) refl | inr e ↦ rw e refl ]

-- A bucket after a finding is counted under a key of its own, or not.
bucket_at-if :
    (k j : String) (f : Finding) (m : Map StatBucket) (findings : List Finding)
    → tally findings (bucket_at j (count_under k f m))
      ≡ tally (if k == j then f ∷ findings else findings) (bucket_at j m)
bucket_at-if k j f m findings =
    ap (tally findings) (bucket_at-count_under k j f m)
    ∙ elim (Bool-cases (k == j)) [ inl e ↦ rw e refl | inr e ↦ rw e refl ]

-- The same when the key is left out of the map if it is empty.
bucket_at-nonempty :
    (k j : String) (f : Finding) (m : Map StatBucket) (findings : List Finding)
    → (j == "") ≡ false
    → tally findings (bucket_at j (if k == "" then m else count_under k f m))
      ≡ tally (if k == j then f ∷ findings else findings) (bucket_at j m)
bucket_at-nonempty k j f m findings h = elim (Bool-cases (k == "")) [
  | inl e ↦ rw (e, differ k j ((eq_iff k "").0 e) h) refl
  | inr e ↦ rw e (bucket_at-if k j f m findings)
]

add_each-service :
    (k : String) (findings : List Finding) (b : StatBucket) (s : SnapshotSummary)
    → (k == "") ≡ false
    → bucket_at k (add_each findings b s).1.by_service
      ≡ tally (keep (λ f. f.service == k) findings) (bucket_at k s.by_service)
unfolding add_each add_finding
add_each-service k [] b s h = refl
add_each-service k (f ∷ findings) b s h =
    add_each-service k findings (count f b) (add_finding f s) h
    ∙ bucket_at-nonempty f.service k f s.by_service _ h

add_each-provider :
    (k : String) (findings : List Finding) (b : StatBucket) (s : SnapshotSummary)
    → bucket_at k (add_each findings b s).1.by_cloud_provider
      ≡ tally (keep (λ f. f.cloud_provider == k) findings) (bucket_at k s.by_cloud_provider)
unfolding add_each add_finding
add_each-provider k [] b s = refl
add_each-provider k (f ∷ findings) b s =
    add_each-provider k findings (count f b) (add_finding f s)
    ∙ bucket_at-if f.cloud_provider k f s.by_cloud_provider _

tally-keep-append :
    (p : Finding → Bool) (xs ys : List Finding) (b : StatBucket)
    → tally (keep p ys) (tally (keep p xs) b) ≡ tally (keep p (xs ++ ys)) b
tally-keep-append p xs ys b =
    sym (tally-append (keep p xs) (keep p ys) b) ∙ ap (λ l. tally l b) (sym (keep-append p xs ys))

-- The statistics count each finding of a service once in the bucket of that service, unless its
-- name is empty, on top of what the bucket held.
pub calculate_statistics-service :
    (k : String) (m : Map (List Finding)) (s : SnapshotSummary)
    → (k == "") ≡ false
    → bucket_at k (calculate_statistics m s).by_service
      ≡ tally (keep (λ f. f.service == k) (all_findings m)) (bucket_at k s.by_service)
unfolding calculate_statistics add_type
calculate_statistics-service k [] s h = refl
calculate_statistics-service k ((t, findings) ∷ m) s h =
    calculate_statistics-service k m (add_type t findings s) h
    ∙ ap (tally (keep (λ f. f.service == k) (all_findings m)))
        (add_each-service k findings empty_bucket s h)
    ∙ tally-keep-append _ findings (all_findings m) _

-- The statistics count each finding of a cloud provider once in the bucket of that provider, on
-- top of what the bucket held.
pub calculate_statistics-provider :
    (k : String) (m : Map (List Finding)) (s : SnapshotSummary)
    → bucket_at k (calculate_statistics m s).by_cloud_provider
      ≡ tally (keep (λ f. f.cloud_provider == k) (all_findings m)) (bucket_at k s.by_cloud_provider)
unfolding calculate_statistics add_type
calculate_statistics-provider k [] s = refl
calculate_statistics-provider k ((t, findings) ∷ m) s =
    calculate_statistics-provider k m (add_type t findings s)
    ∙ ap (tally (keep (λ f. f.cloud_provider == k) (all_findings m)))
        (add_each-provider k findings empty_bucket s)
    ∙ tally-keep-append _ findings (all_findings m) _
