-- ===== src/Snapshot/Listing.antt =====
-- pkg/snapshot/memory_store.go: `ListSnapshots`. `sort.SliceStable` is the insertion sort, which is
-- stable as well. The key and the compliance, a quotient of two counts, are left out.
use Prim.Native.Nat.{min}
use version_guard.Base.{
  ℕ, zero, suc, ◌≤◌, ◌≡◌, refl, sym, ap, ◌∙◌, subst, String, Option, none, some, List, [], ◌∷◌, Map,
  All, lookup, length, take, leb, if◌then◌else◌, arith, Bool-cases, inl, inr, some-injective,
  if_ind,
}
use version_guard.Types.{Time}
use version_guard.Types.Elapsed.{ℤ, pos, negsuc}
use version_guard.Snapshot.{Snapshot}
use version_guard.Snapshot.Memory.{MemoryStore}

pub record Metadata : Type 0 where
  pub snapshot_id : String
  pub generated_at : Time
  pub total_resources : ℕ

abbrev pub metadata_of : Snapshot → Metadata
metadata_of s = record {
  snapshot_id = s.snapshot_id;
  generated_at = s.generated_at;
  total_resources = s.summary.overall.total_resources;
}

abbrev pub onto_all : Option Snapshot → Option (List Metadata) → Option (List Metadata)
onto_all (some s) (some later) = some (metadata_of s ∷ later)
onto_all _ _ = none

-- The loop over the order; `none` is the panic of an ID that is not stored.
unfoldable pub collect_metadata : List String → Map Snapshot → Option (List Metadata)
unfolding lookup
collect_metadata [] snapshots = some []
collect_metadata (id ∷ ids) snapshots =
    onto_all (lookup id snapshots) (collect_metadata ids snapshots)

-- Before the first entry that is not newer.
unfoldable pub insert_by_time : Metadata → List Metadata → List Metadata
insert_by_time x [] = x ∷ []
insert_by_time x (y ∷ ys) =
    let later = insert_by_time x ys in
    if leb y.generated_at x.generated_at then x ∷ y ∷ ys else y ∷ later

unfoldable pub sort_by_time : List Metadata → List Metadata
unfolding insert_by_time
sort_by_time [] = []
sort_by_time (x ∷ xs) = insert_by_time x (sort_by_time xs)

-- `limit > 0 && len(out) > limit`
abbrev pub limited : ℤ → List Metadata → List Metadata
limited (pos (suc n)) out = take (suc n) out
limited _ out = out

abbrev pub sorted : ℤ → Option (List Metadata) → Option (List Metadata)
sorted limit none = none
sorted limit (some out) = some (limited limit (sort_by_time out))

unfoldable pub list_snapshots : ℤ → MemoryStore → Option (List Metadata)
unfolding collect_metadata sort_by_time take
list_snapshots limit m = sorted limit (collect_metadata m.order m.snapshots)

-- The newest first: no later entry is newer.
abbrev pub IsNewestFirst : List Metadata → Type 0
IsNewestFirst [] = Unit
IsNewestFirst (x ∷ xs) = All (λ y. y.generated_at ≤ x.generated_at) xs × IsNewestFirst xs

-- How many entries a limit leaves of so many.
abbrev pub limit_of : ℤ → ℕ → ℕ
limit_of (pos (suc n)) all_ = min (suc n) all_
limit_of _ all_ = all_

All-le :
    (t u : Time) (xs : List Metadata)
    → t ≤ u
    → All (λ y. y.generated_at ≤ t) xs
    → All (λ y. y.generated_at ≤ u) xs
All-le t u [] h a = tt
All-le t u (x ∷ xs) h a = (omega arith, All-le t u xs h a.1)

All-insert_by_time :
    (t : Time) (x : Metadata) (xs : List Metadata)
    → x.generated_at ≤ t
    → All (λ y. y.generated_at ≤ t) xs
    → All (λ y. y.generated_at ≤ t) (insert_by_time x xs)
unfolding insert_by_time
All-insert_by_time t x [] h a = (h, tt)
All-insert_by_time t x (y ∷ ys) h a =
    if_ind (All (λ z. z.generated_at ≤ t)) (leb y.generated_at x.generated_at) (h, a)
      (a.0, All-insert_by_time t x ys h a.1)

insert_by_time-IsNewestFirst :
    (x : Metadata) (xs : List Metadata) → IsNewestFirst xs → IsNewestFirst (insert_by_time x xs)
unfolding insert_by_time
insert_by_time-IsNewestFirst x [] s = (tt, tt)
insert_by_time-IsNewestFirst x (y ∷ ys) s = elim (Bool-cases (leb y.generated_at x.generated_at)) [
  | inl older ↦
      let h : y.generated_at ≤ x.generated_at = ground (arith, older) in
      rw older ((h, All-le y.generated_at x.generated_at ys h s.0), s)
  | inr newer ↦ rw newer (
    All-insert_by_time y.generated_at x ys (ground (arith, newer)) s.0,
    insert_by_time-IsNewestFirst x ys s.1,
  )
]

sort_by_time-IsNewestFirst : (xs : List Metadata) → IsNewestFirst (sort_by_time xs)
unfolding sort_by_time
sort_by_time-IsNewestFirst [] = tt
sort_by_time-IsNewestFirst (x ∷ xs) =
    insert_by_time-IsNewestFirst x (sort_by_time xs) (sort_by_time-IsNewestFirst xs)

All-take :
    (t : Time) (n : ℕ) (xs : List Metadata)
    → All (λ y. y.generated_at ≤ t) xs
    → All (λ y. y.generated_at ≤ t) (take n xs)
unfolding take
All-take t zero xs a = tt
All-take t (suc n) [] a = tt
All-take t (suc n) (x ∷ xs) a = (a.0, All-take t n xs a.1)

take-IsNewestFirst : (n : ℕ) (xs : List Metadata) → IsNewestFirst xs → IsNewestFirst (take n xs)
unfolding take
take-IsNewestFirst zero xs s = tt
take-IsNewestFirst (suc n) [] s = tt
take-IsNewestFirst (suc n) (x ∷ xs) s =
    (All-take x.generated_at n xs s.0, take-IsNewestFirst n xs s.1)

length-insert_by_time :
    (x : Metadata) (xs : List Metadata) → length (insert_by_time x xs) ≡ suc (length xs)
unfolding insert_by_time
length-insert_by_time x [] = refl
length-insert_by_time x (y ∷ ys) = ground (arith, length-insert_by_time x ys)

length-sort_by_time : (xs : List Metadata) → length (sort_by_time xs) ≡ length xs
unfolding sort_by_time
length-sort_by_time [] = refl
length-sort_by_time (x ∷ xs) =
    omega (arith, length-insert_by_time x (sort_by_time xs), length-sort_by_time xs)

length-take : (n : ℕ) (xs : List Metadata) → length (take n xs) ≡ min n (length xs)
unfolding take
length-take zero xs = omega arith
length-take (suc n) [] = omega arith
length-take (suc n) (x ∷ xs) = omega (arith, length-take n xs)

-- The entries of a list that is sorted and limited: newest first, and as many as the limit leaves.
abbrev pub IsRecent : ℤ → ℕ → List Metadata → Type 0
IsRecent limit all_ out = IsNewestFirst out × (length out ≡ limit_of limit all_)

limited-IsRecent :
    (limit : ℤ) (out : List Metadata)
    → IsRecent limit (length out) (limited limit (sort_by_time out))
limited-IsRecent (pos zero) out = (sort_by_time-IsNewestFirst out, length-sort_by_time out)
limited-IsRecent (negsuc n) out = (sort_by_time-IsNewestFirst out, length-sort_by_time out)
limited-IsRecent (pos (suc n)) out = (
  take-IsNewestFirst (suc n) (sort_by_time out) (sort_by_time-IsNewestFirst out),
  length-take (suc n) (sort_by_time out) ∙ ap (min (suc n)) (length-sort_by_time out),
)

onto_all-some :
    (o : Option Snapshot) (later : Option (List Metadata)) (out : List Metadata)
    → onto_all o later ≡ some out
    → (s : Snapshot) × (rest : List Metadata) × (later ≡ some rest) × (metadata_of s ∷ rest ≡ out)
onto_all-some none later out h = absurd cc
onto_all-some (some s) none out h = absurd cc
onto_all-some (some s) (some rest) out h = (s, rest, refl, some-injective _ _ h)

length-collect_metadata :
    (ids : List String) (snapshots : Map Snapshot) (out : List Metadata)
    → collect_metadata ids snapshots ≡ some out
    → length out ≡ length ids
unfolding collect_metadata
length-collect_metadata [] snapshots out h = ap length (sym (some-injective _ _ h))
length-collect_metadata (id ∷ ids) snapshots out h =
    let (s, rest, later, same) =
      onto_all-some (lookup id snapshots) (collect_metadata ids snapshots) out h in
    subst (λ l. length l ≡ suc (length ids)) same
      (ap suc (length-collect_metadata ids snapshots rest later))

sorted-IsRecent :
    (limit : ℤ) (all_ : ℕ) (o : Option (List Metadata)) (out : List Metadata)
    → ((collected : List Metadata) → o ≡ some collected → length collected ≡ all_)
    → sorted limit o ≡ some out
    → IsRecent limit all_ out
sorted-IsRecent limit all_ none out counted h = absurd cc
sorted-IsRecent limit all_ (some collected) out counted h =
    subst (λ n. IsRecent limit n out) (counted collected refl)
      (subst (IsRecent limit (length collected)) (some-injective _ _ h)
        (limited-IsRecent limit collected))

-- The snapshots that are listed are the newest first, and as many as are stored in the order, or as
-- the limit if it is positive and less.
pub list_snapshots-IsRecent :
    (limit : ℤ) (m : MemoryStore) (out : List Metadata)
    → list_snapshots limit m ≡ some out
    → IsRecent limit (length m.order) out
unfolding list_snapshots
list_snapshots-IsRecent limit m out h =
    sorted-IsRecent limit (length m.order) (collect_metadata m.order m.snapshots) out
      (length-collect_metadata m.order m.snapshots) h
