-- ===== src/Snapshot/Memory.antt =====
-- pkg/snapshot/memory_store.go: the snapshot store in memory.
use version_guard.Base.{
  is_some, ◌≡◌, refl, ◌∙◌, String, Bool, true, false, Option, none, some, List, [], ◌∷◌, ◌++◌,
  if◌then◌else◌, ◌==◌, eq_iff, Map, lookup, insert, lookup-insert,
}
use version_guard.Snapshot.{Snapshot}

pub record MemoryStore : Type 0 where
  pub snapshots : Map Snapshot
  pub order : List String

abbrev pub new_memory_store : MemoryStore
new_memory_store = record { snapshots = []; order = [] }

-- `SaveSnapshot`, at a snapshot that is there; `false` is the error.
unfoldable pub save_snapshot : Snapshot → MemoryStore → Bool × MemoryStore
save_snapshot s m =
    let exists = is_some (lookup s.snapshot_id m.snapshots) in
    let saved : MemoryStore = record {
      snapshots = insert s.snapshot_id s m.snapshots;
      order = if exists then m.order else m.order ++ s.snapshot_id ∷ [];
    } in
    if s.snapshot_id == "" then (false, m) else (true, saved)

abbrev pub last : List String → Option String
last [] = none
last (id ∷ []) = some id
last (id ∷ next ∷ ids) = last (next ∷ ids)

unfoldable pub get_snapshot : String → MemoryStore → Option Snapshot
get_snapshot id m = lookup id m.snapshots

unfoldable pub get_latest_snapshot : MemoryStore → Option Snapshot
get_latest_snapshot m = elim (last m.order) [ none ↦ none | some id ↦ lookup id m.snapshots ]

last-append : (ids : List String) (id : String) → last (ids ++ id ∷ []) ≡ some id
last-append [] id = refl
last-append (j ∷ []) id = refl
last-append (j ∷ k ∷ ids) id = last-append (k ∷ ids) id

-- After a save under an ID that is not empty and not stored yet, the latest snapshot is the saved
-- one.
pub latest-save_new :
    (s : Snapshot) (m : MemoryStore)
    → (s.snapshot_id == "") ≡ false
    → get_snapshot s.snapshot_id m ≡ none
    → get_latest_snapshot (save_snapshot s m).1 ≡ some s
unfolding get_latest_snapshot save_snapshot get_snapshot
latest-save_new s m n e =
    rw (n, e, get_latest_snapshot, last-append m.order s.snapshot_id, save_snapshot, n)
      (lookup-insert s.snapshot_id s.snapshot_id s m.snapshots
        ∙ rw ((eq_iff s.snapshot_id s.snapshot_id).1 refl) refl)

-- After a save under an ID that is not empty and stored already, but not the last in the order,
-- the latest snapshot is still the one under the last ID.
pub latest-save_again :
    (s t old : Snapshot) (m : MemoryStore)
    → (s.snapshot_id == "") ≡ false
    → get_snapshot s.snapshot_id m ≡ some old
    → last m.order ≡ some t.snapshot_id
    → get_snapshot t.snapshot_id m ≡ some t
    → (s.snapshot_id == t.snapshot_id) ≡ false
    → get_latest_snapshot (save_snapshot s m).1 ≡ some t
unfolding get_latest_snapshot save_snapshot get_snapshot
latest-save_again s t old m n e l f d =
    rw (n, e, get_latest_snapshot, l, save_snapshot, n)
      (lookup-insert s.snapshot_id t.snapshot_id s m.snapshots ∙ rw (d, f) refl)
