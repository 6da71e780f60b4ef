-- ===== src/Store/Contents.antt =====
-- pkg/store/memory/store.go: what the store holds after its methods.
use version_guard.Base.{
  ◌≡◌, refl, String, Option, some, List, [], ◌∷◌, arith, subst, ◌==◌, eq_iff, if◌then◌else◌,
  Bool-cases, if_ind, inl, inr, Map, lookup, insert, lookup-insert, Fresh, Fresh-insert,
}
use version_guard.Types.{Time, Finding, ResourceType}
use version_guard.Store.{
  Store, new_store, save_findings, get_finding, replace_findings, save_all, stamp, evict,
}

-- The last of the findings of a resource, or `other` when there is none.
abbrev pub latest : Time → String → List Finding → Option Finding → Option Finding
latest now id [] other = other
latest now id (f ∷ findings) other =
    latest now id findings (if f.resource_id == id then some (stamp now f) else other)

pub lookup-save_all :
    (now : Time) (id : String) (findings : List Finding) (m : Map Finding)
    → lookup id (save_all now findings m) ≡ latest now id findings (lookup id m)
unfolding save_all
lookup-save_all now id [] m = refl
lookup-save_all now id (f ∷ findings) m = rw (
  lookup-save_all now id findings (insert f.resource_id (stamp now f) m),
  lookup-insert f.resource_id id (stamp now f) m,
)

-- After a save, a resource has the last of the saved findings of its ID, with its times stamped, and
-- without one it has the finding it had before.
pub get-save :
    (now : Time) (findings : List Finding) (s : Store) (id : String)
    → get_finding id (save_findings now findings s) ≡ latest now id findings (get_finding id s)
unfolding get_finding save_findings
get-save now findings s id = lookup-save_all now id findings s.findings

-- Each finding stands under its own resource ID, and each ID once.
abbrev pub IsKeyed : Map Finding → Type 0
IsKeyed [] = Unit
IsKeyed ((id, f) ∷ m) = (f.resource_id ≡ id) × Fresh id m × IsKeyed m

insert-IsKeyed : (f : Finding) (m : Map Finding) → IsKeyed m → IsKeyed (insert f.resource_id f m)
unfolding insert
insert-IsKeyed f [] h = (refl, tt, tt)
insert-IsKeyed f ((i, g) ∷ m) (own, fresh, h) = elim (Bool-cases (i == f.resource_id)) [
  | inl same ↦ rw same (refl, subst (λ k. Fresh k m) ((eq_iff i f.resource_id).0 same) fresh, h)
  | inr other ↦ rw other (
    own,
    Fresh-insert i f.resource_id f m
        (ground (arith, eq_iff i f.resource_id, eq_iff f.resource_id i)) fresh,
    insert-IsKeyed f m h,
  )
]

save_all-IsKeyed :
    (now : Time) (findings : List Finding) (m : Map Finding)
    → IsKeyed m
    → IsKeyed (save_all now findings m)
unfolding save_all stamp
save_all-IsKeyed now [] m h = h
save_all-IsKeyed now (f ∷ findings) m h =
    save_all-IsKeyed now findings _ (insert-IsKeyed (stamp now f) m h)

pub Fresh-evict :
    (k : String) (t : ResourceType) (m : Map Finding) → Fresh k m → Fresh k (evict t m)
unfolding evict
Fresh-evict k t [] h = tt
Fresh-evict k t ((j, f) ∷ m) (d, h) =
    if_ind (Fresh k) (f.resource_type == t) (Fresh-evict k t m h) (d, Fresh-evict k t m h)

pub evict-IsKeyed : (t : ResourceType) (m : Map Finding) → IsKeyed m → IsKeyed (evict t m)
unfolding evict
evict-IsKeyed t [] h = tt
evict-IsKeyed t ((j, f) ∷ m) (own, fresh, h) =
    if_ind IsKeyed (f.resource_type == t) (evict-IsKeyed t m h)
      (own, Fresh-evict j t m fresh, evict-IsKeyed t m h)

-- The stores that saves and replacements reach.
pub data Reachable : Store → Type 0 where
  start : Reachable new_store
  save :
      {s : Store} (now : Time) (findings : List Finding)
      → Reachable s
      → Reachable (save_findings now findings s)
  replace :
      {s : Store} (now : Time) (t : ResourceType) (findings : List Finding)
      → Reachable s
      → Reachable (replace_findings now t findings s)

-- In every store that is reached, each finding stands under its own resource ID, and no ID twice.
pub store-IsKeyed : (s : Store) → Reachable s → IsKeyed s.findings
unfolding save_findings replace_findings
store-IsKeyed s start = tt
store-IsKeyed _ (save {s} now findings r) =
    save_all-IsKeyed now findings s.findings (store-IsKeyed s r)
store-IsKeyed _ (replace {s} now t findings r) =
    save_all-IsKeyed now findings _ (evict-IsKeyed t s.findings (store-IsKeyed s r))
