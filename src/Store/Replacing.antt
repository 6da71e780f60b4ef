-- ===== src/Store/Replacing.antt =====
-- pkg/store/memory/store.go: what `ReplaceFindings` evicts and what it keeps.
use version_guard.Base.{
  ◌≡◌, refl, ap, ◌∙◌, String, Option, none, some, List, [], ◌∷◌, ◌==◌, eq_iff, if◌then◌else◌,
  Bool-cases, subst, inl, inr, Map, lookup, Fresh, lookup-Fresh,
}
use version_guard.Types.{Time, Finding, ResourceType}
use version_guard.Store.{Store, get_finding, replace_findings, evict}
use version_guard.Store.Contents.{
  latest, lookup-save_all, IsKeyed, Fresh-evict, Reachable, store-IsKeyed,
}

-- A finding that is not of the type.
abbrev pub drop_type : ResourceType → Option Finding → Option Finding
drop_type t none = none
drop_type t (some f) = if f.resource_type == t then none else some f

lookup-evict :
    (t : ResourceType) (k : String) (m : Map Finding)
    → IsKeyed m
    → lookup k (evict t m) ≡ drop_type t (lookup k m)
unfolding evict lookup
lookup-evict t k [] h = refl
lookup-evict t k ((j, f) ∷ m) (own, fresh, h) = elim (Bool-cases (j == k)) [
  | inl same ↦ elim (Bool-cases (f.resource_type == t)) [
    | inl gone ↦
        rw (same, gone)
          (lookup-Fresh k (evict t m)
            (Fresh-evict k t m (subst (λ i. Fresh i m) ((eq_iff j k).0 same) fresh)))
    | inr kept ↦ rw (same, kept, same) refl
  ]
  | inr other ↦ elim (Bool-cases (f.resource_type == t)) [
    | inl gone ↦ rw (other, gone) (lookup-evict t k m h)
    | inr kept ↦ rw (other, kept, other) (lookup-evict t k m h)
  ]
]

-- In a store that is reached, a replacement gives each resource the last of its new findings, and
-- leaves one without a new finding what it had, but for a finding of the replaced type, which is
-- gone.
pub get-replace :
    (now : Time) (t : ResourceType) (findings : List Finding) (s : Store) (id : String)
    → Reachable s
    → get_finding id (replace_findings now t findings s)
      ≡ latest now id findings (drop_type t (get_finding id s))
unfolding get_finding replace_findings
get-replace now t findings s id r =
    lookup-save_all now id findings (evict t s.findings)
    ∙ ap (latest now id findings) (lookup-evict t id s.findings (store-IsKeyed s r))
