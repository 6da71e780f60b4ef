-- ===== src/EndOfLife/Provider/Cache.antt =====
-- pkg/eol/endoflife/provider.go: what the provider's cache holds, and when the client is called.
use version_guard.Base.{
  ℕ, ◌+◌, ◌≡◌, refl, ap, ◌<◌, Bool, true, false, Option, none, some, Option-cases, Bool-cases,
  arith, subst, sym, ◌∙◌, ◌≤◌, String, if◌then◌else◌, to_lower, inl, inr,
}
use mathlib.Core.Option.{some-injective}
use version_guard.EndOfLife.Provider.{
  World, State, new_provider, Readings, CachedVersions, Answer, FetchError, entry_of,
  fetch_versions, load_versions, get_version_lifecycle, list_all_versions, is_fresh,
}

-- The states that calls of the provider's two methods reach.
pub data Reachable (w : World) : State → Type 0 where
  start : Reachable w new_provider
  get :
      {s : State} (engine version : String) (now : Readings)
      → Reachable w s
      → Reachable w (get_version_lifecycle w engine version now s).2
  list :
      {s : State} (engine : String) (now : Readings)
      → Reachable w s
      → Reachable w (list_all_versions w engine now s).1

-- No entry of the cache stands for a failed call.
abbrev pub IsCleanCache : Option CachedVersions → Type 0
IsCleanCache none = Unit
IsCleanCache (some c) = c.fetch_err ≡ none

abbrev pub IsClean : State → Type 0
IsClean s = IsCleanCache s.cache

entry_of-stored :
    (w : World) (engine : String) (now : Readings) (a : Answer)
    → (entry_of w engine now a).1 ≡ true
    → (entry_of w engine now a).0.fetch_err ≡ none
unfolding entry_of
entry_of-stored w engine now a h = elim (Option-cases a.error) [
  | inl e ↦ rw e refl
  | inr (FetchError.product_not_found, e) ↦ rw e refl
  | inr (FetchError.failed, e) ↦ ground arith
]

-- An entry that is cached only when it is clean leaves the cache clean.
update-IsClean :
    (stored : Bool) (entry : CachedVersions) (old : Option CachedVersions)
    → (stored ≡ true → entry.fetch_err ≡ none)
    → IsCleanCache old
    → IsCleanCache (if stored then some entry else old)
update-IsClean true entry old new h = new refl
update-IsClean false entry old new h = h

fetch_versions-IsClean :
    (w : World) (engine : String) (now : Readings) (s : State)
    → IsClean s
    → IsClean (fetch_versions w engine now s).1
unfolding fetch_versions
fetch_versions-IsClean w engine now s h =
    update-IsClean (entry_of w engine now (w.client s.calls)).1 _ s.cache
      (entry_of-stored w engine now (w.client s.calls)) h

-- What a load does: it serves a fresh entry and leaves the state as it is, or calls the client.
pub data IsLoad (w : World) (engine : String) (now : Readings) (s : State)
    : CachedVersions → State → Type 0 where
  served :
      (c : CachedVersions)
      → s.cache ≡ some c
      → now.checked < c.cached_at + w.cache_ttl
      → IsLoad w engine now s c s
  called :
      ((c : CachedVersions) → s.cache ≡ some c → c.cached_at + w.cache_ttl ≤ now.checked)
      → IsLoad w engine now s (fetch_versions w engine now s).0 (fetch_versions w engine now s).1

IsLoad-cached :
    (w : World) (engine : String) (now : Readings) (s : State) (c : CachedVersions)
    → s.cache ≡ some c
    → IsLoad w engine now s
        (if is_fresh w engine now c then (c, s) else fetch_versions w engine now s).0
        (if is_fresh w engine now c then (c, s) else fetch_versions w engine now s).1
IsLoad-cached w engine now s c h = elim (Bool-cases (is_fresh w engine now c)) [
  | inl fresh ↦ rw fresh (served c h (ground arith))
  | inr stale ↦ rw stale (
      called (λ d e.
        subst (λ x. x.cached_at + w.cache_ttl ≤ now.checked) (some-injective c d (sym h ∙ e))
          (ground arith)))
]

IsLoad-state :
    (w : World) (engine : String) (now : Readings) (cache : Option CachedVersions) (calls : ℕ)
    → let s : State = record { cache = cache; calls = calls } in
      IsLoad w engine now s (load_versions w engine now s).0 (load_versions w engine now s).1
unfolding load_versions
IsLoad-state w engine now none calls = called (λ c e. absurd cc)
IsLoad-state w engine now (some c) calls =
    IsLoad-cached w engine now (record { cache = some c; calls = calls }) c refl

-- Every load serves a fresh entry, without a call, or calls the client once.
pub load_versions-IsLoad :
    (w : World) (engine : String) (now : Readings) (s : State)
    → IsLoad w engine now s (load_versions w engine now s).0 (load_versions w engine now s).1
load_versions-IsLoad w engine now s = IsLoad-state w engine now s.cache s.calls

IsLoad-fresh :
    {w : World} {engine : String} {now : Readings} {s s' : State} {d : CachedVersions}
    (c : CachedVersions)
    → IsLoad w engine now s d s'
    → s.cache ≡ some c
    → now.checked < c.cached_at + w.cache_ttl
    → ◌≡◌ {A = CachedVersions × State} (d, s') (c, s)
IsLoad-fresh {s} c (served d f fresh) e h = ap (λ x. (x, s)) (some-injective d c (sym f ∙ e))
IsLoad-fresh c (called stale) e h = absurd (omega (arith, stale c e, h))

IsLoad-IsClean :
    {w : World} {engine : String} {now : Readings} {s s' : State} {c : CachedVersions}
    → IsLoad w engine now s c s'
    → IsClean s
    → IsClean s'
IsLoad-IsClean (served c e fresh) h = h
IsLoad-IsClean {w} {engine} {now} {s} (called stale) h = fetch_versions-IsClean w engine now s h

load_versions-IsClean :
    (w : World) (engine : String) (now : Readings) (s : State)
    → IsClean s
    → IsClean (load_versions w engine now s).1
load_versions-IsClean w engine now s = IsLoad-IsClean (load_versions-IsLoad w engine now s)

-- Both methods leave the state that their load leaves.
get-state :
    (w : World) (engine version : String) (now : Readings) (s : State)
    → (get_version_lifecycle w engine version now s).2
      ≡ (load_versions w (to_lower w.lower engine) now s).1
unfolding get_version_lifecycle
get-state w engine version now s = refl

list-state :
    (w : World) (engine : String) (now : Readings) (s : State)
    → (list_all_versions w engine now s).1 ≡ (load_versions w (to_lower w.lower engine) now s).1
unfolding list_all_versions
list-state w engine now s = ground arith

-- No state that the provider reaches caches the answer of a failed call.
pub cache-IsClean : (w : World) (s : State) → Reachable w s → IsClean s
cache-IsClean w s start = tt
cache-IsClean w _ (get {s} engine version now r) =
    subst IsClean (sym (get-state w engine version now s))
      (load_versions-IsClean w _ now s (cache-IsClean w s r))
cache-IsClean w _ (list {s} engine now r) =
    subst IsClean (sym (list-state w engine now s))
      (load_versions-IsClean w _ now s (cache-IsClean w s r))

-- A load whose entry is stored and still fresh at the next load is the last call for both: the next
-- load returns the same entry and leaves the state as it is.
pub load_twice :
    (w : World) (engine : String) (now later : Readings) (s : State) (c : CachedVersions)
    → (load_versions w engine now s).1.cache ≡ some c
    → later.checked < c.cached_at + w.cache_ttl
    → load_versions w engine later (load_versions w engine now s).1
      ≡ (c, (load_versions w engine now s).1)
load_twice w engine now later s c e h =
    IsLoad-fresh c (load_versions-IsLoad w engine later (load_versions w engine now s).1) e h
