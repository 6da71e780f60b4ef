-- ===== src/Detection/Lifecycles.antt =====
-- pkg/workflow/detection/activities.go: the lifecycles that `FetchEOLData` hands to `DetectDrift`.
use version_guard.Base.{
  ◌≡◌, refl, sym, ◌∙◌, String, true, List, [], ◌∷◌, any, All, arith, ◌==◌, eq_iff, trim_space,
  Bool-cases, if_ind, is_some, inl, inr, Map, lookup, insert, lookup-insert,
}
use version_guard.Types.{VersionLifecycle, Resource}
use version_guard.Detection.{
  Dependencies, Provider, Fetched, fetch_lifecycle, fetch_lifecycles, version_key,
}

insert-own :
    (k : String) (l : VersionLifecycle) (m : Map VersionLifecycle)
    → is_some (lookup k (insert k l m)) ≡ true
insert-own k l m = ground (arith, lookup-insert k k l m, (eq_iff k k).1 refl)

insert-kept :
    (k j : String) (l : VersionLifecycle) (m : Map VersionLifecycle)
    → is_some (lookup k m) ≡ true
    → is_some (lookup k (insert j l m)) ≡ true
insert-kept k j l m h = ground (arith, lookup-insert j k l m)

module _ {W : Type 0} (deps : Dependencies W) where
  -- The keys that were seen are those that have a lifecycle.
  unfoldable pub IsTracked : Fetched deps → Type 0
  IsTracked (seen, lifecycles, w) =
      (k : String) → any (λ j. j == k) seen ≡ is_some (lookup k lifecycles)

  IsTracked-insert :
      (key : String) (l : VersionLifecycle) (seen : List String) (lifecycles : Map VersionLifecycle)
      (w v : W)
      → IsTracked (seen, lifecycles, w)
      → IsTracked (key ∷ seen, insert key l lifecycles, v)
  unfolding IsTracked
  IsTracked-insert key l seen lifecycles w v h k =
      ground (arith, h k, lookup-insert key k l lifecycles)

  fetch_lifecycle-IsTracked :
      (p : Provider W) (r : Resource) (f : Fetched deps)
      → IsTracked f
      → IsTracked (fetch_lifecycle deps p r f)
  unfolding fetch_lifecycle
  fetch_lifecycle-IsTracked p r (seen, lifecycles, w) h = if_ind IsTracked _ h (
      if_ind IsTracked _ (IsTracked-insert _ _ seen lifecycles w _ h)
        (IsTracked-insert _ _ seen lifecycles w _ h))

  -- After a round, the resource has a lifecycle, and what was there is kept.
  fetch_lifecycle-own :
      (p : Provider W) (r : Resource) (f : Fetched deps)
      → IsTracked f
      → is_some (lookup (version_key r) (fetch_lifecycle deps p r f).1) ≡ true
  unfolding fetch_lifecycle IsTracked
  fetch_lifecycle-own p r (seen, lifecycles, w) h =
      elim (Bool-cases (any (λ k. k == version_key r) seen)) [
        | inl e ↦ rw e (sym (h (version_key r)) ∙ e)
        | inr e ↦ elim (Bool-cases (trim_space r.current_version == "")) [
          | inl f ↦ rw (e, f) (insert-own _ _ lifecycles)
          | inr f ↦ rw (e, f) (insert-own _ _ lifecycles)
        ]
      ]

  unfoldable HasKey : String → Fetched deps → Type 0
  HasKey k f = is_some (lookup k f.1) ≡ true

  insert-HasKey :
      (k key : String) (l : VersionLifecycle) (seen : List String) (m : Map VersionLifecycle)
      (w v : W)
      → HasKey k (seen, m, w)
      → HasKey k (key ∷ seen, insert key l m, v)
  unfolding HasKey
  insert-HasKey k key l seen m w v h = insert-kept k key l m h

  fetch_lifecycle-kept :
      (p : Provider W) (r : Resource) (f : Fetched deps) (k : String)
      → HasKey k f
      → HasKey k (fetch_lifecycle deps p r f)
  unfolding fetch_lifecycle
  fetch_lifecycle-kept p r (seen, m, w) k h =
      if_ind (HasKey k) _ h
        (if_ind (HasKey k) _ (insert-HasKey k _ _ seen m w _ h) (insert-HasKey k _ _ seen m w _ h))

  fetch_lifecycles-kept :
      (p : Provider W) (rs : List Resource) (f : Fetched deps) (k : String)
      → HasKey k f
      → HasKey k (fetch_lifecycles deps p rs f)
  unfolding fetch_lifecycles
  fetch_lifecycles-kept p [] f k h = h
  fetch_lifecycles-kept p (r ∷ rs) f k h =
      fetch_lifecycles-kept p rs (fetch_lifecycle deps p r f) k (fetch_lifecycle-kept p r f k h)

  fetch_lifecycles-HasKey :
      (p : Provider W) (rs : List Resource) (f : Fetched deps)
      → IsTracked f
      → All (λ r. is_some (lookup (version_key r) (fetch_lifecycles deps p rs f).1) ≡ true) rs
  unfolding fetch_lifecycles HasKey
  fetch_lifecycles-HasKey p [] f h = tt
  fetch_lifecycles-HasKey p (r ∷ rs) f h = (
    fetch_lifecycles-kept p rs (fetch_lifecycle deps p r f) (version_key r)
        (fetch_lifecycle-own p r f h),
    fetch_lifecycles-HasKey p rs (fetch_lifecycle deps p r f) (fetch_lifecycle-IsTracked p r f h),
  )

  -- `FetchEOLData` has a lifecycle for the engine and version of every resource of its batch, so
  -- that `DetectDrift` finds one for each.
  pub fetched_for_all :
      (p : Provider W) (rs : List Resource) (w : W)
      → All
          (λ r. is_some (lookup (version_key r) (fetch_lifecycles deps p rs ([], [], w)).1) ≡ true)
          rs
  unfolding lookup IsTracked
  fetched_for_all p rs w = fetch_lifecycles-HasKey p rs ([], [], w) (λ k. refl)
