-- ===== src/Detection/Batches.antt =====
-- pkg/workflow/detection/activities.go: the batches that the activities hand on by ID.
use Prim.Native.String.{len, ◌++◌}
use text.Mathlib.TextLemmas.{append_cancel_left, append-eq-nil_iff}
use text.Mathlib.TextPositions.{len-append}
use version_guard.Base.{
  ◌≡◌, refl, sym, ap, ◌∙◌, String, false, none, some, List, [], arith, length, subst, ◌==◌, eq_iff,
  inl, inr, Map, lookup, insert, delete, lookup-insert, lookup-delete, false_of_not, not_of_false,
}
use version_guard.Types.{ResourceType, Resource, VersionLifecycle, Finding}
use version_guard.Detection.{
  Dependencies, State, Batch, ActivityError, detect_all, detect_drift, load_resources,
}

-- The batches of two resource types of one scan have different IDs.
pub batch_id-distinct :
    (scan_id : String) (t u : ResourceType) → (scan_id ++ ":") ++ t ≡ (scan_id ++ ":") ++ u → t ≡ u
batch_id-distinct scan_id t u e = append_cancel_left (scan_id ++ ":") t u e

pub nonempty-append : (s t : String) → (s == "") ≡ false → (s ++ t == "") ≡ false
nonempty-append s t h =
    false_of_not (s ++ t == "") (eq_iff (s ++ t) "")
      (λ e. not_of_false (s == "") (eq_iff s "") h (append-eq-nil_iff.0 e).0)

pub findings_id-distinct : (id : String) → (id ++ "-findings" == id) ≡ false
findings_id-distinct id =
    false_of_not (id ++ "-findings" == id) (eq_iff (id ++ "-findings") id)
      (λ e. omega (arith, len-append id "-findings", ap len e))

module _ {W : Type 0} (deps : Dependencies W) where
  batch_resources-found :
      (id : String) (fallback rs : List Resource) (cache : Map Batch)
      → (id == "") ≡ false
      → lookup id cache ≡ some (Batch.resources rs)
      → load_resources id fallback cache ≡ inr rs
  batch_resources-found id fallback rs cache n e = rw (n, e) refl

  -- The state after `DetectDrift` on a batch.
  unfoldable pub detected : String → List Finding → State W → State W
  detected id fs s = record s {
    resource_cache = insert (id ++ "-findings") (Batch.findings fs) (delete id s.resource_cache);
  }

  pub detect_drift-batch :
      (id : String) (fallback rs : List Resource) (lifecycles : Map VersionLifecycle) (s : State W)
      → (id == "") ≡ false
      → lookup id s.resource_cache ≡ some (Batch.resources rs)
      → let fs = detect_all deps.policy 0 rs lifecycles in
        detect_drift deps id fallback lifecycles s ≡ (
          inr (record {
            findings_batch_id = id ++ "-findings";
            findings_count = length fs;
            findings = [];
          }),
          detected id fs s,
        )
  unfolding detect_drift detected
  detect_drift-batch id fallback rs lifecycles s n e = rw (n, e, detect_drift, n) refl

  detect_drift-none :
      (id : String) (fallback : List Resource) (lifecycles : Map VersionLifecycle) (s : State W)
      → (id == "") ≡ false
      → lookup id s.resource_cache ≡ none
      → detect_drift deps id fallback lifecycles s ≡ (inl ActivityError.batch_not_found, s)
  unfolding detect_drift
  detect_drift-none id fallback lifecycles s n e = rw (n, e, detect_drift) refl

  detected-none :
      (id : String) (fs : List Finding) (s : State W)
      → lookup id (detected id fs s).resource_cache ≡ none
  unfolding detected
  detected-none id fs s =
      lookup-insert (id ++ "-findings") id (Batch.findings fs) (delete id s.resource_cache)
      ∙ rw (findings_id-distinct id, lookup-delete id id s.resource_cache, (eq_iff id id).1 refl)
          refl

  pub detected-findings :
      (id : String) (fs : List Finding) (s : State W)
      → lookup (id ++ "-findings") (detected id fs s).resource_cache ≡ some (Batch.findings fs)
  unfolding detected
  detected-findings id fs s =
      lookup-insert (id ++ "-findings") (id ++ "-findings") (Batch.findings fs)
        (delete id s.resource_cache)
      ∙ rw ((eq_iff (id ++ "-findings") (id ++ "-findings")).1 refl) refl

  -- `DetectDrift` deletes the batch of resources that it reads: run a second time on a named
  -- batch, as after a result that is lost, it fails and leaves the state as it is.
  pub detect_drift_again :
      (id : String) (fallback rs : List Resource) (lifecycles : Map VersionLifecycle) (s : State W)
      → (id == "") ≡ false
      → lookup id s.resource_cache ≡ some (Batch.resources rs)
      → let after = (detect_drift deps id fallback lifecycles s).1 in
        detect_drift deps id fallback lifecycles after ≡ (inl ActivityError.batch_not_found, after)
  detect_drift_again id fallback rs lifecycles s n e =
      detect_drift-none id fallback lifecycles _ n (
        subst (λ r. lookup id r.1.resource_cache ≡ none)
          (sym (detect_drift-batch id fallback rs lifecycles s n e))
          (detected-none id (detect_all deps.policy 0 rs lifecycles) s))
