-- ===== src/Detection/Runs.antt =====
-- pkg/workflow/detection/workflow.go: what a run of the workflow that nothing fails in does.
use Prim.Native.String.{◌++◌}
use version_guard.Base.{
  ℕ, suc, ◌≡◌, refl, ap, ◌∙◌, String, false, ◌||◌, none, some, List, [], ◌∷◌, arith, length,
  if◌then◌else◌, ◌==◌, ◌⊎◌, inl, inr, Map, lookup, insert, delete, lookup-insert, lookup-delete,
}
use version_guard.Types.{Time, ResourceType, Resource, VersionLifecycle, Finding}
use version_guard.Types.Elapsed.{elapsed}
use version_guard.Store.{replace_findings}
use version_guard.Snapshot.{empty_bucket}
use version_guard.Detection.{
  Dependencies, State, Batch, ActivityError, Provider, InventorySource, detect_all,
  fetch_lifecycles, fetch_eol_data, summarize,
}
use version_guard.Detection.Batches.{
  nonempty-append, detected, detect_drift-batch, detected-findings,
}
use version_guard.Detection.Workflow.{
  WorkflowOutput, Clock, scan_id_or, and_then, detection_workflow,
}
use version_guard.Detection.Steps.{
  fetched_state, fetched_state-batch, fetch_inventory-batch, fetch_eol_data-batch,
  store_findings-batch, emit_metrics-batch,
}

module _ {W : Type 0} (deps : Dependencies W) where
  -- What a run is given: a named scan of a named type, whose source lists the resources `rs`, and a
  -- provider for the type.
  pub record IsRunnable (scan_id : String) (t : ResourceType) (s : State W)
      (src : InventorySource W) (p : Provider W) (rs : List Resource) : Type 0 where
    pub named : (scan_id == "") ≡ false
    pub typed : (t == "") ≡ false
    pub source : lookup t deps.inventory_sources ≡ some src
    pub listed : (src t s.world).0 ≡ some rs
    pub provider : lookup t deps.eol_providers ≡ some p

  -- The findings of a run, the world after it, and its last state.
  abbrev pub fetched_of :
      ResourceType
      → State W
      → InventorySource W
      → Provider W
      → List Resource
      → Map VersionLifecycle × W
  fetched_of t s src p rs =
      let f = fetch_lifecycles deps p rs ([], [], (src t s.world).1) in (f.1, f.2)

  abbrev pub findings_of :
      ResourceType → State W → InventorySource W → Provider W → List Resource → List Finding
  findings_of t s src p rs = detect_all deps.policy 0 rs (fetched_of t s src p rs).0

  abbrev batch_of : String → ResourceType → String
  batch_of scan_id t = (scan_id ++ ":") ++ t

  abbrev before_store :
      String → ResourceType → State W → InventorySource W → Provider W → List Resource → State W
  before_store scan_id t s src p rs =
      detected deps (batch_of scan_id t) (findings_of t s src p rs)
        (record (fetched_state deps (batch_of scan_id t) rs (src t s.world).1 s) {
          world = (fetched_of t s src p rs).1;
        })

  abbrev last_state :
      Time
      → String
      → ResourceType
      → State W
      → InventorySource W
      → Provider W
      → List Resource
      → State W
  last_state now scan_id t s src p rs =
      let s' = before_store scan_id t s src p rs in
      record s' {
        store = replace_findings now t (findings_of t s src p rs) s.store;
        resource_cache = delete (batch_of scan_id t ++ "-findings") s'.resource_cache;
      }

  workflow-last_state :
      (now : Clock) (workflow_id scan_id : String) (t : ResourceType) (s : State W)
      (src : InventorySource W) (p : Provider W) (rs : List Resource)
      → IsRunnable (scan_id_or workflow_id scan_id) t s src p rs
      → detection_workflow deps now workflow_id scan_id t s ≡ (
        inr (record {
          scan_id = scan_id_or workflow_id scan_id;
          resource_type = t;
          findings_count = length (findings_of t s src p rs);
          summary = some (
              summarize
                (findings_of t s src p rs)
                (record empty_bucket { total_resources = length (findings_of t s src p rs) }));
          completed_at = now.end;
          duration_millis = elapsed 1_000_000 now.start now.end;
        }),
        last_state now.stored (scan_id_or workflow_id scan_id) t s src p rs,
      )
  unfolding detection_workflow and_then fetched_state detected
  workflow-last_state now workflow_id scan_id t s src p rs h =
      let id = batch_of (scan_id_or workflow_id scan_id) t in
      let fs = findings_of t s src p rs in
      let n =
        nonempty-append (scan_id_or workflow_id scan_id ++ ":") t
          (nonempty-append (scan_id_or workflow_id scan_id) ":" h.named) in
      let m = nonempty-append id "-findings" n in
      let s₁ = fetched_state deps id rs (src t s.world).1 s in
      let s₂ : State W = record s₁ { world = (fetched_of t s src p rs).1 } in
      let s₃ = detected deps id fs s₂ in
      let s₄ : State W = record s₃ { store = replace_findings now.stored t fs s.store } in
      let stored = fetched_state-batch deps id rs (src t s.world).1 s in
      rw
        (
          fetch_inventory-batch deps (scan_id_or workflow_id scan_id) t s src rs h.named h.source
              h.listed,
          fetch_eol_data-batch deps t id [] s₁ p rs n stored h.provider,
          detect_drift-batch deps id [] rs (fetched_of t s src p rs).0 s₂ n stored,
          store_findings-batch deps now.stored (id ++ "-findings") [] fs t s₃ m h.typed
              (detected-findings deps id fs s₂),
          emit_metrics-batch deps (id ++ "-findings") [] fs s₄ m (detected-findings deps id fs s₂),
        )
        refl

  -- What a run leaves behind: its result, the findings of the type replaced in the store, and no
  -- batch in the cache that was not there before.
  pub record HasRun (now : Clock) (scan_id : String) (t : ResourceType) (s : State W)
      (src : InventorySource W) (p : Provider W) (rs : List Resource)
      (r : (ActivityError ⊎ WorkflowOutput) × State W) : Type 0 where
    pub output : WorkflowOutput
    pub succeeds : r.0 ≡ inr output
    pub counted : output.findings_count ≡ length rs
    pub stored : r.1.store ≡ replace_findings now.stored t (findings_of t s src p rs) s.store
    pub cleaned :
        (k : String)
        → lookup k r.1.resource_cache ≡ (
            if batch_of scan_id t == k || (batch_of scan_id t ++ "-findings") == k
            then none
            else lookup k s.resource_cache)

  length-detect_all :
      (i : ℕ) (rs : List Resource) (lifecycles : Map VersionLifecycle)
      → length (detect_all deps.policy i rs lifecycles) ≡ length rs
  unfolding detect_all
  length-detect_all i [] lifecycles = refl
  length-detect_all i (r ∷ rs) lifecycles = ap suc (length-detect_all (suc i) rs lifecycles)

  last_state-cleaned :
      (now : Time) (scan_id : String) (t : ResourceType) (s : State W) (src : InventorySource W)
      (p : Provider W) (rs : List Resource) (k : String)
      → lookup k (last_state now scan_id t s src p rs).resource_cache ≡ (
          if batch_of scan_id t == k || (batch_of scan_id t ++ "-findings") == k
          then none
          else lookup k s.resource_cache)
  unfolding detected fetched_state
  last_state-cleaned now scan_id t s src p rs k =
      let id = batch_of scan_id t in
      let fs = findings_of t s src p rs in
      let m = insert id (Batch.resources rs) s.resource_cache in
      ground (
        arith,
        lookup-delete (id ++ "-findings") k
            (insert (id ++ "-findings") (Batch.findings fs) (delete id m)),
        lookup-insert (id ++ "-findings") k (Batch.findings fs) (delete id m),
        lookup-delete id k m,
        lookup-insert id k (Batch.resources rs) s.resource_cache,
      )

  -- For a named scan of a named type, when the inventory source lists resources and the type has a
  -- provider, the workflow succeeds, counts one finding for each resource, replaces the findings
  -- of the type in the store by those of the resources, and leaves in the cache what was there
  -- under other IDs than those of its two batches, and nothing under these.
  pub detection_workflow-HasRun :
      (now : Clock) (workflow_id scan_id : String) (t : ResourceType) (s : State W)
      (src : InventorySource W) (p : Provider W) (rs : List Resource)
      → IsRunnable (scan_id_or workflow_id scan_id) t s src p rs
      → HasRun now
          (scan_id_or workflow_id scan_id)
          t
          s
          src
          p
          rs
          (detection_workflow deps now workflow_id scan_id t s)
  detection_workflow-HasRun now workflow_id scan_id t s src p rs h =
      let e = workflow-last_state now workflow_id scan_id t s src p rs h in
      record {
        output = _;
        succeeds = ap (λ r. r.0) e;
        counted = length-detect_all 0 rs _;
        stored = ap (λ r. r.1.store) e;
        cleaned = λ k.
            ap (λ r. lookup k r.1.resource_cache) e
            ∙ last_state-cleaned now.stored (scan_id_or workflow_id scan_id) t s src p rs k;
      }

  -- A named scan whose source lists resources and whose type has no provider fails after its
  -- resources are cached, and leaves them in the cache under an ID of its own.
  pub detection_workflow-leaves_batch :
      (now : Clock) (workflow_id scan_id : String) (t : ResourceType) (s : State W)
      (src : InventorySource W) (rs : List Resource)
      → (scan_id_or workflow_id scan_id == "") ≡ false
      → lookup t deps.inventory_sources ≡ some src
      → (src t s.world).0 ≡ some rs
      → lookup t deps.eol_providers ≡ none
      → let r = detection_workflow deps now workflow_id scan_id t s in
        (r.0 ≡ inl ActivityError.no_eol_provider)
        × (lookup (batch_of (scan_id_or workflow_id scan_id) t) r.1.resource_cache
            ≡ some (Batch.resources rs))
  unfolding detection_workflow and_then fetch_eol_data
  detection_workflow-leaves_batch now workflow_id scan_id t s src rs n e l f =
      let scan = scan_id_or workflow_id scan_id in
      let id = batch_of scan t in
      let m = nonempty-append (scan ++ ":") t (nonempty-append scan ":" n) in
      let stored = fetched_state-batch deps id rs (src t s.world).1 s in
      let step : detection_workflow deps now workflow_id scan_id t s
          ≡ (inl ActivityError.no_eol_provider, fetched_state deps id rs (src t s.world).1 s) =
        rw (fetch_inventory-batch deps scan t s src rs n e l, m, stored, fetch_eol_data, f) refl in
      (ap (λ r. r.0) step, ap (λ r. lookup id r.1.resource_cache) step ∙ stored)
