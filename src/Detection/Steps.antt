-- ===== src/Detection/Steps.antt =====
-- pkg/workflow/detection/activities.go: what each activity does on a batch that is there.
use Prim.Native.String.{◌++◌}
use version_guard.Base.{
  ◌≡◌, refl, ◌∙◌, String, false, some, List, [], length, ◌==◌, eq_iff, inr, lookup, insert, delete,
  lookup-insert,
}
use version_guard.Types.{Time, ResourceType, Resource, Finding}
use version_guard.Store.{replace_findings}
use version_guard.Snapshot.{empty_bucket}
use version_guard.Detection.{
  Dependencies, State, Batch, Provider, InventorySource, fetch_inventory, fetch_lifecycles,
  fetch_eol_data, store_findings, emit_metrics, summarize,
}

module _ {W : Type 0} (deps : Dependencies W) where
  -- The state after `FetchInventory` of a named scan.
  unfoldable pub fetched_state : String → List Resource → W → State W → State W
  fetched_state id rs w s = record s {
    world = w;
    resource_cache = insert id (Batch.resources rs) s.resource_cache;
  }

  pub fetched_state-batch :
      (id : String) (rs : List Resource) (w : W) (s : State W)
      → lookup id (fetched_state id rs w s).resource_cache ≡ some (Batch.resources rs)
  unfolding fetched_state
  fetched_state-batch id rs w s =
      lookup-insert id id (Batch.resources rs) s.resource_cache ∙ rw ((eq_iff id id).1 refl) refl

  pub fetch_inventory-batch :
      (scan_id : String) (t : ResourceType) (s : State W) (src : InventorySource W)
      (rs : List Resource)
      → (scan_id == "") ≡ false
      → lookup t deps.inventory_sources ≡ some src
      → (src t s.world).0 ≡ some rs
      → fetch_inventory deps scan_id t s ≡ (
        inr (record { resource_batch_id = (scan_id ++ ":") ++ t; resources = [] }),
        fetched_state ((scan_id ++ ":") ++ t) rs (src t s.world).1 s,
      )
  unfolding fetch_inventory fetched_state
  fetch_inventory-batch scan_id t s src rs n e l = rw (e, fetch_inventory, l, n) refl

  pub fetch_eol_data-batch :
      (t : ResourceType) (id : String) (fallback : List Resource) (s : State W) (p : Provider W)
      (rs : List Resource)
      → (id == "") ≡ false
      → lookup id s.resource_cache ≡ some (Batch.resources rs)
      → lookup t deps.eol_providers ≡ some p
      → fetch_eol_data deps t id fallback s ≡ (
        inr (fetch_lifecycles deps p rs ([], [], s.world)).1,
        record s { world = (fetch_lifecycles deps p rs ([], [], s.world)).2 },
      )
  unfolding fetch_eol_data
  fetch_eol_data-batch t id fallback s p rs n e f = rw (n, e, fetch_eol_data, f) refl

  pub store_findings-batch :
      (now : Time) (id : String) (fallback fs : List Finding) (t : ResourceType) (s : State W)
      → (id == "") ≡ false
      → (t == "") ≡ false
      → lookup id s.resource_cache ≡ some (Batch.findings fs)
      → store_findings deps now id fallback t s
        ≡ (inr tt, record s { store = replace_findings now t fs s.store })
  unfolding store_findings
  store_findings-batch now id fallback fs t s n m e = rw (n, e, store_findings, m) refl

  pub emit_metrics-batch :
      (id : String) (fallback fs : List Finding) (s : State W)
      → (id == "") ≡ false
      → lookup id s.resource_cache ≡ some (Batch.findings fs)
      → emit_metrics deps id fallback s ≡ (
        inr (summarize fs (record empty_bucket { total_resources = length fs })),
        record s { resource_cache = delete id s.resource_cache },
      )
  unfolding emit_metrics
  emit_metrics-batch id fallback fs s n e = rw (n, e, emit_metrics, n) refl
