-- ===== src/Detection.antt =====
-- pkg/workflow/detection/activities.go: the activities of the scan of one resource type.
-- The inventory sources, the lifecycle providers and what they keep are parameters: `world` is the
-- state that their calls may change. Telemetry and logs are not modelled.
pub mod Tests
pub mod Workflow
pub mod Batches
pub mod Drift
pub mod Lifecycles
pub mod Steps
pub mod Runs
use Prim.Native.String.{◌++◌}
use version_guard.Base.{
  ℕ, zero, suc, String, Bool, true, false, Option, none, some, List, [], ◌∷◌, is_empty, length, any,
  if◌then◌else◌, ◌==◌, ◌⊎◌, inl, inr, Map, lookup, insert, delete, trim_space,
}
use version_guard.Types.{
  Time, zero_time, ResourceType, Resource, VersionLifecycle, zero_lifecycle, LifecycleUnknownCause,
  LifecycleDataSource, LifecycleDetails, Finding, Status,
}
use version_guard.Types.Details.{lifecycle_details}
use version_guard.Policy.{VersionPolicy, unknown_cause}
use version_guard.Store.{Store, save_findings, replace_findings}
use version_guard.Snapshot.{StatBucket, empty_bucket, increment_status_count}

-- `eol.Provider`: a lifecycle, unless it is nil, and whether an error stands beside it.
pub record Provider (W : Type 0) : Type 0 where
  pub get_version_lifecycle : String → String → W → (Option VersionLifecycle × Bool) × W
  pub name : String

-- `inventory.InventorySource`: the resources, or `none` for an error.
abbrev pub InventorySource : Type 0 → Type 0
InventorySource W = ResourceType → W → Option (List Resource) × W

-- What the activities are made with.
pub record Dependencies (W : Type 0) : Type 0 where
  pub inventory_sources : Map (InventorySource W)
  pub eol_providers : Map (Provider W)
  -- The policy at each resource of a batch: it reads the clock at each call.
  pub policy : ℕ → VersionPolicy

-- A value of the `sync.Map`.
pub data Batch : Type 0 where
  resources : List Resource → Batch
  findings : List Finding → Batch

pub record State (W : Type 0) : Type 0 where
  pub resource_cache : Map Batch
  pub store : Store
  pub world : W

pub data ActivityError : Type 0 where
  no_inventory_source inventory_failed no_eol_provider : ActivityError
  batch_not_found batch_has_invalid_type : ActivityError

pub record InventoryResult : Type 0 where
  pub resource_batch_id : String
  pub resources : List Resource

pub record DetectResult : Type 0 where
  pub findings_batch_id : String
  pub findings_count : ℕ
  pub findings : List Finding

abbrev pub batch_resources : Option Batch → ActivityError ⊎ List Resource
batch_resources none = inl batch_not_found
batch_resources (some (Batch.resources rs)) = inr rs
batch_resources (some (Batch.findings fs)) = inl batch_has_invalid_type

abbrev pub batch_findings : Option Batch → ActivityError ⊎ List Finding
batch_findings none = inl batch_not_found
batch_findings (some (Batch.resources rs)) = inl batch_has_invalid_type
batch_findings (some (Batch.findings fs)) = inr fs

abbrev pub load_resources : String → List Resource → Map Batch → ActivityError ⊎ List Resource
load_resources id fallback cache =
    if id == "" then inr fallback else batch_resources (lookup id cache)

abbrev pub load_findings : String → List Finding → Map Batch → ActivityError ⊎ List Finding
load_findings id fallback cache =
    if id == "" then inr fallback else batch_findings (lookup id cache)

-- `key := resource.Engine + ":" + resource.CurrentVersion`
abbrev pub version_key : Resource → String
version_key r = (r.engine ++ ":") ++ r.current_version

abbrev pub unknown_lifecycle : String → String → String → LifecycleUnknownCause → VersionLifecycle
unknown_lifecycle version engine source cause = record zero_lifecycle {
  version = version;
  engine = engine;
  source = source;
  data_source = LifecycleDataSource.unknown;
  unknown_cause = cause;
}

-- What `FetchEOLData` keeps of a provider's answer for a resource.
unfoldable pub kept_lifecycle :
    String → Resource → Option VersionLifecycle × Bool → VersionLifecycle
kept_lifecycle name r (some l, failed) = l
kept_lifecycle name r (none, true) =
    unknown_lifecycle r.current_version r.engine name LifecycleUnknownCause.source_error
kept_lifecycle name r (none, false) =
    unknown_lifecycle r.current_version r.engine name LifecycleUnknownCause.unattributed

-- The finding that `DetectDrift` makes of a resource and its lifecycle.
unfoldable pub finding_of : VersionPolicy → Resource → VersionLifecycle → Finding
finding_of policy r l =
    let status = policy.classify r l in
    let annotated = record l { unknown_cause = unknown_cause (some r) (some l) status } in
    let details = lifecycle_details (some annotated) in
    record {
      tags = r.tags;
      extra = r.extra;
      eol = details;
      lifecycle_details = details;
      eol_date = annotated.eol_date;
      detected_at = zero_time;
      updated_at = zero_time;
      resource_id = r.id;
      service = r.service;
      current_version = r.current_version;
      engine = r.engine;
      message = policy.get_message r annotated status;
      resource_type = r.type;
      cloud_provider = r.cloud_provider;
      status = status;
    }

abbrev pub lifecycle_for : Resource → Option VersionLifecycle → VersionLifecycle
lifecycle_for r none =
    unknown_lifecycle r.current_version r.engine "" LifecycleUnknownCause.unattributed
lifecycle_for r (some l) = l

-- The loop of `DetectDrift`, from the resource of a number on.
unfoldable pub detect_all :
    (ℕ → VersionPolicy) → ℕ → List Resource → Map VersionLifecycle → List Finding
detect_all policy i [] lifecycles = []
detect_all policy i (r ∷ rs) lifecycles =
    finding_of (policy i) r (lifecycle_for r (lookup (version_key r) lifecycles))
    ∷ detect_all policy (suc i) rs lifecycles

-- The loop of `EmitMetrics`; the quotient `CompliancePercentage` is not kept.
unfoldable pub summarize : List Finding → StatBucket → StatBucket
summarize [] summary = summary
summarize (f ∷ fs) summary = summarize fs (increment_status_count f.status summary)

module _ {W : Type 0} (deps : Dependencies W) where
  -- An activity's result or error, and the state after it.
  abbrev pub Result : Type 0 → Type 0
  Result A = (ActivityError ⊎ A) × State W

  unfoldable pub fetch_inventory : String → ResourceType → State W → Result InventoryResult
  fetch_inventory scan_id t s = elim (lookup t deps.inventory_sources) [
    | none ↦ (inl no_inventory_source, s)
    | some list_resources ↦
        let listed = list_resources t s.world in
        let s' = record s { world = listed.1 } in
        elim listed.0 [
          | none ↦ (inl inventory_failed, s')
          | some rs ↦
              let batch_id = (scan_id ++ ":") ++ t in
              if scan_id == ""
              then (inr (record { resource_batch_id = ""; resources = rs }), s')
              else (
                inr (record { resource_batch_id = batch_id; resources = [] }),
                record s' {
                  resource_cache = insert batch_id (Batch.resources rs) s.resource_cache;
                },
              )
        ]
  ]

  -- What the loop of `FetchEOLData` carries: the keys that were seen, the lifecycles, the world.
  abbrev pub Fetched : Type 0
  Fetched = List String × Map VersionLifecycle × W

  -- One round of the loop.
  unfoldable pub fetch_lifecycle : Provider W → Resource → Fetched → Fetched
  fetch_lifecycle p r (seen, lifecycles, w) =
      let key = version_key r in
      let blank = unknown_lifecycle "" r.engine "" LifecycleUnknownCause.empty_inventory_version in
      let fetched = p.get_version_lifecycle r.engine r.current_version w in
      if any (λ k. k == key) seen
      then (seen, lifecycles, w)
      else if trim_space r.current_version == ""
      then (key ∷ seen, insert key blank lifecycles, w)
      else (key ∷ seen, insert key (kept_lifecycle p.name r fetched.0) lifecycles, fetched.1)

  unfoldable pub fetch_lifecycles : Provider W → List Resource → Fetched → Fetched
  fetch_lifecycles p [] f = f
  fetch_lifecycles p (r ∷ rs) f = fetch_lifecycles p rs (fetch_lifecycle p r f)

  unfoldable pub fetch_eol_data :
      ResourceType → String → List Resource → State W → Result (Map VersionLifecycle)
  fetch_eol_data t batch_id fallback s = elim (load_resources batch_id fallback s.resource_cache) [
    | inl e ↦ (inl e, s)
    | inr rs ↦ elim (lookup t deps.eol_providers) [
      | none ↦ (inl no_eol_provider, s)
      | some p ↦
          let fetched = fetch_lifecycles p rs ([], [], s.world) in
          (inr fetched.1, record s { world = fetched.2 })
    ]
  ]

  unfoldable pub detect_drift :
      String → List Resource → Map VersionLifecycle → State W → Result DetectResult
  detect_drift batch_id fallback lifecycles s =
      elim (load_resources batch_id fallback s.resource_cache) [
        | inl e ↦ (inl e, s)
        | inr rs ↦
            let detected = detect_all deps.policy 0 rs lifecycles in
            let findings_id = batch_id ++ "-findings" in
            if batch_id == ""
            then (
              inr (record {
                findings_batch_id = "";
                findings_count = length detected;
                findings = detected;
              }),
              s,
            )
            else (
              inr (record {
                findings_batch_id = findings_id;
                findings_count = length detected;
                findings = [];
              }),
              record s {
                resource_cache =
                    insert findings_id (Batch.findings detected) (delete batch_id s.resource_cache);
              },
            )
      ]

  unfoldable pub store_findings :
      Time → String → List Finding → ResourceType → State W → Result Unit
  store_findings now batch_id fallback t s =
      elim (load_findings batch_id fallback s.resource_cache) [
        | inl e ↦ (inl e, s)
        | inr fs ↦
            let saved = save_findings now fs s.store in
            let replaced = replace_findings now t fs s.store in
            (inr tt, record s { store = if t == "" then saved else replaced })
      ]

  unfoldable pub emit_metrics : String → List Finding → State W → Result StatBucket
  emit_metrics batch_id fallback s = elim (load_findings batch_id fallback s.resource_cache) [
    | inl e ↦ (inl e, s)
    | inr fs ↦
        let cache = delete batch_id s.resource_cache in
        (
          inr (summarize fs (record empty_bucket { total_resources = length fs })),
          record s { resource_cache = if batch_id == "" then s.resource_cache else cache },
        )
  ]
