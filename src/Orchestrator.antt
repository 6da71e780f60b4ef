-- ===== src/Orchestrator.antt =====
-- pkg/workflow/orchestrator: the scan of all resource types (workflow.go) and the activity that
-- builds and saves its snapshot (activities.go).
-- What Temporal does is a parameter: the outcome of each child workflow, the values that
-- `GetVersion` returns, and the clock. The children have ended when the loop over the results
-- starts to use what they stored. Telemetry and logs are not modelled.
pub mod Tests
pub mod Notify
pub mod Validation
pub mod Completeness
pub mod Workflow
pub mod Collected
pub mod Runs
use version_guard.Base.{
  ℕ, zero, suc, ◌+◌, ◌≡◌, String, Bool, true, false, not, ◌&&◌, ◌||◌, Option, none, some, List, [],
  ◌∷◌, ◌++◌, map, keep, any, is_empty, length, eqb, if◌then◌else◌, ◌==◌, ◌⊎◌, inl, inr, Map, lookup,
  insert,
}
use version_guard.Types.{Time, ResourceType, Finding}
use version_guard.Types.Elapsed.{ℤ, elapsed}
use version_guard.Store.{Store, FindingFilters, list_findings}
use version_guard.Snapshot.{
  StatBucket, Snapshot, new_builder, with_scan_timing, add_findings, build,
}

abbrev pub active_scan_workflow_id : String
active_scan_workflow_id = "version-guard-active-scan"

unfoldable pub normalize_scan_scope : String → String
normalize_scan_scope scope = if scope == "targeted" then "targeted" else "full"

pub record CreateSnapshotInput : Type 0 where
  pub scan_id : String
  pub scan_scope : String
  pub resource_types : List ResourceType
  pub expected_resource_types : List ResourceType
  pub scan_start_time : Time
  pub scan_end_time : Time

pub record SnapshotResult : Type 0 where
  pub snapshot_id : String
  pub total_findings : ℕ

-- The reason beside the error of `validateSnapshotCompleteness`; `ok` stands for no error.
pub data ValidationReason : Type 0 where
  ok empty_expected_set empty_snapshot invalid_summary missing_resource_type : ValidationReason

pub data SnapshotError : Type 0 where
  invalid : ValidationReason → SnapshotError
  not_saved : SnapshotError

unfoldable pub should_validate_snapshot_completeness : CreateSnapshotInput → Bool
unfolding normalize_scan_scope
should_validate_snapshot_completeness input =
    normalize_scan_scope input.scan_scope == "full"
    && (not (input.scan_scope == "") || not (is_empty input.expected_resource_types))

abbrev pub keys {ℓ} : {V : Type ℓ} → Map V → List String
keys [] = []
keys ((k, v) ∷ m) = k ∷ keys m

unfoldable pub snapshot_resource_types : Snapshot → List ResourceType
snapshot_resource_types snap = keys snap.findings_by_type

unfoldable pub missing_resource_types : List ResourceType → List ResourceType → List ResourceType
missing_resource_types expected present = keep (λ t. not (any (λ p. p == t) present)) expected

-- The loop of `validateSnapshotSummary`: the sum of the totals, or `none` for an error.
unfoldable pub sum_types : Map (List Finding) → Map StatBucket → ℕ → Option ℕ
sum_types [] buckets total = some total
sum_types ((t, findings) ∷ m) buckets total = elim (lookup t buckets) [
  | none ↦ none
  | some b ↦
      let rest = sum_types m buckets (total + b.total_resources) in
      if eqb b.total_resources (length findings) then rest else none
]

abbrev pub is_total : ℕ → Option ℕ → Bool
is_total n none = false
is_total n (some m) = eqb m n

-- `validateSnapshotSummary` returns no error.
unfoldable pub is_valid_summary : Snapshot → Bool
is_valid_summary snap =
    is_total snap.summary.overall.total_resources
      (sum_types snap.findings_by_type snap.summary.by_resource_type 0)

unfoldable pub validate_snapshot_completeness : CreateSnapshotInput → Snapshot → ValidationReason
validate_snapshot_completeness input snap =
    let present = snapshot_resource_types snap in
    if not (should_validate_snapshot_completeness input)
    then ok
    else if is_empty input.expected_resource_types
    then empty_expected_set
    else if is_empty present
    then empty_snapshot
    else if not (is_valid_summary snap)
    then invalid_summary
    else if not (is_empty (missing_resource_types input.expected_resource_types present))
    then missing_resource_type
    else ok

abbrev pub by_type : ResourceType → FindingFilters
by_type t = record { resource_type = some t; service = none; status = none; engine = none }

-- The loop of `CreateSnapshot`. The memory store's `ListFindings` returns no error.
unfoldable pub add_types : List ResourceType → Store → Snapshot → Snapshot
add_types [] store snap = snap
add_types (t ∷ types) store snap =
    add_types types store (add_findings t (list_findings (by_type t) store) snap)

-- The snapshot that `CreateSnapshot` validates, with a new ID and at a time.
unfoldable pub built : String → Time → CreateSnapshotInput → Store → Snapshot
built id now input store =
    let timed = with_scan_timing input.scan_start_time input.scan_end_time (new_builder id now) in
    record (build (add_types input.resource_types store timed)) { snapshot_id = input.scan_id }

-- What a workflow or an activity returns, and the state of the snapshot store after it.
abbrev pub Outcome : Type 0 → Type 0 → Type 0 → Type 0
Outcome E A S = (E ⊎ A) × S

-- A `SnapshotStore`, which may fail at a call and work at the next: `SaveSnapshot` returns whether
-- it succeeded.
module _ {S : Type 0} (save_snapshot : Snapshot → S → Bool × S) where
  unfoldable pub create_snapshot :
      String → Time → CreateSnapshotInput → Store → S → Outcome SnapshotError SnapshotResult S
  create_snapshot id now input store s =
      let snap = built id now input store in
      elim (validate_snapshot_completeness input snap) [
        | ok ↦
            let saved = save_snapshot snap s in
            let result : SnapshotResult = record {
              snapshot_id = snap.snapshot_id;
              total_findings = snap.summary.overall.total_resources;
            } in
            (if saved.0 then inr result else inl not_saved, saved.1)
        | reason ↦ (inl (invalid reason), s)
      ]
