-- ===== src/Orchestrator/Workflow.antt =====
-- pkg/workflow/orchestrator/workflow.go: `OrchestratorWorkflow` and `ScheduledScanWorkflow`.
-- The outcome of a resource type's child workflow is an argument: types that occur twice share the
-- last of their futures. `S` is the state of the snapshot store and of the emitter.
use version_guard.Base.{
  ℕ, String, Bool, true, false, List, [], ◌∷◌, ◌++◌, is_empty, if◌then◌else◌, ◌==◌, not, ◌⊎◌, inl,
  inr, Map, insert,
}
use version_guard.Types.{Time, ResourceType}
use version_guard.Types.Elapsed.{ℤ, pos, elapsed}
use version_guard.Store.{Store}
use version_guard.Snapshot.{StatBucket, empty_bucket, or_empty, Snapshot}
use version_guard.Detection.Workflow
use version_guard.Orchestrator.{
  Outcome, CreateSnapshotInput, SnapshotResult, SnapshotError, create_snapshot,
  normalize_scan_scope, active_scan_workflow_id,
}

pub record WorkflowInput : Type 0 where
  pub scan_id : String
  pub emitter_webhook_url : String
  pub scan_scope : String
  pub resource_types : List ResourceType

-- The four counts are kept as a bucket, whose total is not read.
pub record ResourceTypeResult : Type 0 where
  pub resource_type : ResourceType
  pub findings_count : ℕ
  pub counts : StatBucket
  pub duration_millis : ℤ
  pub error : String

pub record WorkflowOutput : Type 0 where
  pub scan_id : String
  pub snapshot_id : String
  pub total_findings : ℕ
  pub resource_type_results : Map ResourceTypeResult
  pub start_time : Time
  pub end_time : Time
  pub duration_sec : ℤ

pub data ScanError : Type 0 where
  wrong_workflow_id no_resource_types all_failed : ScanError
  snapshot_failed : SnapshotError → ScanError

-- The error's text, or the child's output.
abbrev pub ChildOutcome : Type 0
ChildOutcome = String ⊎ Workflow.WorkflowOutput

unfoldable pub result_of : ResourceType → ChildOutcome → ResourceTypeResult
result_of t (inl e) = record {
  resource_type = t;
  findings_count = 0;
  counts = empty_bucket;
  duration_millis = pos 0;
  error = e;
}
result_of t (inr o) = record {
  resource_type = t;
  findings_count = o.findings_count;
  counts = or_empty o.summary;
  duration_millis = o.duration_millis;
  error = "";
}

abbrev pub succeeded : ChildOutcome → Bool
succeeded (inl e) = false
succeeded (inr o) = true

-- The loop over the results: the results by type, and the types that succeeded, in the order of the
-- input.
unfoldable pub collect :
    (ResourceType → ChildOutcome)
    → List ResourceType
    → Map ResourceTypeResult
    → List ResourceType
    → Map ResourceTypeResult × List ResourceType
collect outcome [] results successful = (results, successful)
collect outcome (t ∷ types) results successful =
    collect outcome types (insert t (result_of t (outcome t)) results)
      (if succeeded (outcome t) then successful ++ t ∷ [] else successful)

-- What a run of the workflow is given by Temporal and by the clock: its workflow ID; whether
-- `GetVersion` turns the completeness validation on; the ID and the time of the snapshot's builder;
-- the outcomes of its children, and the store of findings after them.
pub record Run : Type 0 where
  pub workflow_id : String
  pub validates : Bool
  pub start_time : Time
  pub scan_end_time : Time
  pub end_time : Time
  pub builder_id : String
  pub built_at : Time
  pub outcome : ResourceType → ChildOutcome
  pub store : Store

unfoldable pub new_create_snapshot_input :
    Run → String → String → List ResourceType → List ResourceType → CreateSnapshotInput
new_create_snapshot_input run scan_id scan_scope expected successful = record {
  scan_id = scan_id;
  scan_scope = if run.validates then scan_scope else "";
  resource_types = successful;
  expected_resource_types = if run.validates then expected else [];
  scan_start_time = run.start_time;
  scan_end_time = run.scan_end_time;
}

-- The outside world: `SaveSnapshot`, and the emitter's webhook, whose failure is only logged.
pub record Outside (S : Type 0) : Type 0 where
  pub save_snapshot : Snapshot → S → Bool × S
  pub notify_emitter : String → String → S → S

module _ {S : Type 0} (outside : Outside S) (run : Run) where
  -- What follows the creation of the snapshot.
  unfoldable pub finish :
      WorkflowInput
      → String
      → Map ResourceTypeResult
      → Outcome SnapshotError SnapshotResult S
      → Outcome ScanError WorkflowOutput S
  finish input scan_id results (inl e, s) = (inl (snapshot_failed e), s)
  finish input scan_id results (inr r, s) = (
    inr (record {
      scan_id = scan_id;
      snapshot_id = r.snapshot_id;
      total_findings = r.total_findings;
      resource_type_results = results;
      start_time = run.start_time;
      end_time = run.end_time;
      duration_sec = elapsed 1_000_000_000 run.start_time run.end_time;
    }),
    if input.emitter_webhook_url == ""
        then s
        else outside.notify_emitter input.emitter_webhook_url r.snapshot_id s,
  )

  unfoldable pub orchestrator_workflow : WorkflowInput → S → Outcome ScanError WorkflowOutput S
  orchestrator_workflow input s =
      let scan_id = if input.scan_id == "" then run.workflow_id else input.scan_id in
      let collected = collect run.outcome input.resource_types [] [] in
      let snapshot_input =
        new_create_snapshot_input run scan_id (normalize_scan_scope input.scan_scope)
          input.resource_types collected.1 in
      if not (run.workflow_id == active_scan_workflow_id)
      then (inl wrong_workflow_id, s)
      else if is_empty input.resource_types
      then (inl no_resource_types, s)
      else if is_empty collected.1
      then (inl all_failed, s)
      else finish input scan_id collected.0 (
          create_snapshot outside.save_snapshot run.builder_id run.built_at snapshot_input run.store
            s)

-- `ScheduledScanWorkflow`: the scan runs as a child, under the ID that all scans share.
unfoldable pub scheduled_scan_workflow :
    {S : Type 0} → Outside S → Run → WorkflowInput → S → Outcome ScanError WorkflowOutput S
scheduled_scan_workflow outside run input =
    orchestrator_workflow outside (record run { workflow_id = active_scan_workflow_id })
      (record input { scan_id = if input.scan_id == "" then run.workflow_id else input.scan_id })
