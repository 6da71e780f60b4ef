-- ===== src/Orchestrator/Tests.antt =====
-- Tests of the scan, with one child that succeeds.
use version_guard.Base.{◌≡◌, ◌↔◌, refl, true, false, none, [], ◌∷◌, All, inl, inr, insert, lookup}
use version_guard.Types.{ResourceType}
use version_guard.Types.Elapsed.{pos, elapsed}
use version_guard.Store.{new_store, list_findings}
use version_guard.Snapshot.{
  build, add_findings, with_scan_timing, new_builder, calculate_statistics, add_type, add_each,
}
use version_guard.Detection.Workflow
use version_guard.Orchestrator.Notify.{trim_slashes}
use version_guard.Orchestrator.{
  CreateSnapshotInput, ValidationReason, validate_snapshot_completeness, built,
  normalize_scan_scope, active_scan_workflow_id, create_snapshot,
  should_validate_snapshot_completeness, snapshot_resource_types, add_types, is_valid_summary,
  sum_types, missing_resource_types,
}
use version_guard.Orchestrator.Completeness.{IsComplete, IsComplete-iff}
use version_guard.Orchestrator.Workflow.{
  WorkflowInput, WorkflowOutput, ScanError, ChildOutcome, succeeded, result_of, collect, finish,
  new_create_snapshot_input, Run, Outside, orchestrator_workflow,
}
use version_guard.Orchestrator.Runs.{full_scan-succeeded, all_failed_iff}
use version_guard.Samples.{month_before}

abbrev snapshot_input : CreateSnapshotInput
snapshot_input = record {
  scan_id = "scan";
  scan_scope = "full";
  resource_types = "lambda" ∷ [];
  expected_resource_types = "lambda" ∷ "eks" ∷ [];
  scan_start_time = month_before;
  scan_end_time = month_before;
}

IsComplete-iff_example :
    (validate_snapshot_completeness snapshot_input
        (built "id" month_before snapshot_input new_store)
      ≡ ValidationReason.ok)
    ↔ IsComplete snapshot_input
IsComplete-iff_example = IsComplete-iff "id" month_before snapshot_input new_store

abbrev child : Workflow.WorkflowOutput
child = record {
  scan_id = "scan";
  resource_type = "lambda";
  findings_count = 0;
  summary = none;
  completed_at = month_before;
  duration_millis = pos 0;
}

abbrev outside : Outside Unit
outside = record { save_snapshot = λ snap s. (true, s); notify_emitter = λ url id s. s }

abbrev run_of : (ResourceType → ChildOutcome) → Run
run_of outcome = record {
  workflow_id = active_scan_workflow_id;
  validates = true;
  start_time = month_before;
  scan_end_time = month_before;
  end_time = month_before;
  builder_id = "id";
  built_at = month_before;
  outcome = outcome;
  store = new_store;
}

abbrev scan_input : WorkflowInput
scan_input = record {
  scan_id = "scan";
  emitter_webhook_url = "";
  scan_scope = "full";
  resource_types = "lambda" ∷ [];
}

abbrev scan_output : WorkflowOutput
scan_output = record {
  scan_id = "scan";
  snapshot_id = "scan";
  total_findings = 0;
  resource_type_results = ("lambda", result_of "lambda" (inr child)) ∷ [];
  start_time = month_before;
  end_time = month_before;
  duration_sec = pos 0;
}

scan_succeeds :
    (orchestrator_workflow outside (run_of (λ t. inr child)) scan_input tt).0 ≡ inr scan_output
unfolding orchestrator_workflow collect finish create_snapshot validate_snapshot_completeness
    should_validate_snapshot_completeness new_create_snapshot_input snapshot_resource_types built
    build add_types add_findings insert with_scan_timing new_builder is_valid_summary sum_types
    calculate_statistics add_type add_each lookup list_findings normalize_scan_scope
    missing_resource_types elapsed result_of
scan_succeeds = refl

is_full : normalize_scan_scope scan_input.scan_scope ≡ "full"
unfolding normalize_scan_scope
is_full = refl

full_scan-succeeded_example : All (λ t. succeeded (inr child) ≡ true) scan_input.resource_types
full_scan-succeeded_example =
    full_scan-succeeded outside (run_of (λ t. inr child)) scan_input tt scan_output refl is_full
      scan_succeeds

all_failed_iff_example :
    (orchestrator_workflow outside (run_of (λ t. inl "lost")) scan_input tt
      ≡ (inl ScanError.all_failed, tt))
    ↔ All (λ t. succeeded (inl "lost") ≡ false) scan_input.resource_types
all_failed_iff_example = all_failed_iff outside (run_of (λ t. inl "lost")) scan_input tt refl refl

trigger_url_slashes : trim_slashes "http://emitter:8080//" ≡ trim_slashes "http://emitter:8080"
unfolding trim_slashes
trigger_url_slashes = refl
