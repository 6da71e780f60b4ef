-- ===== src/Detection/Workflow.antt =====
-- pkg/workflow/detection/workflow.go: `DetectionWorkflow`, its activities run one after the other on
-- one worker, each once. That Temporal runs an activity again, or loses the session, is not
-- modelled.
use version_guard.Base.{ℕ, String, Option, none, some, if◌then◌else◌, ◌==◌, ◌⊎◌, inl, inr}
use version_guard.Types.{Time, ResourceType}
use version_guard.Types.Elapsed.{ℤ, elapsed}
use version_guard.Snapshot.{StatBucket}
use version_guard.Detection.{
  Dependencies, State, ActivityError, Result, fetch_inventory, fetch_eol_data, detect_drift,
  store_findings, emit_metrics,
}

pub record WorkflowOutput : Type 0 where
  pub scan_id : String
  pub resource_type : ResourceType
  pub findings_count : ℕ
  pub summary : Option StatBucket
  pub completed_at : Time
  pub duration_millis : ℤ

-- The clock at the start of the workflow, when the findings are stored, and at the end.
pub record Clock : Type 0 where
  pub start : Time
  pub stored : Time
  pub end : Time

-- The scan ID, by default the workflow's.
abbrev pub scan_id_or : String → String → String
scan_id_or workflow_id scan_id = if scan_id == "" then workflow_id else scan_id

-- The metrics may fail without an effect on the result.
abbrev pub summary_of : ActivityError ⊎ StatBucket → Option StatBucket
summary_of (inl e) = none
summary_of (inr b) = some b

module _ {W : Type 0} (deps : Dependencies W) where
  -- One step after another; the first error is returned.
  unfoldable pub and_then :
      {A B : Type 0} → Result deps A → (A → State W → Result deps B) → Result deps B
  and_then (inl e, s) f = (inl e, s)
  and_then (inr a, s) f = f a s

  unfoldable pub detection_workflow :
      Clock → String → String → ResourceType → State W → Result deps WorkflowOutput
  detection_workflow now workflow_id scan_id₀ t s₀ =
      let scan_id = scan_id_or workflow_id scan_id₀ in
      and_then (fetch_inventory deps scan_id t s₀) (λ inventory s₁.
        and_then (fetch_eol_data deps t inventory.resource_batch_id inventory.resources s₁)
          (λ lifecycles s₂.
            and_then
              (detect_drift deps inventory.resource_batch_id inventory.resources lifecycles s₂)
              (λ detected s₃.
                and_then
                  (store_findings deps now.stored detected.findings_batch_id detected.findings t s₃)
                  (λ _ s₄.
                    let metrics =
                      emit_metrics deps detected.findings_batch_id detected.findings s₄ in
                    (
                      inr (record {
                        scan_id = scan_id;
                        resource_type = t;
                        findings_count = detected.findings_count;
                        summary = summary_of metrics.0;
                        completed_at = now.end;
                        duration_millis = elapsed 1_000_000 now.start now.end;
                      }),
                      metrics.1,
                    )))))
