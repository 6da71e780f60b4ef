-- ===== src/Orchestrator/Runs.antt =====
-- pkg/workflow/orchestrator/workflow.go: when a scan succeeds, and when it fails.
use version_guard.Base.{
  ◌≡◌, ◌≢◌, refl, sym, ap, ◌∙◌, String, Bool, true, false, List, [], inl, inr, ◌↔◌, is_empty, All,
  arith, if◌then◌else◌, eq_iff, Map, subst,
}
use mathlib.Core.Bool.{true≢false}
use version_guard.Types.{Time, ResourceType}
use version_guard.Store.{Store}
use version_guard.Snapshot.{Snapshot}
use version_guard.Orchestrator.{
  Outcome, CreateSnapshotInput, SnapshotResult, SnapshotError, ValidationReason, create_snapshot,
  built, validate_snapshot_completeness, should_validate_snapshot_completeness,
  normalize_scan_scope, active_scan_workflow_id,
}
use version_guard.Orchestrator.Completeness.{IsIn, IsComplete, IsComplete-iff}
use version_guard.Orchestrator.Collected.{collected-empty, All-succeeded}
use version_guard.Orchestrator.Workflow.{
  WorkflowInput, WorkflowOutput, ResourceTypeResult, ScanError, succeeded, Run, Outside,
  new_create_snapshot_input, finish, orchestrator_workflow, scheduled_scan_workflow,
}

create_snapshot-ok :
    {S : Type 0} (save : Snapshot → S → Bool × S) (id : String) (now : Time)
    (input : CreateSnapshotInput) (store : Store) (s : S) (r : SnapshotResult)
    → (create_snapshot save id now input store s).0 ≡ inr r
    → validate_snapshot_completeness input (built id now input store) ≡ ValidationReason.ok
unfolding create_snapshot
create_snapshot-ok save id now input store s r h = ground arith

-- The guards of the workflow, at the values of their tests.
abbrev guarded :
    {S : Type 0}
    → Bool
    → Bool
    → Bool
    → S
    → Outcome ScanError WorkflowOutput S
    → Outcome ScanError WorkflowOutput S
guarded a b c s rest =
    if a
    then (inl ScanError.wrong_workflow_id, s)
    else if b
    then (inl ScanError.no_resource_types, s)
    else if c
    then (inl ScanError.all_failed, s)
    else rest

guarded-ok :
    {S : Type 0} (a b c : Bool) (s : S) (rest : Outcome ScanError WorkflowOutput S)
    (o : WorkflowOutput)
    → (guarded a b c s rest).0 ≡ inr o
    → rest.0 ≡ inr o
guarded-ok true b c s rest o h = absurd cc
guarded-ok false true c s rest o h = absurd cc
guarded-ok false false true s rest o h = absurd cc
guarded-ok false false false s rest o h = h

guarded-all_failed :
    {S : Type 0} (a b c : Bool) (s : S) (rest : Outcome ScanError WorkflowOutput S)
    → rest.0 ≢ inl ScanError.all_failed
    → (guarded a b c s rest).0 ≡ inl ScanError.all_failed
    → c ≡ true
guarded-all_failed true b c s rest n h = absurd cc
guarded-all_failed false true c s rest n h = absurd cc
guarded-all_failed false false true s rest n h = refl
guarded-all_failed false false false s rest n h = absurd (n h)

guarded-not_wrong :
    {S : Type 0} (b c : Bool) (s : S) (rest : Outcome ScanError WorkflowOutput S)
    → rest.0 ≢ inl ScanError.wrong_workflow_id
    → (guarded false b c s rest).0 ≢ inl ScanError.wrong_workflow_id
guarded-not_wrong true c s rest n h = cc
guarded-not_wrong false true s rest n h = cc
guarded-not_wrong false false s rest n h = n h

finish-not_wrong :
    {S : Type 0} (outside : Outside S) (run : Run) (input : WorkflowInput) (scan_id : String)
    (results : Map ResourceTypeResult) (created : Outcome SnapshotError SnapshotResult S)
    → (finish outside run input scan_id results created).0 ≢ inl ScanError.wrong_workflow_id
unfolding finish
finish-not_wrong outside run input scan_id results (inl e, s) h = cc
finish-not_wrong outside run input scan_id results (inr r, s) h = cc

finish-not_all_failed :
    {S : Type 0} (outside : Outside S) (run : Run) (input : WorkflowInput) (scan_id : String)
    (results : Map ResourceTypeResult) (created : Outcome SnapshotError SnapshotResult S)
    → (finish outside run input scan_id results created).0 ≢ inl ScanError.all_failed
unfolding finish
finish-not_all_failed outside run input scan_id results (inl e, s) h = cc
finish-not_all_failed outside run input scan_id results (inr r, s) h = cc

finish-ok :
    {S : Type 0} (outside : Outside S) (run : Run) (input : WorkflowInput) (scan_id : String)
    (results : Map ResourceTypeResult) (created : Outcome SnapshotError SnapshotResult S)
    (o : WorkflowOutput)
    → (finish outside run input scan_id results created).0 ≡ inr o
    → (r : SnapshotResult) × (created.0 ≡ inr r)
unfolding finish
finish-ok outside run input scan_id results (inl e, s) o h = absurd cc
finish-ok outside run input scan_id results (inr r, s) o h = (r, refl)

validates_full :
    (input : CreateSnapshotInput)
    → input.scan_scope ≡ "full"
    → should_validate_snapshot_completeness input ≡ true
unfolding should_validate_snapshot_completeness normalize_scan_scope
validates_full input e = rw e refl

-- The snapshot input of a run that validates a full scan.
full_input :
    (run : Run) (scan_id scope : String) (expected successful : List ResourceType)
    → run.validates ≡ true
    → normalize_scan_scope scope ≡ "full"
    → IsComplete
        (new_create_snapshot_input run scan_id (normalize_scan_scope scope) expected successful)
    → All (IsIn successful) expected
unfolding new_create_snapshot_input should_validate_snapshot_completeness normalize_scan_scope
full_input run scan_id scope expected successful v f c = elim c [
  | inl off ↦ absurd (
      true≢false (
        sym (
          validates_full
            (new_create_snapshot_input run scan_id (normalize_scan_scope scope) expected successful)
            (rw v f))
        ∙ off))
  | inr (e, all) ↦ subst (λ b. All (IsIn successful) (if b then expected else [])) v all
]

-- When the completeness validation is on and the scope of a scan is not "targeted", the scan
-- succeeds only if the child of every one of its resource types succeeded.
pub full_scan-succeeded :
    {S : Type 0} (outside : Outside S) (run : Run) (input : WorkflowInput) (s : S)
    (o : WorkflowOutput)
    → run.validates ≡ true
    → normalize_scan_scope input.scan_scope ≡ "full"
    → (orchestrator_workflow outside run input s).0 ≡ inr o
    → All (λ t. succeeded (run.outcome t) ≡ true) input.resource_types
unfolding orchestrator_workflow
full_scan-succeeded outside run input s o v f h =
    let (r, created) = finish-ok outside run input _ _ _ o (guarded-ok _ _ _ s _ o h) in
    let complete = (IsComplete-iff _ _ _ _).0 (create_snapshot-ok _ _ _ _ _ s r created) in
    All-succeeded run.outcome input.resource_types input.resource_types
      (full_input run _ input.scan_scope input.resource_types _ v f complete)

-- For a scan under the right ID and of at least one resource type: it ends in the error that all of
-- its children failed, with the outside world as it was, exactly when every child failed.
pub all_failed_iff :
    {S : Type 0} (outside : Outside S) (run : Run) (input : WorkflowInput) (s : S)
    → run.workflow_id ≡ active_scan_workflow_id
    → is_empty input.resource_types ≡ false
    → (orchestrator_workflow outside run input s ≡ (inl ScanError.all_failed, s))
      ↔ All (λ t. succeeded (run.outcome t) ≡ false) input.resource_types
unfolding orchestrator_workflow
all_failed_iff outside run input s w n = (
  λ h.
      ((collected-empty run.outcome input.resource_types [] []).0 (
        guarded-all_failed _ _ _ s _ (finish-not_all_failed outside run input _ _ _)
          (ap (λ x. x.0) h))).1,
  λ h. ground (
    arith,
    (collected-empty run.outcome input.resource_types [] []).1 (refl, h),
    (eq_iff run.workflow_id active_scan_workflow_id).1 w,
  ),
)

-- A scheduled scan runs under the ID that all scans share, whatever its own ID is: it never fails
-- for a wrong ID.
pub scheduled-not_wrong_id :
    {S : Type 0} (outside : Outside S) (run : Run) (input : WorkflowInput) (s : S)
    → (scheduled_scan_workflow outside run input s).0 ≢ inl ScanError.wrong_workflow_id
unfolding scheduled_scan_workflow orchestrator_workflow
scheduled-not_wrong_id outside run input s =
    guarded-not_wrong _ _ s _ (finish-not_wrong outside _ _ _ _ _)
