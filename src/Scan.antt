-- ===== src/Scan.antt =====
-- pkg/scan: a scan that is started on demand (scan.go), and over HTTP (handler.go).
-- Temporal's `ExecuteWorkflow`, the decoder of the request's JSON body and the generator of IDs are
-- parameters. Telemetry, logs and the texts of the errors are not modelled.
pub mod Tests
pub mod Scopes
use version_guard.Base.{
  ℕ, zero, suc, String, Bool, true, false, Option, none, some, List, [], ◌∷◌, is_empty,
  if◌then◌else◌, ◌==◌, not, ◌⊎◌, inl, inr,
}
use version_guard.Types.{ResourceType}
use version_guard.Types.Elapsed.{ℤ, pos, negsuc}
use version_guard.Orchestrator.{active_scan_workflow_id}
use version_guard.Orchestrator.Workflow.{WorkflowInput}

pub record Trigger : Type 0 where
  pub task_queue : String
  pub emitter_webhook_url : String
  pub default_resource_types : List ResourceType

pub record Input : Type 0 where
  pub scan_id : String
  pub resource_types : List ResourceType

pub record Result : Type 0 where
  pub workflow_id : String
  pub run_id : String
  pub scan_id : String

-- The options of `ExecuteWorkflow` that vary.
pub record StartOptions : Type 0 where
  pub id : String
  pub task_queue : String

pub data StartError : Type 0 where
  already_started other : StartError

pub data TriggerError : Type 0 where
  no_task_queue no_resource_types : TriggerError
  not_started : StartError → TriggerError

-- `ExecuteWorkflow`: the IDs of the workflow and of its run.
abbrev pub Starter : Type 0
Starter = StartOptions → WorkflowInput → StartError ⊎ String × String

abbrev pub started : String → StartError ⊎ String × String → TriggerError ⊎ Result
started scan_id (inl e) = inl (not_started e)
started scan_id (inr (workflow_id, run_id)) =
    inr (record { workflow_id = workflow_id; run_id = run_id; scan_id = scan_id })

-- The input of the workflow that `Run` starts, with a new ID at hand.
unfoldable pub workflow_input : Trigger → String → Input → WorkflowInput
workflow_input t new_id in_ = record {
  scan_id = if in_.scan_id == "" then new_id else in_.scan_id;
  emitter_webhook_url = t.emitter_webhook_url;
  scan_scope = if is_empty in_.resource_types then "full" else "targeted";
  resource_types =
      if is_empty in_.resource_types then t.default_resource_types else in_.resource_types;
}

unfoldable pub run : Starter → Trigger → String → Input → TriggerError ⊎ Result
run starter t new_id in_ =
    let w = workflow_input t new_id in_ in
    let options : StartOptions = record {
      id = active_scan_workflow_id;
      task_queue = t.task_queue;
    } in
    if t.task_queue == ""
    then inl no_task_queue
    else if is_empty w.resource_types
    then inl no_resource_types
    else started w.scan_id (starter options w)

-- A request: its method, its `ContentLength`, which is -1 when it is unknown, and what the decoder
-- makes of its body.
pub record Request : Type 0 where
  pub method : String
  pub content_length : ℤ
  pub decoded : Option Input

-- The status codes of the answers.
pub data Answer : Type 0 where
  accepted : Result → Answer
  method_not_allowed bad_request conflict internal_error : Answer

abbrev pub is_positive : ℤ → Bool
is_positive (pos zero) = false
is_positive (pos (suc n)) = true
is_positive (negsuc n) = false

abbrev pub no_body : Input
no_body = record { scan_id = ""; resource_types = [] }

abbrev pub answer_of : TriggerError ⊎ Result → Answer
answer_of (inl (not_started already_started)) = conflict
answer_of (inl _) = internal_error
answer_of (inr r) = accepted r

abbrev pub body_of : Request → Option Input
body_of r = if is_positive r.content_length then r.decoded else some no_body

-- `ServeHTTP`
unfoldable pub serve_http : Starter → Trigger → String → Request → Answer
serve_http starter t new_id r =
    if not (r.method == "POST")
    then method_not_allowed
    else elim (body_of r) [ none ↦ bad_request | some body ↦ answer_of (run starter t new_id body) ]
