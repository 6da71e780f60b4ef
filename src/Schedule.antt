-- ===== src/Schedule.antt =====
-- pkg/schedule/schedule.go: `EnsureSchedule`, which creates the schedule of the scans or brings it up to
-- date. Temporal's schedule client is a parameter: what it answers to the calls. The schedule of the
-- server is a record of the fields that the program reads or writes; the timeout of the workflow, the
-- texts of the errors and the printed lines are left out.
pub mod Tests
pub mod Settled
use version_guard.Base.{
  ℕ, String, Bool, true, false, not, ◌==◌, ◌&&◌, Option, none, some, List, [], ◌∷◌, is_empty, eqb,
  if◌then◌else◌,
}
use version_guard.Types.{ResourceType}
use version_guard.Orchestrator.Workflow.{WorkflowInput}

-- `orchestrator.ScheduledScanWorkflowID`
abbrev pub scheduled_scan_workflow_id : String
scheduled_scan_workflow_id = "version-guard-scheduled-scan"

pub record Config : Type 0 where
  pub schedule_id : String
  pub cron_expression : String
  pub task_queue : String
  pub emitter_webhook_url : String
  pub resource_types : List ResourceType
  pub jitter : ℕ
  pub enabled : Bool
  pub paused : Bool

pub record Spec : Type 0 where
  pub cron_expressions : List String
  pub jitter : ℕ

-- An argument of the action: the program's own input, or a value of another type.
pub data Argument : Type 0 where
  input : WorkflowInput → Argument
  foreign : Argument

pub record WorkflowAction : Type 0 where
  pub id : String
  pub task_queue : String
  pub args : List Argument

-- `other_action` is any action that starts no workflow.
pub data Action : Type 0 where
  workflow : WorkflowAction → Action
  other_action : Action

pub data Overlap : Type 0 where
  skip : Overlap
  other_policy : ℕ → Overlap

-- A nil spec and a nil policy are `none`.
pub record Schedule : Type 0 where
  pub spec : Option Spec
  pub overlap : Option Overlap
  pub action : Action
  pub paused : Bool

abbrev pub wanted_spec : Config → Spec
wanted_spec cfg = record { cron_expressions = cfg.cron_expression ∷ []; jitter = cfg.jitter }

abbrev pub wanted_input : Config → WorkflowInput
wanted_input cfg = record {
  scan_id = "";
  emitter_webhook_url = cfg.emitter_webhook_url;
  scan_scope = "full";
  resource_types = cfg.resource_types;
}

abbrev pub wanted_action : Config → WorkflowAction
wanted_action cfg = record {
  id = scheduled_scan_workflow_id;
  task_queue = cfg.task_queue;
  args = input (wanted_input cfg) ∷ [];
}

-- The options of `Create`.
unfoldable pub schedule_options : Config → Schedule
schedule_options cfg = record {
  spec = some (wanted_spec cfg);
  overlap = some skip;
  action = workflow (wanted_action cfg);
  paused = cfg.paused;
}

unfoldable pub resource_types_equal : List ResourceType → List ResourceType → Bool
resource_types_equal [] [] = true
resource_types_equal (a ∷ as_) (b ∷ bs) = a == b && resource_types_equal as_ bs
resource_types_equal _ _ = false

abbrev pub input_matches : WorkflowInput → Config → Bool
input_matches i cfg =
    i.emitter_webhook_url == cfg.emitter_webhook_url
    && i.scan_scope == "full"
    && resource_types_equal i.resource_types cfg.resource_types

abbrev pub args_match : List Argument → Config → Bool
args_match (input i ∷ []) cfg = input_matches i cfg
args_match _ cfg = false

unfoldable pub schedule_action_matches : Action → Config → Bool
unfolding resource_types_equal
schedule_action_matches other_action cfg = false
schedule_action_matches (workflow a) cfg =
    a.id == scheduled_scan_workflow_id && a.task_queue == cfg.task_queue && args_match a.args cfg

abbrev pub crons_match : List String → String → Bool
crons_match (cron ∷ []) wanted = cron == wanted
crons_match _ wanted = false

abbrev pub spec_matches : Option Spec → Config → Bool
spec_matches none cfg = false
spec_matches (some s) cfg =
    crons_match s.cron_expressions cfg.cron_expression && eqb s.jitter cfg.jitter

abbrev pub overlap_matches : Option Overlap → Bool
overlap_matches (some skip) = true
overlap_matches _ = false

-- The test before the update.
unfoldable pub is_configured : Schedule → Config → Bool
unfolding schedule_action_matches
is_configured s cfg =
    spec_matches s.spec cfg && overlap_matches s.overlap && schedule_action_matches s.action cfg

abbrev pub updated_action : Action → Config → Action
updated_action other_action cfg = other_action
updated_action (workflow a) cfg = workflow (wanted_action cfg)

-- `DoUpdate`
unfoldable pub updated : Schedule → Config → Schedule
updated s cfg = record s {
  spec = some (wanted_spec cfg);
  overlap = some skip;
  action = updated_action s.action cfg;
}

-- What `Create` answers, what `Describe` tells of the schedule, which need not be as it was written,
-- and whether `Update` succeeds.
pub data Created : Type 0 where
  created already_running create_failed : Created

pub record Server : Type 0 where
  pub create : Created
  pub describe : Option Schedule
  pub update_succeeds : Bool

-- What the call comes to: nothing to do, the schedule that is created or stored, or an error.
pub data Outcome : Type 0 where
  disabled unchanged : Outcome
  created_as updated_to : Schedule → Outcome
  no_resource_types not_created not_described not_updated : Outcome

abbrev pub settle : Server → Config → Option Schedule → Outcome
settle server cfg none = not_described
settle server cfg (some s) =
    if is_configured s cfg
    then unchanged
    else if server.update_succeeds
    then updated_to (updated s cfg)
    else not_updated

abbrev pub answer : Server → Config → Created → Outcome
answer server cfg created = created_as (schedule_options cfg)
answer server cfg create_failed = not_created
answer server cfg already_running = settle server cfg server.describe

unfoldable pub ensure_schedule : Server → Config → Outcome
unfolding schedule_options is_configured updated
ensure_schedule server cfg =
    if not cfg.enabled
    then disabled
    else if is_empty cfg.resource_types
    then no_resource_types
    else answer server cfg server.create
