-- ===== src/Scan/Scopes.antt =====
-- pkg/scan/scan.go, handler.go and pkg/workflow/orchestrator: the scope of a scan that is started.
use mathlib.Core.Bool.{false≢true}
use mathlib.Core.Sum.{inl-ne-inr}
use version_guard.Base.{
  ℕ, zero, suc, Option, none, some, ◌⊎◌, inl, inr, ap, sym, subst, not, arith, if_cases,
  if_else_inr, inr-injective, some-injective, eq_iff, ◌≡◌, refl, String, Bool, true, false,
  is_empty, if◌then◌else◌, ◌==◌, ◌↔◌,
}
use version_guard.Types.Elapsed.{ℤ, pos, negsuc}
use version_guard.Orchestrator.Workflow.{WorkflowInput}
use version_guard.Orchestrator.{normalize_scan_scope}
use version_guard.Scan.{
  Starter, Trigger, Input, Request, Result, StartError, TriggerError, Answer, workflow_input, run,
  serve_http, answer_of, no_body, is_positive, body_of, started, accepted, bad_request, not_started,
  already_started, no_task_queue, no_resource_types,
}

full_iff :
    (b : Bool) → (normalize_scan_scope (if b then "full" else "targeted") ≡ "full") ↔ (b ≡ true)
unfolding normalize_scan_scope
full_iff true = (λ e. refl, λ e. refl)
full_iff false = (λ e. absurd (false≢true ((eq_iff "targeted" "full").1 e)), λ e. absurd cc)

-- The orchestrator reads the scope of a started scan as "full" exactly when the caller named no
-- resource types; the scan then covers the configured ones, and else those that were named.
pub scope_iff :
    (t : Trigger) (new_id : String) (i : Input)
    → let w = workflow_input t new_id i in
      ((normalize_scan_scope w.scan_scope ≡ "full") ↔ (is_empty i.resource_types ≡ true))
      × (w.resource_types
          ≡ (if is_empty i.resource_types then t.default_resource_types else i.resource_types))
unfolding workflow_input normalize_scan_scope
scope_iff t new_id i = (full_iff (is_empty i.resource_types), refl)

-- What the handler takes a request to ask for: its body, when the length of it is known and positive,
-- and else a scan that names nothing, whatever the body is.
pub data Asks (r : Request) : Input → Type 0 where
  by_body : (n : ℕ) (i : Input) → r.content_length ≡ pos (suc n) → r.decoded ≡ some i → Asks r i
  by_no_body : r.content_length ≡ pos 0 → Asks r no_body
  by_unknown_length : (n : ℕ) → r.content_length ≡ negsuc n → Asks r no_body

body_of-Asks :
    (r : Request) (length : ℤ) (i : Input)
    → r.content_length ≡ length
    → (if is_positive length then r.decoded else some no_body) ≡ some i
    → Asks r i
body_of-Asks r (pos zero) i e h = subst (Asks r) (some-injective _ _ h) (by_no_body e)
body_of-Asks r (pos (suc n)) i e h = by_body n i e h
body_of-Asks r (negsuc n) i e h = subst (Asks r) (some-injective _ _ h) (by_unknown_length n e)

-- What a request that is accepted has started: one workflow, under the ID that all scans share, with
-- the types that were asked for, or all configured types and the full scope when none were.
pub record IsStarted (starter : Starter) (t : Trigger) (new_id : String) (i : Input)
    (result : Result) : Type 0 where
  pub w : WorkflowInput
  pub starts :
      starter (record { id = "version-guard-active-scan"; task_queue = t.task_queue }) w
      ≡ inr (result.workflow_id, result.run_id)
  pub scan_id : result.scan_id ≡ w.scan_id
  pub some_types : is_empty w.resource_types ≡ false
  pub scope : (normalize_scan_scope w.scan_scope ≡ "full") ↔ (is_empty i.resource_types ≡ true)
  pub types :
      w.resource_types
      ≡ (if is_empty i.resource_types then t.default_resource_types else i.resource_types)

started-inr :
    (scan_id : String) (z : StartError ⊎ String × String) (result : Result)
    → started scan_id z ≡ inr result
    → (z ≡ inr (result.workflow_id, result.run_id)) × (result.scan_id ≡ scan_id)
started-inr scan_id (inl e) result h = absurd (inl-ne-inr h)
started-inr scan_id (inr (workflow_id, run_id)) result h =
    let same = inr-injective _ _ h in
    (
      ap (λ (x : Result). inr (x.workflow_id, x.run_id)) same,
      ap (λ (x : Result). x.scan_id) (sym same),
    )

run-IsStarted :
    (starter : Starter) (t : Trigger) (new_id : String) (i : Input) (result : Result)
    → run starter t new_id i ≡ inr result
    → IsStarted starter t new_id i result
unfolding run
run-IsStarted starter t new_id i result h =
    let p = if_else_inr (t.task_queue == "") _ h in
    let q = if_else_inr (is_empty (workflow_input t new_id i).resource_types) _ p.1 in
    let s = started-inr _ _ result q.1 in
    record {
      w = workflow_input t new_id i;
      starts = s.0;
      scan_id = s.1;
      some_types = q.0;
      scope = (scope_iff t new_id i).0;
      types = (scope_iff t new_id i).1;
    }

answer_of-accepted :
    (z : TriggerError ⊎ Result) (result : Result) → answer_of z ≡ accepted result → z ≡ inr result
answer_of-accepted (inl no_task_queue) result h = absurd cc
answer_of-accepted (inl no_resource_types) result h = absurd cc
answer_of-accepted (inl (not_started already_started)) result h = absurd cc
answer_of-accepted (inl (not_started StartError.other)) result h = absurd cc
answer_of-accepted (inr r) result h = cc

abbrev answered : Starter → Trigger → String → Option Input → Answer
answered starter t new_id none = bad_request
answered starter t new_id (some i) = answer_of (run starter t new_id i)

answered-accepted :
    (starter : Starter) (t : Trigger) (new_id : String) (o : Option Input) (result : Result)
    → answered starter t new_id o ≡ accepted result
    → (i : Input) × (o ≡ some i) × IsStarted starter t new_id i result
answered-accepted starter t new_id none result h = absurd cc
answered-accepted starter t new_id (some i) result h =
    (i, refl, run-IsStarted starter t new_id i result (answer_of-accepted _ result h))

-- A request that is accepted is a POST. It has started one workflow under the ID that all scans share:
-- when it asks for no types, with the scope of a full scan and all configured types, and else with
-- another scope and the types that it asks for; there is at least one type. A request whose body has
-- an unknown length asks for none, whatever the body names.
pub serve_http-IsStarted :
    (starter : Starter) (t : Trigger) (new_id : String) (r : Request) (result : Result)
    → serve_http starter t new_id r ≡ accepted result
    → (r.method ≡ "POST") × ((i : Input) × Asks r i × IsStarted starter t new_id i result)
unfolding serve_http
serve_http-IsStarted starter t new_id r result h = elim (if_cases (not (r.method == "POST")) h) [
  | inl p ↦ absurd cc
  | inr p ↦
      let (i, body, run_) = answered-accepted starter t new_id (body_of r) result p.1 in
      (
        (eq_iff r.method "POST").0 (ground (arith, p.0)),
        (i, body_of-Asks r r.content_length i refl body, run_),
      )
]
