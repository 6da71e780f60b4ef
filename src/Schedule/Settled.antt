-- ===== src/Schedule/Settled.antt =====
-- pkg/schedule/schedule.go: the schedule that calls leave behind.
use version_guard.Base.{
  ◌≡◌, refl, ap, sym, Option-cases, ◌∙◌, Bool, true, false, Option, none, some, [], ◌∷◌, arith,
  if◌then◌else◌, if_cases, inl, inr, not, is_empty, subst,
}
use version_guard.Schedule.{
  Spec, input, Config, Schedule, Server, Outcome, WorkflowAction, skip, created_as, updated_to,
  updated_action, settle, answer, created, create_failed, Created, disabled, no_resource_types,
  Action, workflow, other_action, schedule_options, is_configured, updated, ensure_schedule,
  wanted_action, already_running,
}

-- What a schedule should be, whatever its paused flag: it runs a full scan of the configured types
-- under the fixed ID, at the configured times, and never beside a run that has not ended.
pub record IsWanted (cfg : Config) (s : Schedule) : Type 0 where
  pub spec :
      s.spec ≡ some (record { cron_expressions = cfg.cron_expression ∷ []; jitter = cfg.jitter })
  pub overlap : s.overlap ≡ some skip
  pub action :
      s.action
      ≡ workflow (record {
        id = "version-guard-scheduled-scan";
        task_queue = cfg.task_queue;
        args =
            input (record {
              scan_id = "";
              emitter_webhook_url = cfg.emitter_webhook_url;
              scan_scope = "full";
              resource_types = cfg.resource_types;
            })
            ∷ [];
      })

-- A schedule that a call has written: created, or updated where the schedule that was there starts a
-- workflow.
pub data IsWritten (o : Outcome) (s : Schedule) : Type 0 where
  by_creation : o ≡ created_as s → IsWritten o s
  by_update : (a : WorkflowAction) → o ≡ updated_to s → s.action ≡ workflow a → IsWritten o s

updated_action-workflow :
    (old : Action) (cfg : Config) (a : WorkflowAction)
    → updated_action old cfg ≡ workflow a
    → updated_action old cfg ≡ workflow (wanted_action cfg)
updated_action-workflow other_action cfg a h = absurd cc
updated_action-workflow (workflow b) cfg a h = refl

abbrev schedule_in : Schedule → Outcome → Schedule
schedule_in other (created_as s) = s
schedule_in other (updated_to s) = s
schedule_in other o = other

settle-IsWanted :
    (server : Server) (cfg : Config) (o : Option Schedule) (s : Schedule)
    → IsWritten (settle server cfg o) s
    → IsWanted cfg s
unfolding updated
settle-IsWanted server cfg none s (by_creation e) = absurd cc
settle-IsWanted server cfg none s (by_update a e w) = absurd cc
settle-IsWanted server cfg (some old) s (by_creation e) =
    elim (if_cases (is_configured old cfg) e) [
      | inl p ↦ absurd cc
      | inr p ↦ elim (if_cases server.update_succeeds p.1) [ inl q ↦ absurd cc | inr q ↦ absurd cc ]
    ]
settle-IsWanted server cfg (some old) s (by_update a e w) =
    elim (if_cases (is_configured old cfg) e) [
      | inl p ↦ absurd cc
      | inr p ↦ elim (if_cases server.update_succeeds p.1) [
        | inl q ↦
            let same : updated old cfg ≡ s = ap (schedule_in old) q.1 in
            subst (IsWanted cfg) same (record {
              spec = refl;
              overlap = refl;
              action = updated_action-workflow old.action cfg a (ap (λ z. z.action) same ∙ w);
            })
        | inr q ↦ absurd cc
      ]
    ]

answer-IsWanted :
    (server : Server) (cfg : Config) (c : Created) (s : Schedule)
    → IsWritten (answer server cfg c) s
    → IsWanted cfg s
unfolding schedule_options
answer-IsWanted server cfg created s (by_creation e) =
    subst (IsWanted cfg) (ap (schedule_in s) e)
      (record { spec = refl; overlap = refl; action = refl })
answer-IsWanted server cfg created s (by_update a e w) = absurd cc
answer-IsWanted server cfg create_failed s (by_creation e) = absurd cc
answer-IsWanted server cfg create_failed s (by_update a e w) = absurd cc
answer-IsWanted server cfg already_running s h = settle-IsWanted server cfg server.describe s h

IsWritten-if :
    (b : Bool) (x y : Outcome) (s : Schedule)
    → ¬ IsWritten x s
    → IsWritten (if b then x else y) s
    → (b ≡ false) × IsWritten y s
IsWritten-if true x y s n h = absurd (n h)
IsWritten-if false x y s n h = (refl, h)

not_disabled : (s : Schedule) → ¬ IsWritten disabled s
not_disabled s (by_creation e) = absurd cc
not_disabled s (by_update a e w) = absurd cc

not_refused : (s : Schedule) → ¬ IsWritten no_resource_types s
not_refused s (by_creation e) = absurd cc
not_refused s (by_update a e w) = absurd cc

ensure_schedule-IsWanted :
    (server : Server) (cfg : Config) (s : Schedule)
    → IsWritten (ensure_schedule server cfg) s
    → (cfg.enabled ≡ true) × (is_empty cfg.resource_types ≡ false) × IsWanted cfg s
unfolding ensure_schedule
ensure_schedule-IsWanted server cfg s h =
    let p = IsWritten-if (not cfg.enabled) disabled _ s (not_disabled s) h in
    let q = IsWritten-if (is_empty cfg.resource_types) no_resource_types _ s (not_refused s) p.1 in
    (ground (arith, p.0), q.0, answer-IsWanted server cfg server.create s q.1)

-- What Temporal tells of a schedule, as the comment before the update says: the times stand in
-- calendars, which the program does not read, and the list of cron expressions is empty.
abbrev pub without_crons : Option Spec → Option Spec
without_crons none = none
without_crons (some spec) = some (record spec { cron_expressions = [] })

abbrev pub described : Schedule → Schedule
described s = record s { spec = without_crons s.spec }

-- A described schedule is never found to be configured.
described-is_configured : (s : Schedule) (cfg : Config) → is_configured (described s) cfg ≡ false
unfolding is_configured
described-is_configured s cfg = elim (Option-cases s.spec) [
  | inl e ↦ rw e refl
  | inr (spec, e) ↦ rw e refl
]

schedule_ext :
    (s z : Schedule)
    → s.spec ≡ z.spec
    → s.overlap ≡ z.overlap
    → s.action ≡ z.action
    → s.paused ≡ z.paused
    → s ≡ z
schedule_ext s z e o a p = cc

updated-described : (s : Schedule) (cfg : Config) → IsWanted cfg s → updated (described s) cfg ≡ s
unfolding updated
updated-described s cfg w =
    schedule_ext (updated (described s) cfg) s (sym w.spec) (sym w.overlap)
      (ap (λ a. updated_action a cfg) w.action ∙ sym w.action) refl

settle-described :
    (server : Server) (cfg : Config) (s : Schedule)
    → server.update_succeeds ≡ true
    → settle server cfg (some (described s)) ≡ updated_to (updated (described s) cfg)
settle-described server cfg s h = rw (described-is_configured s cfg, h) refl

unguarded :
    (a b : Bool) (x y z : Outcome)
    → a ≡ false
    → b ≡ false
    → (if a then x else if b then y else z) ≡ z
unguarded a b x y z h g = rw (h, g) refl

-- A schedule that a call has created, or has updated from one that starts a workflow, is as the
-- configuration wants it. When a later call with the same configuration finds it there, and Temporal
-- describes it as it was written but without its cron expressions, the call does not leave it alone:
-- if the update succeeds, it updates it to the very schedule that was written.
pub ensure_schedule-described :
    (server later : Server) (cfg : Config) (s : Schedule)
    → IsWritten (ensure_schedule server cfg) s
    → later.create ≡ already_running
    → later.describe ≡ some (described s)
    → later.update_succeeds ≡ true
    → IsWanted cfg s × (ensure_schedule later cfg ≡ updated_to s)
unfolding ensure_schedule
ensure_schedule-described server later cfg s h there same succeeds =
    let (enabled, some_types, wanted) = ensure_schedule-IsWanted server cfg s h in
    (
      wanted,
      unguarded (not cfg.enabled) (is_empty cfg.resource_types) _ _ _ (rw enabled refl) some_types
          ∙ ap (answer later cfg) there
          ∙ ap (settle later cfg) same
          ∙ settle-described later cfg s succeeds
          ∙ ap updated_to (updated-described s cfg wanted),
    )
