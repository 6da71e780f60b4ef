-- ===== src/EndOfLife/Declarative/Laws.antt =====
-- pkg/eol/endoflife/adapters.go with pkg/policy/default.go: the verdicts that follow from a
-- declarative lifecycle.
use version_guard.Base.{
  ◌≡◌, ◌≢◌, ◌↔◌, refl, ◌⊎◌, inl, inr, true, none, some, arith, eq_iff, or-cases, ◌||◌, ◌==◌, String,
  sym, subst,
}
use version_guard.Types.{Time, past, Status, Resource, VersionLifecycle}
use version_guard.Policy.{Clock, new_default_policy}
use version_guard.Policy
use version_guard.Policy.Matching.{Covers}
use version_guard.Policy.Verdicts.{Applies, HasEnded, classify-Verdict}
use version_guard.EndOfLife.{ProductCycle}
use version_guard.EndOfLife.Standard.{cycle_metadata}
use version_guard.EndOfLife.Standard.Flags.{IsFresh, cycle_metadata-IsFresh}
use version_guard.EndOfLife.Standard.Verdicts.{IsCycleOf}
use version_guard.EndOfLife.Declarative.{
  DeclarativeLifecycleConfig, validate_declarative_lifecycle_config, parse_date_source,
  apply_lifecycle_action, chosen_action, classify, adapt_cycle,
}
use version_guard.EndOfLife.Declarative.Flags.{IsAction, validated-IsAction}

-- One of the two actions that end support.
abbrev pub IsFinal : String → Type 0
IsFinal action = (action == "eol" || action == "unsupported") ≡ true

-- The five actions.
data Action : String → Type 0 where
  extended : Action "extended_support"
  deprecated : Action "deprecated_support"
  unsupported : Action "unsupported"
  ended : Action "eol"
  kept : Action "supported"

action_of :
    {action : String} (name : String) → Action name → (action == name) ≡ true → Action action
action_of {action} name a e = subst Action (sym ((eq_iff action name).0 e)) a

IsAction-Action : (action : String) → IsAction action → Action action
IsAction-Action action h = elim (or-cases _ _ h) [
  | inl h₁ ↦ elim (or-cases _ _ h₁) [
    | inl h₂ ↦ elim (or-cases _ _ h₂) [
      | inl h₃ ↦ elim (or-cases _ _ h₃) [
        | inl e ↦ action_of "extended_support" extended e
        | inr e ↦ action_of "deprecated_support" deprecated e
      ]
      | inr e ↦ action_of "unsupported" unsupported e
    ]
    | inr e ↦ action_of "eol" ended e
  ]
  | inr e ↦ action_of "supported" kept e
]

apply-HasEnded :
    (clock : Clock) {action : String} (l : VersionLifecycle)
    → Action action
    → IsFresh l
    → HasEnded clock (apply_lifecycle_action action l)
      ↔ (IsFinal action ⊎ (past clock.support l.extended_support_end ≡ true))
unfolding apply_lifecycle_action
apply-HasEnded clock l extended fresh = ground arith
apply-HasEnded clock l deprecated fresh = ground arith
apply-HasEnded clock l unsupported fresh = ground arith
apply-HasEnded clock l ended fresh = ground arith
apply-HasEnded clock l kept fresh = ground arith

apply-metadata :
    {action : String} (l : VersionLifecycle)
    → Action action
    → (apply_lifecycle_action action l).version ≡ l.version
unfolding apply_lifecycle_action
apply-metadata l extended = refl
apply-metadata l deprecated = refl
apply-metadata l unsupported = refl
apply-metadata l ended = refl
apply-metadata l kept = refl

-- The lifecycle to which the action is applied.
abbrev pub dated : DeclarativeLifecycleConfig → Time → ProductCycle → VersionLifecycle
dated c fetched cycle = record (cycle_metadata fetched cycle) {
  deprecation_date = parse_date_source cycle c.deprecation_date;
  deprecated_support_end = parse_date_source cycle c.deprecated_support_end;
  extended_support_end = parse_date_source cycle c.extended_support_end;
  eol_date = parse_date_source cycle c.eol_date;
}

module _ (c : DeclarativeLifecycleConfig) (fetched now : Time) (clock : Clock) (r : Resource)
    (cycle : ProductCycle) (valid : validate_declarative_lifecycle_config (some c) ≡ none)
    (covers : IsCycleOf r cycle) where
  action : Action (chosen_action c now (dated c fetched cycle))
  action = IsAction-Action _ (validated-IsAction c now _ valid)

  applies : Applies r (adapt_cycle c fetched now cycle)
  unfolding adapt_cycle classify cycle_metadata
  applies =
      subst (λ v. (v ≢ "") × Covers v r.current_version)
        (sym (apply-metadata (dated c fetched cycle) action)) covers

  has_ended : HasEnded clock (adapt_cycle c fetched now cycle) ↔ (
      IsFinal (chosen_action c now (dated c fetched cycle))
      ⊎ (past clock.support (parse_date_source cycle c.extended_support_end) ≡ true))
  unfolding adapt_cycle classify
  has_ended =
      apply-HasEnded clock (dated c fetched cycle) action (cycle_metadata-IsFresh fetched cycle)

  -- Under a validated declarative lifecycle a resource whose version the cycle covers is RED exactly
  -- when the action chosen at adaptation ends support ("eol" or "unsupported"), or the end of
  -- extended support has passed at classification, whatever `past_extended_support` says.
  pub declarative-red_iff :
      (Policy.classify new_default_policy clock r (adapt_cycle c fetched now cycle) ≡ Status.red)
      ↔ (IsFinal (chosen_action c now (dated c fetched cycle))
          ⊎ (past clock.support (parse_date_source cycle c.extended_support_end) ≡ true))
  declarative-red_iff =
      let (to, from) = (classify-Verdict clock r (adapt_cycle c fetched now cycle)).0 in
      (λ e. has_ended.0 (to e).1, λ e. from (applies, has_ended.1 e))
