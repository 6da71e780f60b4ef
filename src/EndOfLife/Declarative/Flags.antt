-- ===== src/EndOfLife/Declarative/Flags.antt =====
-- pkg/eol/endoflife/adapters.go: what a validated declarative lifecycle guarantees.
use version_guard.Base.{
  ◌≡◌, refl, inl, inr, true, Option, none, some, arith, ◌==◌, String, ◌&&◌, Bool-cases, if_ind,
}
use version_guard.Types.{Time, past, upcoming, VersionLifecycle}
use version_guard.EndOfLife.{ProductCycle}
use version_guard.EndOfLife.Standard.Flags.{IsCoherent, IsFresh, cycle_metadata-IsFresh}
use version_guard.EndOfLife.Declarative.{
  ConfigError, ◌<|>◌, DeclarativeLifecycleConfig, validate_lifecycle_action,
  validate_declarative_lifecycle_config, validate_lifecycle_date_source, is_action,
  default_lifecycle_action, apply_lifecycle_action, chosen_action, classify, adapt_cycle,
}

-- One of the five actions.
abbrev pub IsAction : String → Type 0
IsAction action = is_action action ≡ true

valid-IsAction :
    (action : String)
    → validate_lifecycle_action action ≡ none
    → IsAction (default_lifecycle_action action "unsupported")
unfolding validate_lifecycle_action
valid-IsAction action h = elim (Bool-cases (action == "")) [
  | inl empty ↦ rw empty
  | inr given ↦ rw given (ground (arith, h))
]

<|>-eq-none : (a b : Option ConfigError) → (a <|> b) ≡ none → (a ≡ none) × (b ≡ none)
<|>-eq-none none b h = (refl, h)
<|>-eq-none (some e) b h = absurd (cc)

-- What holds of the three fixed actions and of the two configured ones holds of the chosen one.
chosen_action_ind :
    (P : String → Type 0) (c : DeclarativeLifecycleConfig) (now : Time) (l : VersionLifecycle)
    → P "eol"
    → P "unsupported"
    → P "supported"
    → P (default_lifecycle_action c.deprecated_window "unsupported")
    → P (default_lifecycle_action c.past_extended_support "unsupported")
    → P (chosen_action c now l)
unfolding chosen_action
chosen_action_ind P c now l ended dropped kept window past_extended = if_ind P _ ended (
    if_ind P _ dropped (
      if_ind P _ past_extended (
        if_ind P (past now l.deprecation_date && upcoming now l.deprecated_support_end) window (
          if_ind P (past now l.deprecation_date && upcoming now l.extended_support_end) window
            (if_ind P (past now l.deprecation_date) dropped kept)))))

-- A validated configuration chooses one of the five actions, at any time and for any cycle.
pub validated-IsAction :
    (c : DeclarativeLifecycleConfig) (now : Time) (l : VersionLifecycle)
    → validate_declarative_lifecycle_config (some c) ≡ none
    → IsAction (chosen_action c now l)
unfolding validate_declarative_lifecycle_config
validated-IsAction c now l h =
    let (_, h₁) = <|>-eq-none (validate_lifecycle_date_source c.deprecation_date) _ h in
    let (_, h₂) = <|>-eq-none (validate_lifecycle_date_source c.deprecated_support_end) _ h₁ in
    let (_, h₃) = <|>-eq-none (validate_lifecycle_date_source c.extended_support_end) _ h₂ in
    let (_, h₄) = <|>-eq-none (validate_lifecycle_date_source c.eol_date) _ h₃ in
    let (window, h₅) = <|>-eq-none (validate_lifecycle_action c.deprecated_window) _ h₄ in
    let (past_extended, _) = <|>-eq-none (validate_lifecycle_action c.past_extended_support) _ h₅ in
    chosen_action_ind IsAction c now l refl refl refl (valid-IsAction _ window)
      (valid-IsAction _ past_extended)

apply-IsCoherent :
    (action : String) (l : VersionLifecycle)
    → IsAction action
    → IsFresh l
    → IsCoherent (apply_lifecycle_action action l)
unfolding apply_lifecycle_action
apply-IsCoherent action l known fresh = ground arith

-- Whatever the cycle and the time, the flags that a validated declarative lifecycle sets are
-- coherent, in the sense of those of the standard schema.
pub declarative-IsCoherent :
    (c : DeclarativeLifecycleConfig) (fetched now : Time) (cycle : ProductCycle)
    → validate_declarative_lifecycle_config (some c) ≡ none
    → IsCoherent (adapt_cycle c fetched now cycle)
unfolding adapt_cycle classify
declarative-IsCoherent c fetched now cycle h =
    apply-IsCoherent _ _ (validated-IsAction c now _ h) (cycle_metadata-IsFresh fetched cycle)
