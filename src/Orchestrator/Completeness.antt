-- ===== src/Orchestrator/Completeness.antt =====
-- pkg/workflow/orchestrator/activities.go: which snapshots `validateSnapshotCompleteness` accepts.
use version_guard.Base.{
  ◌≡◌, refl, sym, ◌∙◌, String, Bool, true, false, ◌||◌, List, [], ◌∷◌, ◌⊎◌, inl, inr, ◌↔◌, any,
  is_empty, All, arith, ◌==◌, eq_iff, Bool-cases, Map, insert,
}
use version_guard.Types.{Time, ResourceType}
use version_guard.Store.{Store, list_findings}
use version_guard.Snapshot.{Snapshot, add_findings, build, with_scan_timing, new_builder}
use version_guard.Orchestrator.{
  CreateSnapshotInput, ValidationReason, should_validate_snapshot_completeness, keys,
  snapshot_resource_types, missing_resource_types, validate_snapshot_completeness, add_types,
  by_type, built,
}
use version_guard.Orchestrator.Validation.{built-is_valid_summary}

abbrev pub IsIn : List ResourceType → ResourceType → Type 0
IsIn types t = any (λ p. p == t) types ≡ true

keys-insert :
    {V : Type 0} (k t : String) (v : V) (m : Map V)
    → any (λ p. p == t) (keys (insert k v m)) ≡ ((k == t) || any (λ p. p == t) (keys m))
unfolding insert
keys-insert k t v [] = refl
keys-insert k t v ((j, w) ∷ m) = ground (arith, eq_iff j k, keys-insert k t v m)

keys-add_types :
    (types : List ResourceType) (store : Store) (snap : Snapshot) (t : ResourceType)
    → any (λ p. p == t) (keys (add_types types store snap).findings_by_type)
      ≡ (any (λ p. p == t) types || any (λ p. p == t) (keys snap.findings_by_type))
unfolding add_types add_findings
keys-add_types [] store snap t = refl
keys-add_types (k ∷ types) store snap t = ground (
  arith,
  keys-add_types types store (add_findings k (list_findings (by_type k) store) snap) t,
  keys-insert k t (list_findings (by_type k) store) snap.findings_by_type,
)

or-false : (b : Bool) → (b || false) ≡ b
or-false b = ground arith

-- A built snapshot holds exactly the types that it was built for.
keys-built :
    (id : String) (now : Time) (input : CreateSnapshotInput) (store : Store) (t : ResourceType)
    → any (λ p. p == t) (snapshot_resource_types (built id now input store))
      ≡ any (λ p. p == t) input.resource_types
unfolding built build snapshot_resource_types with_scan_timing new_builder
keys-built id now input store t =
    keys-add_types input.resource_types store _ t
    ∙ or-false (any (λ p. p == t) input.resource_types)

-- No type is missing when all are in.
missing-IsIn :
    (expected present : List ResourceType)
    → (is_empty (missing_resource_types expected present) ≡ true) ↔ All (IsIn present) expected
unfolding missing_resource_types
missing-IsIn [] present = (λ _. tt, λ _. refl)
missing-IsIn (t ∷ expected) present = elim (Bool-cases (any (λ p. p == t) present)) [
  | inl e ↦ rw e (
    λ h. (refl, (missing-IsIn expected present).0 h),
    λ (_, h). (missing-IsIn expected present).1 h,
  )
  | inr e ↦ rw e (λ h. absurd cc, λ (f, h). absurd cc)
]

All-IsIn :
    (expected present types : List ResourceType)
    → ((t : ResourceType) → any (λ p. p == t) present ≡ any (λ p. p == t) types)
    → All (IsIn present) expected ↔ All (IsIn types) expected
All-IsIn [] present types h = (λ _. tt, λ _. tt)
All-IsIn (t ∷ expected) present types h = (
  λ (a, b). (sym (h t) ∙ a, (All-IsIn expected present types h).0 b),
  λ (a, b). (h t ∙ a, (All-IsIn expected present types h).1 b),
)

IsIn-nonempty :
    (expected present : List ResourceType)
    → is_empty expected ≡ false
    → All (IsIn present) expected
    → is_empty present ≡ false
IsIn-nonempty [] present e h = absurd cc
IsIn-nonempty (t ∷ expected) [] e (a, h) = absurd cc
IsIn-nonempty (t ∷ expected) (p ∷ present) e h = refl

-- What the validation asks of the types of an input.
abbrev pub IsComplete : CreateSnapshotInput → Type 0
IsComplete input =
    (should_validate_snapshot_completeness input ≡ false)
    ⊎ ((is_empty input.expected_resource_types ≡ false)
        × All (IsIn input.resource_types) input.expected_resource_types)

-- `validateSnapshotCompleteness` accepts the snapshot that is built for an input exactly when the
-- input is not to be validated, or it expects some types, and all of them are among its types.
pub IsComplete-iff :
    (id : String) (now : Time) (input : CreateSnapshotInput) (store : Store)
    → (validate_snapshot_completeness input (built id now input store) ≡ ValidationReason.ok)
      ↔ IsComplete input
unfolding validate_snapshot_completeness
IsComplete-iff id now input store =
    let present = snapshot_resource_types (built id now input store) in
    let expected = input.expected_resource_types in
    let moved = All-IsIn expected present input.resource_types (keys-built id now input store) in
    let valid = built-is_valid_summary id now input store in
    (
      λ h. elim (Bool-cases (should_validate_snapshot_completeness input)) [
        | inr off ↦ inl off
        | inl on ↦
            inr (ground arith, moved.0 ((missing-IsIn expected present).0 (ground (arith, valid))))
      ],
      λ c. elim c [
        | inl off ↦ ground arith
        | inr (e, h) ↦ ground (
          arith,
          valid,
          IsIn-nonempty expected present e (moved.1 h),
          (missing-IsIn expected present).1 (moved.1 h),
        )
      ],
    )
