-- ===== src/Inventory/Transforms/Configured.antt =====
-- pkg/inventory/wiz/transforms.go, pkg/config/transforms.go: the declarations that the
-- validation accepts, and the order in which the source tries the operations.
use Prim.Native.Char.{Char}
use version_guard.Base.{
  ◌≤◌, ◌≡◌, ◌≢◌, refl, sym, ap, subst, ◌↔◌, inl, inr, String, true, false, not, ◌==◌, eq_iff, some,
  List, [], ◌∷◌, is_empty, is_some, arith, to_lower, trim_space, Bool-cases, Option-cases, ◌∙◌,
  ◌&&◌, if◌then◌else◌,
}
use mathlib.Core.Bool.{true≢false}
use version_guard.Config.Transforms.{
  SubstringLookupRule, FromVersionMajorOp, EngineTransform, engine_ops,
}
use version_guard.Config.Ready.{IsGiven, IsGiven-iff, EngineIsReady}
use version_guard.Inventory.Transforms.{
  engine_from_version_major, substring_lookup, apply_engine_transform, looked_up,
}

-- The engine that a configured operation gives, whichever others there are.
pub data EngineRule (engine version : String) (t : EngineTransform) (r : String) : Type 0 where
  constant : IsGiven t.constant → r ≡ t.constant → EngineRule engine version t r
  defaulted :
      IsGiven t.default_if_empty
      → engine ≡ ""
      → r ≡ t.default_if_empty
      → EngineRule engine version t r
  present : IsGiven t.default_if_empty → engine ≢ "" → r ≡ engine → EngineRule engine version t r
  by_major :
      (op : FromVersionMajorOp)
      → t.from_version_major ≡ some op
      → r ≡ engine_from_version_major version op
      → EngineRule engine version t r
  by_substring :
      is_empty t.substring_lookup ≡ false
      → r ≡ substring_lookup engine t.substring_lookup
      → EngineRule engine version t r
  unchanged : engine_ops t ≡ 0 → r ≡ engine → EngineRule engine version t r

-- The choice of `apply_engine_transform`, for the normalized engine.
abbrev chosen : String → String → EngineTransform → String
chosen engine version t =
    if not (t.constant == "")
    then t.constant
    else if not (t.default_if_empty == "") && engine == ""
    then t.default_if_empty
    else looked_up engine version t

substring_lookup-is_empty :
    (engine : String) (rules : List SubstringLookupRule)
    → is_empty rules ≡ true
    → substring_lookup engine rules ≡ engine
unfolding substring_lookup
substring_lookup-is_empty engine [] h = refl
substring_lookup-is_empty engine (rule ∷ rules) h = absurd cc

-- Without an operation of the last two kinds the engine stays as it is.
looked_up-unchanged :
    (engine version : String) (t : EngineTransform)
    → is_some t.from_version_major ≡ false
    → is_empty t.substring_lookup ≡ true
    → looked_up engine version t ≡ engine
looked_up-unchanged engine version t m s = elim (Option-cases t.from_version_major) [
  | inl none_ ↦ rw none_ (substring_lookup-is_empty engine t.substring_lookup s)
  | inr (op, e) ↦ absurd (true≢false (sym (ap is_some e) ∙ m))
]

looked_up-major :
    (engine version : String) (t : EngineTransform) (op : FromVersionMajorOp)
    → t.from_version_major ≡ some op
    → looked_up engine version t ≡ engine_from_version_major version op
looked_up-major engine version t op e = rw e refl

looked_up-substring :
    (engine version : String) (t : EngineTransform)
    → is_some t.from_version_major ≡ false
    → looked_up engine version t ≡ substring_lookup engine t.substring_lookup
looked_up-substring engine version t m = elim (Option-cases t.from_version_major) [
  | inl none_ ↦ rw none_ refl
  | inr (op, e) ↦ absurd (true≢false (sym (ap is_some e) ∙ m))
]

chosen-EngineRule :
    (engine version : String) (t : EngineTransform)
    → engine_ops t ≤ 1
    → EngineRule engine version t (chosen engine version t)
chosen-EngineRule engine version t h = elim (Bool-cases (t.constant == "")) [
  | inr given ↦ rw given (constant ((IsGiven-iff t.constant).0 given) refl)
  | inl c ↦ rw c elim (Bool-cases (t.default_if_empty == "")) [
    | inr given ↦ rw given elim (Bool-cases (engine == "")) [
      | inl e ↦
          rw e (defaulted ((IsGiven-iff t.default_if_empty).0 given) ((eq_iff engine "").0 e) refl)
      | inr n ↦ rw n (
          present ((IsGiven-iff t.default_if_empty).0 given) ((IsGiven-iff engine).0 n) (
            looked_up-unchanged engine version t (ground (arith, h, given))
              (ground (arith, h, given))))
    ]
    | inl d ↦ rw d elim (Option-cases t.from_version_major) [
      | inr (op, e) ↦ by_major op e (looked_up-major engine version t op e)
      | inl m ↦ elim (Bool-cases (is_empty t.substring_lookup)) [
        | inl s ↦
            unchanged (rw (c, d, m, s) refl) (looked_up-unchanged engine version t (ap is_some m) s)
        | inr s ↦ by_substring s (looked_up-substring engine version t (ap is_some m))
      ]
    ]
  ]
]

EngineRule-chosen :
    (engine version : String) (t : EngineTransform) (r : String)
    → engine_ops t ≤ 1
    → EngineRule engine version t r
    → r ≡ chosen engine version t
EngineRule-chosen engine version t r h (constant g e) = rw ((IsGiven-iff t.constant).1 g) e
EngineRule-chosen engine version t r h (defaulted g n e) =
    let given = (IsGiven-iff t.default_if_empty).1 g in
    let empty = (eq_iff engine "").1 n in ground (arith, h, e, given, empty)
EngineRule-chosen engine version t r h (present g n e) =
    let given = (IsGiven-iff t.default_if_empty).1 g in
    let full = (IsGiven-iff engine).1 n in
    ground (arith, h, e, given, full, looked_up-unchanged engine version t)
EngineRule-chosen engine version t r h (by_major op o e) =
    let some_ = ap is_some o in ground (arith, h, e, some_, looked_up-major engine version t op o)
EngineRule-chosen engine version t r h (by_substring s e) =
    ground (arith, h, e, s, looked_up-substring engine version t)
EngineRule-chosen engine version t r h (unchanged z e) =
    ground (arith, z, e, looked_up-unchanged engine version t)

-- For a declaration that the loader accepts, an engine is the one that the source gives a row exactly
-- when a declared operation gives it to the lower-case text of the row, whichever operation is tried
-- first.
pub apply_engine_transform_iff :
    (lower : Char → Char) (raw version : String) (t : EngineTransform) (r : String)
    → EngineIsReady (some t)
    → (r ≡ apply_engine_transform lower raw version (some t))
      ↔ EngineRule (to_lower lower (trim_space raw)) version t r
unfolding apply_engine_transform
apply_engine_transform_iff lower raw version t r ready =
    let engine = to_lower lower (trim_space raw) in
    (
      λ e. subst (EngineRule engine version t) (sym e) (chosen-EngineRule engine version t ready.0),
      λ rule. EngineRule-chosen engine version t r ready.0 rule,
    )
