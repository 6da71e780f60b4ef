-- ===== src/Config/Ready.antt =====
-- pkg/config/transforms.go: the declarations of transforms that the validation accepts.
use version_guard.Base.{
  ℕ, suc, ◌≤◌, ◌≡◌, refl, ◌≢◌, ◌↔◌, String, false, ◌==◌, eq_iff, arith, Option, none, some, List,
  [], ◌∷◌, All, is_empty,
}
use version_guard.Config.Transforms.{
  ExtractJsonFieldOp, VersionTransform, SubstringLookupRule, FromVersionMajorOp, EngineTransform,
  TransformsConfig, ◌or_else◌, version_ops, engine_ops, validate_extract, validate_version,
  validate_rules, validate_majors, validate_engine, validate_transforms,
}

abbrev pub IsGiven : String → Type 0
IsGiven s = s ≢ ""

pub IsGiven-iff : (s : String) → ((s == "") ≡ false) ↔ IsGiven s
IsGiven-iff s = (λ h e. ground (arith, eq_iff s ""), λ n. ground (arith, eq_iff s "", n))

pub or_else-eq-none :
    {E : Type 0} (a b : Option E) → ((a or_else b) ≡ none) ↔ ((a ≡ none) × (b ≡ none))
or_else-eq-none none b = (λ h. (refl, h), λ h. h.1)
or_else-eq-none (some e) b = (λ h. absurd cc, λ h. absurd cc)

abbrev pub ExtractIsReady : Option ExtractJsonFieldOp → Type 0
ExtractIsReady none = Unit
ExtractIsReady (some op) = IsGiven op.from_column × IsGiven op.field

validate_extract_iff :
    (o : Option ExtractJsonFieldOp) → (validate_extract o ≡ none) ↔ ExtractIsReady o
unfolding validate_extract
validate_extract_iff none = (λ h. tt, λ h. refl)
validate_extract_iff (some op) = ground (arith, IsGiven-iff op.from_column, IsGiven-iff op.field)

abbrev pub VersionIsReady : Option VersionTransform → Type 0
VersionIsReady none = Unit
VersionIsReady (some v) = (version_ops v ≤ 1) × ExtractIsReady v.extract_json_field

validate_version_iff :
    (o : Option VersionTransform) → (validate_version o ≡ none) ↔ VersionIsReady o
unfolding validate_version
validate_version_iff none = (λ h. tt, λ h. refl)
validate_version_iff (some v) = ground (arith, validate_extract_iff v.extract_json_field)

abbrev pub RuleIsReady : SubstringLookupRule → Type 0
RuleIsReady rule = (is_empty rule.contains ≡ false) × IsGiven rule.result

validate_rules_iff :
    (i : ℕ) (rules : List SubstringLookupRule)
    → (validate_rules i rules ≡ none) ↔ All RuleIsReady rules
unfolding validate_rules
validate_rules_iff i [] = (λ h. tt, λ h. refl)
validate_rules_iff i (rule ∷ rules) =
    ground (arith, validate_rules_iff (suc i) rules, IsGiven-iff rule.result)

abbrev pub MajorsAreReady : Option FromVersionMajorOp → Type 0
MajorsAreReady none = Unit
MajorsAreReady (some op) = (is_empty op.majors ≡ false) × IsGiven op.default

validate_majors_iff :
    (o : Option FromVersionMajorOp) → (validate_majors o ≡ none) ↔ MajorsAreReady o
unfolding validate_majors
validate_majors_iff none = (λ h. tt, λ h. refl)
validate_majors_iff (some op) = ground (arith, IsGiven-iff op.default)

abbrev pub EngineIsReady : Option EngineTransform → Type 0
EngineIsReady none = Unit
EngineIsReady (some e) =
    (engine_ops e ≤ 1) × All RuleIsReady e.substring_lookup × MajorsAreReady e.from_version_major

validate_engine_iff : (o : Option EngineTransform) → (validate_engine o ≡ none) ↔ EngineIsReady o
unfolding validate_engine
validate_engine_iff none = (λ h. tt, λ h. refl)
validate_engine_iff (some e) = ground (
  arith,
  or_else-eq-none (validate_rules 0 e.substring_lookup) (validate_majors e.from_version_major),
  validate_rules_iff 0 e.substring_lookup,
  validate_majors_iff e.from_version_major,
)

abbrev pub TransformsAreReady : TransformsConfig → Type 0
TransformsAreReady t = VersionIsReady t.version × EngineIsReady t.engine

pub validate_transforms_iff :
    (t : TransformsConfig) → (validate_transforms t ≡ none) ↔ TransformsAreReady t
unfolding validate_transforms
validate_transforms_iff t = ground (
  arith,
  or_else-eq-none (validate_version t.version) (validate_engine t.engine),
  validate_version_iff t.version,
  validate_engine_iff t.engine,
)
