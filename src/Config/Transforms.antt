-- ===== src/Config/Transforms.antt =====
-- pkg/config/transforms.go: how a resource's version and engine are derived, and the validation of
-- these declarations. A missing text or list of the YAML is the empty one, a nil pointer `none`. Of
-- an error its kind is kept, and the index of a rule.
use version_guard.Base.{
  ℕ, suc, ◌+◌, String, Bool, not, ◌==◌, Option, none, some, List, [], ◌∷◌, Map, is_empty, ltb, ◌⊎◌,
  inl, if◌then◌else◌, is_some,
}

pub record ExtractJsonFieldOp : Type 0 where
  pub from_column : String
  pub field : String
  pub skip_if_empty : Bool

pub record VersionTransform : Type 0 where
  pub strip_prefixes : List String
  pub extract_json_field : Option ExtractJsonFieldOp

pub record SubstringLookupRule : Type 0 where
  pub contains : List String
  pub result : String

pub record FromVersionMajorOp : Type 0 where
  pub majors : Map String
  pub default : String

pub record EngineTransform : Type 0 where
  pub constant : String
  pub default_if_empty : String
  pub substring_lookup : List SubstringLookupRule
  pub from_version_major : Option FromVersionMajorOp

pub record TransformsConfig : Type 0 where
  pub version : Option VersionTransform
  pub engine : Option EngineTransform

pub data TransformError : Type 0 where
  several_version_ops no_from_column no_field several_engine_ops no_majors no_default :
      TransformError
  no_contains no_result : ℕ → TransformError

-- The first error of a row of checks; `none` is success.
infixr 30 ◌or_else◌
abbrev pub ◌or_else◌ {ℓ} : {E : Type ℓ} → Option E → Option E → Option E
none or_else later = later
some e or_else later = some e

-- `if err := ...; err != nil { return err }`, before the rest of a function.
abbrev pub unless {ℓ κ} : {E : Type ℓ} {A : Type κ} → Option E → E ⊎ A → E ⊎ A
unless none rest = rest
unless (some e) rest = inl e

-- `count++` under a test.
abbrev pub tally : Bool → ℕ
tally test = if test then 1 else 0

abbrev pub version_ops : VersionTransform → ℕ
version_ops v = tally (not (is_empty v.strip_prefixes)) + tally (is_some v.extract_json_field)

unfoldable pub validate_extract : Option ExtractJsonFieldOp → Option TransformError
validate_extract none = none
validate_extract (some op) =
    if op.from_column == ""
    then some no_from_column
    else if op.field == ""
    then some no_field
    else none

unfoldable pub validate_version : Option VersionTransform → Option TransformError
unfolding validate_extract
validate_version none = none
validate_version (some v) =
    if ltb 1 (version_ops v)
    then some several_version_ops
    else validate_extract v.extract_json_field

abbrev pub engine_ops : EngineTransform → ℕ
engine_ops e =
    tally (not (e.constant == ""))
    + tally (not (e.default_if_empty == ""))
    + tally (not (is_empty e.substring_lookup))
    + tally (is_some e.from_version_major)

-- The loop over the rules, from the index of the first.
unfoldable pub validate_rules : ℕ → List SubstringLookupRule → Option TransformError
validate_rules i [] = none
validate_rules i (rule ∷ rules) =
    let rest = validate_rules (suc i) rules in
    if is_empty rule.contains
    then some (no_contains i)
    else if rule.result == ""
    then some (no_result i)
    else rest

unfoldable pub validate_majors : Option FromVersionMajorOp → Option TransformError
validate_majors none = none
validate_majors (some op) =
    if is_empty op.majors
    then some no_majors
    else if op.default == ""
    then some no_default
    else none

unfoldable pub validate_engine : Option EngineTransform → Option TransformError
unfolding validate_rules validate_majors
validate_engine none = none
validate_engine (some e) =
    if ltb 1 (engine_ops e)
    then some several_engine_ops
    else validate_rules 0 e.substring_lookup or_else validate_majors e.from_version_major

-- `TransformsConfig.validate`
unfoldable pub validate_transforms : TransformsConfig → Option TransformError
unfolding validate_version validate_engine
validate_transforms t = validate_version t.version or_else validate_engine t.engine
