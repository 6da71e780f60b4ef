-- ===== src/Policy/Matching.antt =====
-- pkg/policy/default.go: which lifecycle versions `versionMatches` accepts.
use Prim.Native.String.{◌++◌, len, slice}
use text.Mathlib.Text.{starts_with}
use text.Mathlib.TextBridge.{IsPrefix}
use text.Mathlib.TextEquality.{starts_with_iff}
use text.Mathlib.TextPositions.{slice-append_right, starts_with-append, len-append}
use version_guard.Base.{
  String, ◌≡◌, refl, sym, ap, ◌∙◌, subst, inl, inr, ◌↔◌, true, arith, eq_iff, or₃-eq-true,
  trim_prefix, Bool-cases, not_of_false, false_of_not,
}
use version_guard.Policy.{strip_prefixes, version_matches}

-- A text without a prefix: what follows the prefix, or the text itself when it does not begin so.
pub data IsWithout (prefix : String) : String → String → Type 0 where
  taken : (rest : String) → IsWithout prefix (prefix ++ rest) rest
  kept : (text : String) → ¬ IsPrefix prefix text → IsWithout prefix text text

-- A version without "k8s-" at its start, and then without "kubernetes-".
abbrev pub IsBare : String → String → Type 0
IsBare version bare_version =
    (middle : String) × IsWithout "k8s-" version middle
    × IsWithout "kubernetes-" middle bare_version

-- A lifecycle cycle covers a version: it is the version itself, or the version without its
-- "k8s-" and "kubernetes-" prefixes is the cycle, or the cycle followed by a dot and more.
pub data Covers (cycle version : String) : Type 0 where
  whole : cycle ≡ version → Covers cycle version
  bare : IsBare version cycle → Covers cycle version
  release :
      (bare_version : String)
      → IsBare version bare_version
      → IsPrefix (cycle ++ ".") bare_version
      → Covers cycle version

trim_prefix-append : (prefix rest : String) → trim_prefix (prefix ++ rest) prefix ≡ rest
unfolding trim_prefix
trim_prefix-append prefix rest = rw (starts_with-append prefix rest) (
    ap (slice (prefix ++ rest) (len prefix)) (len-append prefix rest)
    ∙ slice-append_right prefix rest)

trim_prefix-IsWithout : (text prefix : String) → IsWithout prefix text (trim_prefix text prefix)
unfolding trim_prefix
trim_prefix-IsWithout text prefix = elim (Bool-cases (starts_with text prefix)) [
  | inl e ↦
      let (rest, split) = (starts_with_iff text prefix).0 e in
      subst (λ s. IsWithout prefix s (trim_prefix s prefix)) split
        (subst (IsWithout prefix (prefix ++ rest)) (sym (trim_prefix-append prefix rest))
          (taken rest))
  | inr e ↦ rw e (kept text (not_of_false _ (starts_with_iff text prefix) e))
]

IsWithout-trim_prefix :
    (prefix text rest : String) → IsWithout prefix text rest → rest ≡ trim_prefix text prefix
unfolding trim_prefix
IsWithout-trim_prefix prefix text rest (taken rest') = sym (trim_prefix-append prefix rest)
IsWithout-trim_prefix prefix text rest (kept text' n) =
    rw (false_of_not _ (starts_with_iff text prefix) n) refl

pub strip_prefixes-IsBare : (version : String) → IsBare version (strip_prefixes version)
unfolding strip_prefixes
strip_prefixes-IsBare version =
    (trim_prefix version "k8s-", trim_prefix-IsWithout _ _, trim_prefix-IsWithout _ _)

IsBare-strip_prefixes :
    (version bare_version : String)
    → IsBare version bare_version
    → bare_version ≡ strip_prefixes version
unfolding strip_prefixes
IsBare-strip_prefixes version bare_version (middle, first, second) =
    IsWithout-trim_prefix "kubernetes-" middle bare_version second
    ∙ ap (λ s. trim_prefix s "kubernetes-") (IsWithout-trim_prefix "k8s-" version middle first)

Covers-version_matches :
    (cycle version : String) → Covers cycle version → version_matches cycle version ≡ true
unfolding version_matches
Covers-version_matches cycle version (whole e) = rw ((eq_iff cycle version).1 e)
Covers-version_matches cycle version (bare b) =
    ground
      (arith, (eq_iff cycle (strip_prefixes version)).1 (IsBare-strip_prefixes version cycle b))
Covers-version_matches cycle version (release bare_version b e) = ground (
  arith,
  (starts_with_iff (strip_prefixes version) (cycle ++ ".")).1
      (subst (IsPrefix (cycle ++ ".")) (IsBare-strip_prefixes version bare_version b) e),
)

version_matches-Covers :
    (cycle version : String) → version_matches cycle version ≡ true → Covers cycle version
unfolding version_matches
version_matches-Covers cycle version h = elim (or₃-eq-true _ _ _ h) [
  | inl same ↦ whole ((eq_iff _ _).0 same)
  | inr (inl stripped) ↦
      bare (subst (IsBare version) (sym ((eq_iff _ _).0 stripped)) (strip_prefixes-IsBare version))
  | inr (inr longer) ↦
      release (strip_prefixes version) (strip_prefixes-IsBare version)
        ((starts_with_iff _ _).0 longer)
]

-- `versionMatches` accepts exactly the versions that the cycle covers: "8.1" covers "8.1" and
-- "8.1.3", and not "8.10", and "1.31" covers "k8s-1.31" and "kubernetes-1.31.2".
pub version_matches_iff :
    (cycle version : String) → (version_matches cycle version ≡ true) ↔ Covers cycle version
version_matches_iff cycle version =
    (version_matches-Covers cycle version, Covers-version_matches cycle version)
