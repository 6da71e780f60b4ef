-- ===== src/EndOfLife/Provider/Agreement.antt =====
-- pkg/eol/endoflife/provider.go and pkg/policy/default.go: a lifecycle that the provider finds for
-- a version is one that the policy accepts for it.
use Prim.Native.String
use text.Mathlib.TextEquality.{starts_with_iff}
use version_guard.Base.{
  ◌≡◌, refl, String, Bool, true, false, Option, none, some, List, arith, sym, ◌∙◌, subst,
  trim_space, to_lower, if◌then◌else◌,
}
use version_guard.Types.{VersionLifecycle, LifecycleUnknownCause}
use version_guard.Policy.{is_set, strip_prefixes}
use version_guard.Policy.Matching.{Covers, whole, release, IsBare, strip_prefixes-IsBare}
use version_guard.EndOfLife.Provider.{
  World, State, Readings, CachedVersions, FetchError, find_version, answer_case, answer_from,
  lifecycle_with_metadata, get_version_lifecycle, load_versions,
}
use version_guard.EndOfLife.Provider.Search.{
  name_of, IsFound, exact, longest, Finds, IsNotFound, find_version-Finds,
}

IsFound-Covers :
    {version : String} {versions : List VersionLifecycle} {v : VersionLifecycle}
    → IsFound version versions v
    → strip_prefixes version ≡ version
    → name_of v ≡ v.version
    → Covers v.version version
IsFound-Covers (exact before after v split h same) s t = whole (sym t ∙ same)
IsFound-Covers {version} (longest v h m starts l) s t =
    release version (subst (IsBare version) s (strip_prefixes-IsBare version))
      ((starts_with_iff version (String.◌++◌ v.version ".")).0 (rw (sym t) starts))

-- A lifecycle that the search finds for a version covers it, as the policy reads it, when the name
-- of its cycle carries no surrounding space and the version no "k8s-" or "kubernetes-" that the
-- policy strips.
pub found-Covers :
    (version : String) (versions : List VersionLifecycle) (v : VersionLifecycle)
    → strip_prefixes version ≡ version
    → name_of v ≡ v.version
    → find_version version none 0 versions ≡ some v
    → Covers v.version version
found-Covers version versions v bare_version trimmed e =
    IsFound-Covers (subst (Finds version versions) e (find_version-Finds version versions))
      bare_version trimmed

-- What the provider answers for a version from a loaded entry: the failure of the entry, with its
-- cause; the cycle that the search finds; or no version and a cause.
pub data IsAnswer (version : String) (c : CachedVersions)
    : VersionLifecycle → Option FetchError → Type 0 where
  failed :
      (e : FetchError) (l : VersionLifecycle)
      → c.fetch_err ≡ some e
      → l.version ≡ version
      → l.unknown_cause ≡ LifecycleUnknownCause.source_error
      → l.is_supported ≡ false
      → IsAnswer version c l (some e)
  found :
      (v : VersionLifecycle) (engine : String)
      → c.fetch_err ≡ none
      → IsFound version c.versions v
      → IsAnswer version c (lifecycle_with_metadata v engine c) none
  missing :
      (l : VersionLifecycle)
      → c.fetch_err ≡ none
      → IsNotFound version c.versions
      → l.version ≡ ""
      → is_set l.unknown_cause ≡ true
      → IsAnswer version c l none

-- Without the product's cause the missing version has one of its own.
cause_is_set :
    (product : LifecycleUnknownCause) (b : Bool)
    → is_set (
        if is_set product
        then product
        else if b
        then LifecycleUnknownCause.malformed_cycle
        else LifecycleUnknownCause.cycle_not_found)
      ≡ true
cause_is_set product b = ground arith

answer_case-IsAnswer :
    (engine version : String) (c : CachedVersions) (f : Option FetchError)
    (o : Option VersionLifecycle)
    → c.fetch_err ≡ f
    → Finds version c.versions o
    → let answer = answer_case engine version c f o in IsAnswer version c answer.0 answer.1
answer_case-IsAnswer engine version c (some e) o h s = failed e _ h refl refl refl
answer_case-IsAnswer engine version c none (some v) h s = found v engine h s
answer_case-IsAnswer engine version c none none h s = missing _ h s refl (cause_is_set _ _)

answer_from-IsAnswer :
    (engine version : String) (c : CachedVersions)
    → let answer = answer_from engine version c in IsAnswer version c answer.0 answer.1
unfolding answer_from
answer_from-IsAnswer engine version c =
    answer_case-IsAnswer engine version c _ _ refl (find_version-Finds version c.versions)

-- The provider's answer for a version is the failure of the entry that its load returns, the cycle
-- that the search finds among the entry's, or, when there is none, a lifecycle without a version
-- and with a cause.
pub get_version_lifecycle-IsAnswer :
    (w : World) (engine version : String) (now : Readings) (s : State)
    → let answer = get_version_lifecycle w engine version now s in
      IsAnswer
        (trim_space version)
        (load_versions w (to_lower w.lower engine) now s).0
        answer.0
        answer.1
unfolding get_version_lifecycle
get_version_lifecycle-IsAnswer w engine version now s = answer_from-IsAnswer _ _ _
