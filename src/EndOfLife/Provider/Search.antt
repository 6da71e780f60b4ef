-- ===== src/EndOfLife/Provider/Search.antt =====
-- pkg/eol/endoflife/provider.go: which cached version the loop of `GetVersionLifecycle` chooses.
use Prim.Native.String
use Prim.Native.String.{len}
use mathlib.Core.List.{Memᴰ}
use mathlib.Core.Option.{some-injective}
use text.Mathlib.Text.{starts_with}
use version_guard.Base.{
  ℕ, ◌≤◌, ◌≡◌, refl, ◌⊎◌, inl, inr, String, Bool, true, false, ◌&&◌, Option, none, some, List, [],
  ◌∷◌, ◌++◌, All, arith, sym, ltb, Bool-cases, eq_iff, ◌==◌, trim_space,
}
use version_guard.Types.{VersionLifecycle}
use version_guard.EndOfLife.Provider.{find_version}

-- The name of a cycle, without surrounding space.
abbrev pub name_of : VersionLifecycle → String
name_of v = trim_space v.version

-- The cycle has another name than the version.
abbrev pub IsOther : String → VersionLifecycle → Type 0
IsOther version v = (name_of v == version) ≡ false

-- The version is a release of the cycle: the cycle's name, a dot, and more.
abbrev pub IsRelease : String → VersionLifecycle → Type 0
IsRelease version v = starts_with version (String.◌++◌ (name_of v) ".") ≡ true

-- If the version is a release of the cycle, the cycle's name is not longer than `n`.
abbrev pub NoLonger : String → ℕ → VersionLifecycle → Type 0
NoLonger version n v = IsRelease version v → len (name_of v) ≤ n

-- A cycle of the same name is chosen, the first of them, whatever stands around it.
find_version_exact :
    (version : String) (before : List VersionLifecycle) (v : VersionLifecycle)
    (after : List VersionLifecycle) (best : Option VersionLifecycle) (n : ℕ)
    → All (IsOther version) before
    → (name_of v == version) ≡ true
    → find_version version best n (before ++ v ∷ after) ≡ some v
unfolding find_version
find_version_exact version [] v after best n h e = rw e
find_version_exact version (u ∷ before) v after best n (other, h) e =
    rw other (find_version_exact version before v after _ _ h e)

-- Among cycles of other names: what the loop returns from the best one so far, of a name of length
-- `n`, and from the cycles that follow.
record Longest (version : String) (best : Option VersionLifecycle) (n : ℕ)
    (versions : List VersionLifecycle) (found : VersionLifecycle) : Type 0 where
  listed : (best ≡ some found) ⊎ (Memᴰ found versions × IsRelease version found)
  no_shorter : n ≤ len (name_of found)
  maximal : All (NoLonger version (len (name_of found))) versions

abbrev Chosen :
    String → Option VersionLifecycle → ℕ → List VersionLifecycle → Option VersionLifecycle → Type 0
Chosen version best n versions none = (best ≡ none) × All (NoLonger version n) versions
Chosen version best n versions (some found) = Longest version best n versions found

-- The name of the best cycle so far has the length `n`.
abbrev IsLength : Option VersionLifecycle → ℕ → Type 0
IsLength none n = Unit
IsLength (some b) n = n ≡ len (name_of b)

-- The test by which the loop takes a cycle for the best so far.
abbrev better : String → ℕ → VersionLifecycle → Bool
better version n v = starts_with version (String.◌++◌ (name_of v) ".") && ltb n (len (name_of v))

take_step :
    (version : String) (best : Option VersionLifecycle) (n : ℕ) (v : VersionLifecycle)
    (versions : List VersionLifecycle) (r : Option VersionLifecycle)
    → better version n v ≡ true
    → Chosen version (some v) (len (name_of v)) versions r
    → Chosen version best n (v ∷ versions) r
take_step version best n v versions none b (e, _) = absurd cc
take_step version best n v versions (some f) b c = record {
  listed = elim c.listed [
    | inl same ↦ inr (Memᴰ.head (some-injective f v (sym same)), ground arith)
    | inr (m, release) ↦ inr (Memᴰ.tail m, release)
  ];
  no_shorter = ground arith;
  maximal = ((λ _. c.no_shorter), c.maximal);
}

NoLonger-mono :
    (version : String) (n m : ℕ)
    → n ≤ m
    → (v : VersionLifecycle) → NoLonger version n v
    → NoLonger version m v
NoLonger-mono version n m h v l r = omega (arith, l r)

not_better :
    (version : String) (n : ℕ) (v : VersionLifecycle)
    → better version n v ≡ false
    → NoLonger version n v
not_better version n v b r = ground arith

keep_step :
    (version : String) (best : Option VersionLifecycle) (n : ℕ) (v : VersionLifecycle)
    (versions : List VersionLifecycle) (r : Option VersionLifecycle)
    → better version n v ≡ false
    → Chosen version best n versions r
    → Chosen version best n (v ∷ versions) r
keep_step version best n v versions none b (e, h) = (e, (not_better version n v b, h))
keep_step version best n v versions (some f) b c = record {
  listed = elim c.listed [ inl same ↦ inl same | inr (m, release) ↦ inr (Memᴰ.tail m, release) ];
  no_shorter = c.no_shorter;
  maximal = (NoLonger-mono version n _ c.no_shorter v (not_better version n v b), c.maximal);
}

find_version_longest :
    (version : String) (versions : List VersionLifecycle) (best : Option VersionLifecycle) (n : ℕ)
    → IsLength best n
    → All (IsOther version) versions
    → Chosen version best n versions (find_version version best n versions)
unfolding find_version
find_version_longest version [] none n l h = (refl, tt)
find_version_longest version [] (some b) n l h = record {
  listed = inl refl;
  no_shorter = omega arith;
  maximal = tt;
}
find_version_longest version (v ∷ versions) best n l (other, h) =
    elim (Bool-cases (better version n v)) [
      | inl b ↦
          rw (other, b)
            (take_step version best n v versions _ b
              (find_version_longest version versions (some v) (len (name_of v)) refl h))
      | inr b ↦
          rw (other, b)
            (keep_step version best n v versions _ b
              (find_version_longest version versions best n l h))
    ]

-- A cached version is found for a version: the first of its name, or, if there is none, one of
-- which it is a release and whose name is no shorter than that of any other such.
pub data IsFound (version : String) (versions : List VersionLifecycle)
    : VersionLifecycle → Type 0 where
  exact :
      (before after : List VersionLifecycle) (v : VersionLifecycle)
      → versions ≡ before ++ v ∷ after
      → All (IsOther version) before
      → name_of v ≡ version
      → IsFound version versions v
  longest :
      (v : VersionLifecycle)
      → All (IsOther version) versions
      → Memᴰ v versions
      → IsRelease version v
      → All (NoLonger version (len (name_of v))) versions
      → IsFound version versions v

-- None is found: the version is not the name of any cycle, nor a release of any that has a name.
abbrev pub IsNotFound : String → List VersionLifecycle → Type 0
IsNotFound version versions = All (IsOther version) versions × All (NoLonger version 0) versions

abbrev pub Finds : String → List VersionLifecycle → Option VersionLifecycle → Type 0
Finds version versions none = IsNotFound version versions
Finds version versions (some v) = IsFound version versions v

-- The versions up to the first of the name that is looked for.
data Split (version : String) : List VersionLifecycle → Type 0 where
  at :
      (before : List VersionLifecycle) (v : VersionLifecycle) (after : List VersionLifecycle)
      → All (IsOther version) before
      → (name_of v == version) ≡ true
      → Split version (before ++ v ∷ after)

Split-cons :
    {version : String} {versions : List VersionLifecycle} (v : VersionLifecycle)
    → IsOther version v
    → Split version versions
    → Split version (v ∷ versions)
Split-cons v other (at before u after h e) = at (v ∷ before) u after (other, h) e

split_versions :
    (version : String) (versions : List VersionLifecycle)
    → All (IsOther version) versions ⊎ Split version versions
split_versions version [] = inl tt
split_versions version (v ∷ versions) = elim (Bool-cases (name_of v == version)) [
  | inl same ↦ inr (at [] v versions tt same)
  | inr other ↦ elim (split_versions version versions) [
    | inl rest ↦ inl (other, rest)
    | inr split ↦ inr (Split-cons v other split)
  ]
]

Chosen-Finds :
    (version : String) (versions : List VersionLifecycle) (r : Option VersionLifecycle)
    → All (IsOther version) versions
    → Chosen version none 0 versions r
    → Finds version versions r
Chosen-Finds version versions none h (_, c) = (h, c)
Chosen-Finds version versions (some f) h c = elim c.listed [
  | inl same ↦ absurd (cc)
  | inr (m, release) ↦ longest f h m release c.maximal
]

Split-Finds :
    {version : String} {versions : List VersionLifecycle}
    → Split version versions
    → Finds version versions (find_version version none 0 versions)
Split-Finds {version} (at before v after h e) =
    rw (find_version_exact version before v after none 0 h e)
      (exact before after v refl h ((eq_iff (name_of v) version).0 e))

-- The search returns the first cycle whose name is the version; without one, a cycle of the longest
-- name of which the version is a release; and nothing exactly when there is neither.
pub find_version-Finds :
    (version : String) (versions : List VersionLifecycle)
    → Finds version versions (find_version version none 0 versions)
find_version-Finds version versions = elim (split_versions version versions) [
  | inl none_of_it ↦
      Chosen-Finds version versions _ none_of_it
        (find_version_longest version versions none 0 tt none_of_it)
  | inr split ↦ Split-Finds split
]
