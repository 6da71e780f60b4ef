-- ===== src/Base/Maps.antt =====
-- Go's maps with text keys, as association lists that hold each key once. The order of the list
-- stands for the order of iteration, which Go leaves open.
use Prim.Native.String.{String}
use mathlib.Core.Path.{◌≡◌, refl, subst}
use mathlib.Core.Logic.{inl, inr}
use mathlib.Core.Bool.{false}
use mathlib.Core.Option.{Option, none, some}
use mathlib.Core.List.{List, [], ◌∷◌}
use native.Mathlib.Omega.{arith}
use text.Mathlib.Text.{◌==◌}
use text.Mathlib.TextEquality.{eq_iff}
use version_guard.Base.Tests.{if◌then◌else◌, Bool-cases}

abbrev pub Map {ℓ} : Type ℓ → Type ℓ
Map V = List (String × V)

module _ {ℓ} {V : Type ℓ} where
  -- The entry of a key, as `value, ok := m[key]` reads it.
  unfoldable pub lookup : String → Map V → Option V
  lookup key [] = none
  lookup key ((own, value) ∷ rest) = if own == key then some value else lookup key rest

  -- `m[key] = value` changes an entry in its place.
  unfoldable pub insert : String → V → Map V → Map V
  insert key value [] = (key, value) ∷ []
  insert key value ((own, old) ∷ rest) =
      if own == key then (key, value) ∷ rest else (own, old) ∷ insert key value rest

  -- `delete(m, key)`
  unfoldable pub delete : String → Map V → Map V
  delete key [] = []
  delete key ((own, value) ∷ rest) =
      if own == key then delete key rest else (own, value) ∷ delete key rest

  pub lookup-insert :
      (key other : String) (value : V) (m : Map V)
      → lookup other (insert key value m) ≡ (if key == other then some value else lookup other m)
  unfolding insert lookup
  lookup-insert key other value [] = refl
  lookup-insert key other value ((own, old) ∷ rest) = ground (
    arith,
    lookup-insert key other value rest,
    eq_iff own key,
    eq_iff own other,
    eq_iff key other,
  )

  pub lookup-delete :
      (key other : String) (m : Map V)
      → lookup other (delete key m) ≡ (if key == other then none else lookup other m)
  unfolding delete lookup
  lookup-delete key other [] = ground arith
  lookup-delete key other ((own, old) ∷ rest) =
      ground
        (arith, lookup-delete key other rest, eq_iff own key, eq_iff own other, eq_iff key other)

  -- A key does not occur in a map.
  abbrev pub Fresh : String → Map V → Type 0
  Fresh k [] = Unit
  Fresh k ((j, v) ∷ m) = ((j == k) ≡ false) × Fresh k m

  -- No key occurs twice.
  abbrev pub IsUnique : Map V → Type 0
  IsUnique [] = Unit
  IsUnique ((k, v) ∷ m) = Fresh k m × IsUnique m

  pub Fresh-insert :
      (k j : String) (v : V) (m : Map V) → (j == k) ≡ false → Fresh k m → Fresh k (insert j v m)
  unfolding insert
  Fresh-insert k j v [] d h = (d, tt)
  Fresh-insert k j v ((i, w) ∷ m) d (e, h) = elim (Bool-cases (i == j)) [
    | inl same ↦ rw same (d, h)
    | inr other ↦ rw other (e, Fresh-insert k j v m d h)
  ]

  pub lookup-Fresh : (k : String) (m : Map V) → Fresh k m → lookup k m ≡ none
  unfolding lookup
  lookup-Fresh k [] h = refl
  lookup-Fresh k ((j, v) ∷ m) (d, h) = rw d (lookup-Fresh k m h)

  pub insert-IsUnique : (k : String) (v : V) (m : Map V) → IsUnique m → IsUnique (insert k v m)
  unfolding insert
  insert-IsUnique k v [] h = (tt, tt)
  insert-IsUnique k v ((j, w) ∷ m) (fresh, h) = elim (Bool-cases (j == k)) [
    | inl same ↦ rw same (subst (λ i. Fresh i m) ((eq_iff j k).0 same) fresh, h)
    | inr other ↦ rw other (
      Fresh-insert j k v m (ground (arith, eq_iff j k, eq_iff k j)) fresh,
      insert-IsUnique k v m h,
    )
  ]
