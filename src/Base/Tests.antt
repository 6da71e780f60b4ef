-- ===== src/Base/Tests.antt =====
-- Boolean tests on the native numbers, the conditional, and splits on computed values.
use Prim.Native.Nat.{ℕ, ◌≤◌, ◌<◌, compare, Ordering}
use mathlib.Core.Path.{◌≡◌, refl, sym, ◌∙◌}
use mathlib.Core.Logic.{◌⊎◌, ◌↔◌, inl, inr}
use mathlib.Core.Bool.{Bool, true, false, false≢true, ◌||◌}
use mathlib.Core.Option.{Option, none, some}
use native.Mathlib.Omega.{arith}

-- These compute to `compare`, which `ground` and `grind` read with no lemma listed.
abbrev pub ltb : ℕ → ℕ → Bool
ltb a b = elim (compare a b) [ Ordering.lt ↦ true | _ ↦ false ]

abbrev pub leb : ℕ → ℕ → Bool
leb a b = elim (compare a b) [ Ordering.gt ↦ false | _ ↦ true ]

abbrev pub eqb : ℕ → ℕ → Bool
eqb a b = elim (compare a b) [ Ordering.eq ↦ true | _ ↦ false ]

infix 1 if◌then◌else◌
abbrev pub if◌then◌else◌ {ℓ} : {A : Type ℓ} → Bool → A → A → A
if true then x else y = x
if false then x else y = y

pub lt→ltb : (a b : ℕ) → a < b → ltb a b ≡ true
lt→ltb a b h = ground arith

pub le→ltb : (a b : ℕ) → b ≤ a → ltb a b ≡ false
le→ltb a b h = ground arith

-- To split on a computed value and keep the equation.
pub Bool-cases : (b : Bool) → (b ≡ true) ⊎ (b ≡ false)
Bool-cases true = inl refl
Bool-cases false = inr refl

pub Option-cases {ℓ} : {A : Type ℓ} (o : Option A) → (o ≡ none) ⊎ ((a : A) × (o ≡ some a))
Option-cases none = inl refl
Option-cases (some a) = inr (a, refl)

-- A pointer that is not nil.
abbrev pub is_some {ℓ} : {A : Type ℓ} → Option A → Bool
is_some none = false
is_some (some a) = true

pub or₃-eq-true : (a b c : Bool) → (a || b || c) ≡ true → (a ≡ true) ⊎ ((b ≡ true) ⊎ (c ≡ true))
or₃-eq-true a b c h = ground arith

-- A test that holds exactly when a statement does fails when the statement does.
pub false_of_not {ℓ} : {P : Type ℓ} (b : Bool) → (b ≡ true) ↔ P → ¬ P → b ≡ false
false_of_not true e n = absurd (n (e.0 refl))
false_of_not false e n = refl

pub not_of_false {ℓ} : {P : Type ℓ} (b : Bool) → (b ≡ true) ↔ P → b ≡ false → ¬ P
not_of_false b e f p = false≢true (sym f ∙ e.1 p)

-- What holds of both branches holds of the conditional.
pub if_ind {ℓ κ} :
    {A : Type ℓ} (P : A → Type κ) (test : Bool) {left right : A}
    → P left
    → P right
    → P (if test then left else right)
if_ind P false on_left on_right = on_right
if_ind P true on_left on_right = on_left

pub or-cases : (a b : Bool) → (a || b) ≡ true → (a ≡ true) ⊎ (b ≡ true)
or-cases true b h = inl refl
or-cases false b h = inr h

-- Success under a test that fails otherwise, or before.
pub if_then_inr {ℓ κ} :
    {E : Type ℓ} {A : Type κ} (b : Bool) (e : E) {z : E ⊎ A} {y : A}
    → (if b then z else inl e) ≡ inr y
    → (b ≡ true) × (z ≡ inr y)
if_then_inr true e h = (refl, h)
if_then_inr false e h = absurd cc

pub if_else_inr {ℓ κ} :
    {E : Type ℓ} {A : Type κ} (b : Bool) (e : E) {z : E ⊎ A} {y : A}
    → (if b then inl e else z) ≡ inr y
    → (b ≡ false) × (z ≡ inr y)
if_else_inr false e h = (refl, h)
if_else_inr true e h = absurd cc

-- The branch that gave a result.
pub if_cases {ℓ} :
    {A : Type ℓ} (b : Bool) {x y z : A}
    → (if b then x else y) ≡ z
    → ((b ≡ true) × (x ≡ z)) ⊎ ((b ≡ false) × (y ≡ z))
if_cases true h = inl (refl, h)
if_cases false h = inr (refl, h)
