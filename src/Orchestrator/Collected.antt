-- ===== src/Orchestrator/Collected.antt =====
-- pkg/workflow/orchestrator/workflow.go: the types that the loop over the results collects.
use version_guard.Base.{
  ◌≡◌, refl, Bool, true, false, ◌||◌, List, [], ◌∷◌, ◌++◌, ◌⊎◌, inl, inr, ◌↔◌, any, is_empty, All,
  arith, if◌then◌else◌, ◌==◌, eq_iff, Bool-cases, Map, insert, subst,
}
use version_guard.Types.{ResourceType}
use version_guard.Orchestrator.Completeness.{IsIn}
use version_guard.Orchestrator.Workflow.{
  ResourceTypeResult, ChildOutcome, succeeded, collect, result_of,
}

any-append :
    (p : ResourceType → Bool) (xs ys : List ResourceType)
    → any p (xs ++ ys) ≡ (any p xs || any p ys)
any-append p [] ys = refl
any-append p (x ∷ xs) ys = ground (arith, any-append p xs ys)

one_more :
    (outcome : ResourceType → ChildOutcome) (successful : List ResourceType) (k t : ResourceType)
    → IsIn (if succeeded (outcome k) then successful ++ k ∷ [] else successful) t
      ⊎ (succeeded (outcome t) ≡ true)
    → IsIn successful t ⊎ (succeeded (outcome t) ≡ true)
one_more outcome successful k t (inr h) = inr h
one_more outcome successful k t (inl h) = elim (Bool-cases (succeeded (outcome k))) [
  | inr e ↦ inl (subst (λ b. IsIn (if b then successful ++ k ∷ [] else successful) t) e h)
  | inl e ↦ elim (Bool-cases (k == t)) [
    | inl same ↦ inr (subst (λ j. succeeded (outcome j) ≡ true) ((eq_iff k t).0 same) e)
    | inr other ↦ inl (
        ground (
          arith,
          any-append (λ p. p == t) successful (k ∷ []),
          subst (λ b. IsIn (if b then successful ++ k ∷ [] else successful) t) e h,
        ))
  ]
]

-- The types that the loop collects are those collected before and those whose child succeeded.
collected-IsIn :
    (outcome : ResourceType → ChildOutcome) (types : List ResourceType)
    (results : Map ResourceTypeResult) (successful : List ResourceType) (t : ResourceType)
    → IsIn (collect outcome types results successful).1 t
    → IsIn successful t ⊎ (succeeded (outcome t) ≡ true)
unfolding collect
collected-IsIn outcome [] results successful t h = inl h
collected-IsIn outcome (k ∷ types) results successful t h =
    one_more outcome successful k t
      (collected-IsIn outcome types (insert k (result_of k (outcome k)) results) _ t h)

is_empty-if :
    (b : Bool) (types : List ResourceType) (k : ResourceType)
    → (is_empty (if b then types ++ k ∷ [] else types) ≡ true)
      ↔ ((is_empty types ≡ true) × (b ≡ false))
is_empty-if true [] k = (λ h. absurd cc, λ (h, e). absurd cc)
is_empty-if true (t ∷ types) k = (λ h. absurd cc, λ (h, e). absurd cc)
is_empty-if false types k = (λ h. (h, refl), λ (h, e). h)

pub collected-empty :
    (outcome : ResourceType → ChildOutcome) (types : List ResourceType)
    (results : Map ResourceTypeResult) (successful : List ResourceType)
    → (is_empty (collect outcome types results successful).1 ≡ true)
      ↔ ((is_empty successful ≡ true) × All (λ t. succeeded (outcome t) ≡ false) types)
unfolding collect
collected-empty outcome [] results successful = (λ h. (h, tt), λ (h, _). h)
collected-empty outcome (k ∷ types) results successful =
    let one = is_empty-if (succeeded (outcome k)) successful k in
    let rest = collected-empty outcome types (insert k (result_of k (outcome k)) results) _ in
    (
      λ h. let e = one.0 (rest.0 h).0 in (e.0, (e.1, (rest.0 h).1)),
      λ (x, (y, z)). rest.1 (one.1 (x, y), z),
    )

-- A type that is validated and complete was collected, so its child succeeded.
pub All-succeeded :
    (outcome : ResourceType → ChildOutcome) (types expected : List ResourceType)
    → All (IsIn (collect outcome types [] []).1) expected
    → All (λ t. succeeded (outcome t) ≡ true) expected
All-succeeded outcome types [] h = tt
All-succeeded outcome types (t ∷ expected) (m, h) = (
  elim (collected-IsIn outcome types [] [] t m) [ inl n ↦ absurd cc | inr s ↦ s ],
  All-succeeded outcome types expected h,
)
