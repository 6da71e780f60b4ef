-- ===== src/Inventory/Source/Patterns.antt =====
-- pkg/inventory/wiz/generic.go: the native types that a pattern accepts.
use mathlib.Core.List.{Memᴰ}
use version_guard.Base.{
  ◌≡◌, refl, ◌⊎◌, ◌↔◌, inl, inr, String, true, false, ◌==◌, eq_iff, List, [], ◌∷◌, any, contains,
  split, bar, slash, arith, if_cases, or-cases, sym, subst,
}
use version_guard.Inventory.Source.{segments_match, matches_native_type}

-- As many segments as the pattern has, each equal to its part or facing a star.
pub data Fits : List String → List String → Type 0 where
  done : Fits [] []
  star :
      {parts segments : List String} (segment : String)
      → Fits parts segments
      → Fits ("*" ∷ parts) (segment ∷ segments)
  same :
      {parts segments : List String} (part : String)
      → Fits parts segments
      → Fits (part ∷ parts) (part ∷ segments)

Fits-cons :
    (part segment : String) (parts segments : List String)
    → (part ≡ "*") ⊎ (part ≡ segment)
    → Fits parts segments
    → Fits (part ∷ parts) (segment ∷ segments)
Fits-cons part segment parts segments (inl e) f =
    subst (λ p. Fits (p ∷ parts) (segment ∷ segments)) (sym e) (star segment f)
Fits-cons part segment parts segments (inr e) f =
    subst (λ s. Fits (part ∷ parts) (s ∷ segments)) e (same part f)

segments_match-Fits :
    (parts segments : List String) → segments_match parts segments ≡ true → Fits parts segments
unfolding segments_match
segments_match-Fits [] [] h = done
segments_match-Fits (part ∷ parts) (segment ∷ segments) h =
    Fits-cons part segment parts segments (ground (arith, h, eq_iff part "*", eq_iff part segment))
      (segments_match-Fits parts segments (ground (arith, h)))
segments_match-Fits [] (segment ∷ segments) h = absurd cc
segments_match-Fits (part ∷ parts) [] h = absurd cc

Fits-segments_match :
    {parts segments : List String} → Fits parts segments → segments_match parts segments ≡ true
unfolding segments_match
Fits-segments_match done = refl
Fits-segments_match (star segment f) = Fits-segments_match f
Fits-segments_match (same {parts} {segments} part f) =
    ground (arith, Fits-segments_match f, eq_iff part part)

any-Memᴰ :
    (t : String) (alternatives : List String)
    → any (λ a. t == a) alternatives ≡ true
    → Memᴰ t alternatives
any-Memᴰ t [] h = absurd cc
any-Memᴰ t (a ∷ alternatives) h = elim (or-cases (t == a) (any (λ b. t == b) alternatives) h) [
  | inl e ↦ Memᴰ.head ((eq_iff t a).0 e)
  | inr e ↦ Memᴰ.tail (any-Memᴰ t alternatives e)
]

Memᴰ-any :
    {t : String} {alternatives : List String}
    → Memᴰ t alternatives
    → any (λ a. t == a) alternatives ≡ true
Memᴰ-any {t} (Memᴰ.head {x = a} e) = rw ((eq_iff t a).1 e) refl
Memᴰ-any (Memᴰ.tail m) = ground (arith, Memᴰ-any m)

-- The native types that a pattern stands for. With a bar it lists them, and a star in it is then no
-- wildcard; without one, a star stands for any segment between two slashes.
pub data Accepts (pattern native_type : String) : Type 0 where
  listed :
      contains pattern "|" ≡ true
      → Memᴰ native_type (split bar pattern)
      → Accepts pattern native_type
  fitting :
      contains pattern "|" ≡ false
      → contains pattern "*" ≡ true
      → Fits (split slash pattern) (split slash native_type)
      → Accepts pattern native_type
  exact :
      contains pattern "|" ≡ false
      → contains pattern "*" ≡ false
      → native_type ≡ pattern
      → Accepts pattern native_type

accepted :
    {pattern native_type : String}
    → Accepts pattern native_type
    → matches_native_type pattern native_type ≡ true
unfolding matches_native_type
accepted (listed b m) = rw b (Memᴰ-any m)
accepted (fitting b s f) = rw (b, s) (Fits-segments_match f)
accepted {pattern} {native_type} (exact b s e) = rw (b, s) ((eq_iff native_type pattern).1 e)

-- The filter accepts a native type exactly when the pattern stands for it.
pub matches_native_type_iff :
    (pattern native_type : String)
    → (matches_native_type pattern native_type ≡ true) ↔ Accepts pattern native_type
unfolding matches_native_type
matches_native_type_iff pattern native_type = (
  λ h. elim (if_cases (contains pattern "|") h) [
    | inl p ↦ listed p.0 (any-Memᴰ native_type (split bar pattern) p.1)
    | inr p ↦ elim (if_cases (contains pattern "*") p.1) [
      | inl q ↦ fitting p.0 q.0 (segments_match-Fits _ _ q.1)
      | inr q ↦ exact p.0 q.0 ((eq_iff native_type pattern).0 q.1)
    ]
  ],
  accepted,
)
