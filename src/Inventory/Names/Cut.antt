-- ===== src/Inventory/Names/Cut.antt =====
-- pkg/inventory/wiz/helpers.go: the service that `extractServiceFromName` reads out of a name.
use Prim.Native.Char.{Char}
use Prim.Native.String
use text.Mathlib.TextLemmas.{append_assoc, cons-append}
use version_guard.Base.{
  ℕ, zero, suc, ◌≤◌, ◌<◌, if_ind, ◌≡◌, refl, sym, ap, ◌∙◌, subst, String, true, false, ◌&&◌, List,
  [], ◌∷◌, ◌++◌, All, length, take, drop, eqb, arith, Bool-cases, split, join, join-split, hyphen,
  is_empty, inl, inr,
}
use version_guard.Inventory.Names.{is_suffix, end_index, extract_service_from_name}

module _ (lower : Char → Char) where
  abbrev pub IsSuffix : String → Type 0
  IsSuffix part = is_suffix lower part ≡ true

  -- The last part is there, and is no suffix.
  abbrev pub EndsPlain : List String → Type 0
  EndsPlain [] = ⊥
  EndsPlain (part ∷ []) = is_suffix lower part ≡ false
  EndsPlain (part ∷ next ∷ parts) = EndsPlain (next ∷ parts)

  EndsPlain-cons :
      (part : String) (parts : List String) → EndsPlain parts → EndsPlain (part ∷ parts)
  EndsPlain-cons part [] h = absurd h
  EndsPlain-cons part (next ∷ parts) h = h

  drop-end_index : (parts : List String) → All IsSuffix (drop (end_index lower parts) parts)
  unfolding end_index drop
  drop-end_index [] = tt
  drop-end_index (part ∷ parts) =
      let end = end_index lower parts in
      let later = drop-end_index parts in
      elim (Bool-cases (eqb end 0 && is_suffix lower part)) [
        | inl both ↦
            let none_left : end ≡ 0 = ground (arith, both) in
            rw both (ground (arith, both), subst (λ n. All IsSuffix (drop n parts)) none_left later)
        | inr stop ↦ rw stop later
      ]

  take-end_index :
      (parts : List String)
      → eqb (end_index lower parts) 0 ≡ false
      → EndsPlain (take (end_index lower parts) parts)
  unfolding end_index take
  take-end_index [] h = absurd cc
  take-end_index (part ∷ parts) h =
      let end = end_index lower parts in
      elim (Bool-cases (eqb end 0 && is_suffix lower part)) [
        | inl both ↦ absurd (ground (arith, both, h))
        | inr stop ↦ rw stop elim (Bool-cases (eqb end 0)) [
          | inl e ↦
              let none_left : end ≡ 0 = ground (arith, e) in
              subst (λ n. EndsPlain (part ∷ take n parts)) (sym none_left) (ground (arith, stop, e))
          | inr n ↦ EndsPlain-cons part (take end parts) (take-end_index parts n)
        ]
      ]

take-append-drop {ℓ} : {A : Type ℓ} (n : ℕ) (xs : List A) → take n xs ++ drop n xs ≡ xs
unfolding take drop
take-append-drop zero xs = refl
take-append-drop (suc n) [] = refl
take-append-drop (suc n) (x ∷ xs) = ap (◌∷◌ x) (take-append-drop n xs)

-- A list with an element.
abbrev HasFirst : List String → Type 0
HasFirst parts = is_empty parts ≡ false

join-append :
    (sep : Char) (front back : List String)
    → HasFirst front
    → HasFirst back
    → join sep (front ++ back) ≡ String.◌++◌ (join sep front) (String.◌∷◌ sep (join sep back))
unfolding join
join-append sep [] back h g = absurd cc
join-append sep (part ∷ []) [] h g = absurd cc
join-append sep (part ∷ []) (next ∷ back) h g = refl
join-append sep (part ∷ next ∷ front) back h g =
    let later = join-append sep (next ∷ front) back refl g in
    ap (λ s. String.◌++◌ part (String.◌∷◌ sep s)) later
    ∙ sym (
        append_assoc part (String.◌∷◌ sep (join sep (next ∷ front)))
          (String.◌∷◌ sep (join sep back))
        ∙ ap (String.◌++◌ part) (cons-append sep (join sep (next ∷ front)) _))

-- What the name of a resource tells of its service. The parts of the name stand between hyphens; an
-- environment or a kind of resource is a suffix.
pub data IsService (lower : Char → Char) (name service : String) : Type 0 where
  only_suffixes :
      All (IsSuffix lower) (split hyphen name) → service ≡ name → IsService lower name service
  no_suffix : EndsPlain lower (split hyphen name) → service ≡ name → IsService lower name service
  cut :
      (front back : List String)
      → split hyphen name ≡ front ++ back
      → EndsPlain lower front
      → All (IsSuffix lower) back
      → service ≡ join hyphen front
      → name ≡ String.◌++◌ service (String.◌∷◌ hyphen (join hyphen back))
      → IsService lower name service

HasFirst-EndsPlain :
    (lower : Char → Char) (parts : List String) → EndsPlain lower parts → HasFirst parts
HasFirst-EndsPlain lower [] h = absurd h
HasFirst-EndsPlain lower (part ∷ parts) h = refl

take_all : (n : ℕ) (xs : List String) → n ≡ length xs → take n xs ≡ xs
unfolding take
take_all zero [] h = refl
take_all (suc n) [] h = refl
take_all zero (x ∷ xs) h = absurd (omega arith)
take_all (suc n) (x ∷ xs) h = ap (◌∷◌ x) (take_all n xs (omega arith))

drop-HasFirst : (n : ℕ) (xs : List String) → n < length xs → HasFirst (drop n xs)
unfolding drop
drop-HasFirst zero [] h = absurd (omega arith)
drop-HasFirst (suc n) [] h = absurd (omega arith)
drop-HasFirst zero (x ∷ xs) h = refl
drop-HasFirst (suc n) (x ∷ xs) h = drop-HasFirst n xs (omega arith)

end_index-le : (lower : Char → Char) (parts : List String) → end_index lower parts ≤ length parts
unfolding end_index
end_index-le lower [] = omega arith
end_index-le lower (part ∷ parts) =
    let later = end_index-le lower parts in
    if_ind (λ n. n ≤ suc (length parts)) (eqb (end_index lower parts) 0 && is_suffix lower part)
      (omega arith) (omega arith)

cut_name :
    (name : String) (front back : List String)
    → front ++ back ≡ split hyphen name
    → HasFirst front
    → HasFirst back
    → name ≡ String.◌++◌ (join hyphen front) (String.◌∷◌ hyphen (join hyphen back))
cut_name name front back parts h g =
    sym (join-split hyphen name)
    ∙ (ap (join hyphen) (sym parts) ∙ join-append hyphen front back h g)

-- The service is the name itself when all of its parts are suffixes or the last one is none. Else the
-- name ends in a hyphen and a row of suffixes, and the service is what stands before them, up to the
-- last part that is no suffix.
pub extract_service_from_name-IsService :
    (lower : Char → Char) (name : String)
    → IsService lower name (extract_service_from_name lower name)
unfolding extract_service_from_name drop
extract_service_from_name-IsService lower name =
    let parts = split hyphen name in
    let end = end_index lower parts in
    let front = take end parts in
    let back = drop end parts in
    let behind = drop-end_index lower parts in
    elim (Bool-cases (eqb end 0)) [
      | inl none_left ↦
          let zero_left : end ≡ 0 = ground (arith, none_left) in
          rw none_left
            (only_suffixes (subst (λ n. All (IsSuffix lower) (drop n parts)) zero_left behind) refl)
      | inr some_left ↦
          let plain = take-end_index lower parts some_left in
          elim (Bool-cases (eqb end (length parts))) [
            | inl all_left ↦
                let same : end ≡ length parts = ground (arith, all_left) in
                rw (some_left, all_left)
                  (no_suffix (subst (EndsPlain lower) (take_all end parts same) plain) refl)
            | inr fewer ↦
                let less : end < length parts = ground (arith, fewer, end_index-le lower parts) in
                rw (some_left, fewer)
                  (cut front back (sym (take-append-drop end parts)) plain behind refl (
                    cut_name name front back (take-append-drop end parts)
                      (HasFirst-EndsPlain lower front plain) (drop-HasFirst end parts less)))
          ]
    ]
