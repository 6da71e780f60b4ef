-- ===== src/Inventory/Tags/Braces.antt =====
-- pkg/inventory/wiz/client.go: `splitTags` on texts without braces, and on one object.
use Prim.Native.Char.{Char}
use mathlib.Core.List.{append_assoc, append-nil}
use version_guard.Base.{
  ◌≡◌, refl, ap, ◌∙◌, Bool, true, false, not, ◌&&◌, List, [], ◌∷◌, ◌++◌, All, arith,
}
use version_guard.Types.Elapsed.{pos}
use version_guard.Inventory.Tags.{Chars, same, open_brace, close_brace, Scan, passed, step, scan}
use version_guard.Inventory.Tags.Scanned.{IsPlain}

abbrev pub IsBraceFree : Char → Type 0
IsBraceFree c = (same c open_brace ≡ false) × (same c close_brace ≡ false)

abbrev brace_free : Char → Bool
brace_free c = not (same c open_brace) && not (same c close_brace)

abbrev all_brace_free : Chars → Bool
all_brace_free [] = true
all_brace_free (c ∷ s) = brace_free c && all_brace_free s

pub All-IsBraceFree : (s : Chars) → all_brace_free s ≡ true → All IsBraceFree s
All-IsBraceFree [] h = tt
All-IsBraceFree (c ∷ s) h = ground (arith, All-IsBraceFree s)

pub append-IsBraceFree :
    (s t : Chars) → All IsBraceFree s → All IsBraceFree t → All IsBraceFree (s ++ t)
append-IsBraceFree [] t h g = g
append-IsBraceFree (c ∷ s) t h g = (h.0, append-IsBraceFree s t h.1 g)

pub IsPlain-IsBraceFree : (s : Chars) → All IsPlain s → All IsBraceFree s
IsPlain-IsBraceFree [] h = tt
IsPlain-IsBraceFree (c ∷ s) h = ((h.0.1, h.0.2), IsPlain-IsBraceFree s h.1)

step-brace_free : (c : Char) (s : Scan) → IsBraceFree c → step c s ≡ passed c s
step-brace_free c s h = rw (h.0, h.1) refl

-- Without a brace the loop only goes on.
pub scan-brace_free :
    (s : Scan) (text rest : Chars)
    → All IsBraceFree text
    → scan s (text ++ rest) ≡ scan (record s { current = s.current ++ text }) rest
unfolding scan
scan-brace_free s [] rest h = rw (append-nil s.current) refl
scan-brace_free s (c ∷ text) rest h =
    ap (λ z. scan z (text ++ rest)) (step-brace_free c s h.0)
    ∙ (scan-brace_free (passed c s) text rest h.1 ∙ rw (append_assoc s.current (c ∷ []) text) refl)

pub scan-braced :
    (b x rest : Chars) (tags : List Chars)
    → All IsBraceFree b
    → scan
        (record { depth = pos 0; current = x; tags = tags })
        (open_brace ∷ (b ++ close_brace ∷ rest))
      ≡ scan
          (record {
            depth = pos 0;
            current = open_brace ∷ b ++ close_brace ∷ [];
            tags = tags ++ (open_brace ∷ b ++ close_brace ∷ []) ∷ [];
          })
          rest
unfolding scan
scan-braced b x rest tags h =
    scan-brace_free (record { depth = pos 1; current = open_brace ∷ []; tags = tags }) b
      (close_brace ∷ rest) h
