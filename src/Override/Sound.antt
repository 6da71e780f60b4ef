-- ===== src/Override/Sound.antt =====
-- deploy/endoflife-override/manifest.go: the manifests that are accepted.
use mathlib.Core.Sum.{inl-ne-inr}
use text.Mathlib.Text.{starts_with}
use version_guard.Base.{
  ℕ, suc, ◌+◌, ◌-◌, ◌≤◌, ◌≡◌, refl, ap, subst, String, Bool, true, false, not, ◌||◌, ◌==◌, eq_iff,
  if◌then◌else◌, Option, none, some, List, [], ◌∷◌, any, All, ltb, arith, ◌⊎◌, inl, inr,
  if_else_inr, if_then_inr, inr-injective, is_some, trim_prefix,
}
use version_guard.Types.{Time}
use version_guard.EndOfLife.Validation.{validate_product_cycle}
use version_guard.EndOfLife.Client.{body_error, entries}
use version_guard.Override.Paths.{clean, trim_suffix}
use version_guard.Override.{
  ManifestOverride, Manifest, FileInfo, symlink, directory, regular, irregular, Body, Root,
  OverrideError, ManifestError, maximum_review_interval, parse_manifest_date, review_between,
  check_file, check_path, with_review, validate_override, followed_by, validate_overrides,
  has_entry, check_listing, check_directory, check_manifest, validate_manifest, is_https, not_https,
  invalid_url,
}

-- The dates of a review that lasts not more than thirty days.
pub record IsReview (a b : Option Time) (due : Time) : Type 0 where
  pub reviewed : Time
  pub begins : a ≡ some reviewed
  pub ends : b ≡ some due
  pub in_order : reviewed ≤ due
  pub in_time : due ≤ reviewed + maximum_review_interval

review_between-IsReview :
    (a b : Option Time) (due : Time) → review_between a b ≡ inr due → IsReview a b due
review_between-IsReview none b due h = absurd (inl-ne-inr h)
review_between-IsReview (some a) none due h = absurd (inl-ne-inr h)
review_between-IsReview (some a) (some b) due h =
    let p = if_else_inr (ltb b a) _ h in
    let q = if_else_inr (ltb maximum_review_interval (b - a)) _ p.1 in
    record {
      reviewed = a;
      begins = refl;
      ends = ap some (inr-injective _ _ q.1);
      in_order = subst (λ t. a ≤ t) (inr-injective _ _ q.1) (ground (arith, p.0));
      in_time =
          subst (λ t. t ≤ a + maximum_review_interval) (inr-injective _ _ q.1)
            (ground (arith, p.0, q.0));
    }

-- A list of cycles that are all valid, and nothing behind it.
abbrev pub IsValidBody : Root → Body → Type 0
IsValidBody root body =
    (body_error body.decoded.fails body.decoded.cycles body.trailer ≡ none)
    × All (λ c. validate_product_cycle root.format_date c ≡ none) (entries body.decoded.cycles)

is_some-false {ℓ} : {A : Type ℓ} (o : Option A) → is_some o ≡ false → o ≡ none
is_some-false none h = refl
is_some-false (some a) h = absurd cc

if_else_none {ℓ} :
    {A : Type ℓ} (b : Bool) (e : A) {z : Option A}
    → (if b then some e else z) ≡ none
    → (b ≡ false) × (z ≡ none)
if_else_none true e h = absurd cc
if_else_none false e h = (refl, h)

or-false : (a b : Bool) → (a || b) ≡ false → (a ≡ false) × (b ≡ false)
or-false false b h = (refl, h)
or-false true b h = absurd cc

any-false {ℓ κ} :
    {A : Type ℓ} {P : A → Type κ} (test : A → Bool)
    → ((x : A) → test x ≡ false → P x)
    → (xs : List A) → any test xs ≡ false
    → All P xs
any-false test f [] h = tt
any-false test f (x ∷ xs) h = let p = or-false (test x) _ h in (f x p.0, any-false test f xs p.1)

-- The file is a regular one, and its content is valid.
abbrev IsValidFile : Root → Option FileInfo → Option Body → Type 0
IsValidFile root info o =
    (info ≡ some regular) × (body : Body) × (o ≡ some body) × IsValidBody root body

check_file-IsValidFile :
    (root : Root) (info : Option FileInfo) (o : Option Body)
    → check_file root info o ≡ none
    → IsValidFile root info o
check_file-IsValidFile root none o h = absurd cc
check_file-IsValidFile root (some symlink) o h = absurd cc
check_file-IsValidFile root (some directory) o h = absurd cc
check_file-IsValidFile root (some irregular) o h = absurd cc
check_file-IsValidFile root (some regular) none h = absurd cc
check_file-IsValidFile root (some regular) (some body) h =
    let p = if_else_none _ _ h in
    let q = or-false (is_some (body_error _ _ body.trailer)) _ p.0 in
    (
      refl,
      body,
      refl,
      (
        is_some-false _ q.0,
        any-false (λ c. is_some (validate_product_cycle root.format_date c))
            (λ c. is_some-false (validate_product_cycle root.format_date c))
            (entries body.decoded.cycles) q.1,
      ),
    )

-- The name of the file, behind "api/" and before ".json", is the product.
abbrev pub IsNamed : ManifestOverride → Type 0
IsNamed o = trim_suffix (trim_prefix o.path "api/") ".json" ≡ o.product

first-false : (a b c d e f : Bool) → (a || b || c || d || e || f) ≡ false → a ≡ false
first-false a b c d e f h = ground arith

not-false : (b : Bool) → not b ≡ false → b ≡ true
not-false true h = refl
not-false false h = absurd cc

check_path-IsValidFile :
    (root : Root) (o : ManifestOverride)
    → check_path root o ≡ none
    → IsNamed o × IsValidFile root (root.stat o.path) (root.read o.path)
unfolding check_path
check_path-IsValidFile root o h =
    let p = if_else_none _ _ h in
    let q = if_else_none (not (trim_suffix _ ".json" == o.product)) _ p.1 in
    let same = (eq_iff _ _).0 (not-false (clean o.path == o.path) (first-false _ _ _ _ _ _ p.0)) in
    (
      subst (λ path. trim_suffix (trim_prefix path "api/") ".json" ≡ o.product) same
          ((eq_iff _ _).0 (not-false _ q.0)),
      subst (λ path. IsValidFile root (root.stat path) (root.read path)) same
          (check_file-IsValidFile root _ _ q.1),
    )

with_review-inr :
    (o : ManifestOverride) (now : Time) (r : OverrideError ⊎ Time) (e : Option OverrideError)
    (warnings : List (String × String))
    → with_review o now r e ≡ inr warnings
    → ((due : Time) × (r ≡ inr due)) × (e ≡ none)
with_review-inr o now (inl x) e warnings h = absurd (inl-ne-inr h)
with_review-inr o now (inr due) (some x) warnings h = absurd (inl-ne-inr h)
with_review-inr o now (inr due) none warnings h = ((due, refl), refl)

-- An override that is accepted.
abbrev pub IsReviewed : Root → ManifestOverride → Type 0
IsReviewed root o =
    ((due : Time) × IsReview (parse_manifest_date root o.reviewed_on)
        (parse_manifest_date root o.review_due_on) due)
    × IsNamed o
    × IsValidFile root (root.stat o.path) (root.read o.path)

abbrev IsAccepted : Root → List String → List String → ManifestOverride → Type 0
IsAccepted root products paths o =
    (any (λ p. p == o.product) products ≡ false)
    × (any (λ p. p == o.path) paths ≡ false)
    × IsReviewed root o

validate_override-IsAccepted :
    (root : Root) (now : Time) (products paths : List String) (o : ManifestOverride)
    (warnings : List (String × String))
    → validate_override root now products paths o ≡ inr warnings
    → IsAccepted root products paths o
unfolding validate_override
validate_override-IsAccepted root now products paths o warnings h =
    let p = if_else_inr _ _ h in
    let q = if_else_inr _ _ p.1 in
    let r = if_else_inr _ _ q.1 in
    let s = if_else_inr (not (starts_with o.source_url "https://")) not_https r.1 in
    let t = if_else_inr (not (is_https (root.parse_url o.source_url))) invalid_url s.1 in
    let ((due, reviewed), checked) = with_review-inr o now _ _ warnings t.1 in
    let file = check_path-IsValidFile root o checked in
    (q.0, r.0, ((due, review_between-IsReview _ _ due reviewed), file.0, file.1))

-- No override has the key of an earlier one, nor one of these.
abbrev pub IsNew : (ManifestOverride → String) → List String → List ManifestOverride → Type 0
IsNew key seen [] = Unit
IsNew key seen (o ∷ rest) = (any (λ k. k == key o) seen ≡ false) × IsNew key (key o ∷ seen) rest

followed_by-inr :
    (i : ℕ) (a : OverrideError ⊎ List (String × String))
    (b : ManifestError ⊎ List (String × String)) (warnings : List (String × String))
    → followed_by i a b ≡ inr warnings
    → ((v : _) × (a ≡ inr v)) × ((v : _) × (b ≡ inr v))
followed_by-inr i (inl e) b warnings h = absurd (inl-ne-inr h)
followed_by-inr i (inr v) (inl e) warnings h = absurd (inl-ne-inr h)
followed_by-inr i (inr v) (inr w) warnings h = ((v, refl), (w, refl))

validate_overrides-IsReviewed :
    (root : Root) (now : Time) (i : ℕ) (products paths : List String) (os : List ManifestOverride)
    (warnings : List (String × String))
    → validate_overrides root now i products paths os ≡ inr warnings
    → All (IsReviewed root) os × IsNew (λ o. o.product) products os × IsNew (λ o. o.path) paths os
unfolding validate_overrides
validate_overrides-IsReviewed root now i products paths [] warnings h = (tt, tt, tt)
validate_overrides-IsReviewed root now i products paths (o ∷ os) warnings h =
    let ((v, first), (w, later)) = followed_by-inr i _ _ warnings h in
    let p = validate_override-IsAccepted root now products paths o v first in
    let q = validate_overrides-IsReviewed root now (suc i) _ _ os w later in
    ((p.2, q.0), (p.0, q.1), (p.1, q.2))

-- What an accepted directory is: the manifest, whose overrides are reviewed, with each product and
-- each path once, and the API files, each with an override.
pub record IsSound (root : Root) : Type 0 where
  pub m : Manifest
  pub files : List String
  pub reads : root.manifest ≡ some m
  pub lists : root.api_files ≡ some files
  pub all_reviewed : All (IsReviewed root) m.overrides
  pub products : IsNew (λ o. o.product) [] m.overrides
  pub paths : IsNew (λ o. o.path) [] m.overrides
  pub all_listed : All (λ file. has_entry m file ≡ true) files

check_directory-inr :
    (info : Option FileInfo) (rest : ManifestError ⊎ List (String × String))
    (warnings : List (String × String))
    → check_directory info rest ≡ inr warnings
    → rest ≡ inr warnings
check_directory-inr none rest warnings h = absurd (inl-ne-inr h)
check_directory-inr (some symlink) rest warnings h = absurd (inl-ne-inr h)
check_directory-inr (some regular) rest warnings h = absurd (inl-ne-inr h)
check_directory-inr (some irregular) rest warnings h = absurd (inl-ne-inr h)
check_directory-inr (some directory) rest warnings h = h

check_listing-inr :
    (m : Manifest) (o : Option (List String)) (rest : ManifestError ⊎ List (String × String))
    (warnings : List (String × String))
    → check_listing m o rest ≡ inr warnings
    → ((w : _) × (rest ≡ inr w))
      × ((files : List String) × (o ≡ some files) × All (λ file. has_entry m file ≡ true) files)
check_listing-inr m o (inl e) warnings h = absurd (inl-ne-inr h)
check_listing-inr m none (inr w) warnings h = absurd (inl-ne-inr h)
check_listing-inr m (some files) (inr w) warnings h = (
  (w, refl),
  (
    files,
    refl,
    any-false (λ file. not (has_entry m file)) (λ file. not-false (has_entry m file)) files
        (if_else_inr _ _ h).0,
  ),
)

check_manifest-IsSound :
    (root : Root) (now : Time) (o : Option Manifest) (warnings : List (String × String))
    → root.manifest ≡ o
    → check_manifest root now o ≡ inr warnings
    → IsSound root
check_manifest-IsSound root now none warnings e h = absurd (inl-ne-inr h)
check_manifest-IsSound root now (some m) warnings e h =
    let inside = check_directory-inr _ _ warnings (if_then_inr _ _ h).1 in
    let ((w, loop), (files, lists, listed)) = check_listing-inr m _ _ warnings inside in
    let p = validate_overrides-IsReviewed root now 0 [] [] m.overrides w loop in
    record {
      m = m;
      files = files;
      reads = e;
      lists = lists;
      all_reviewed = p.0;
      products = p.1;
      paths = p.2;
      all_listed = listed;
    }

-- When the validation of the overrides succeeds, with warnings or without, each override of the
-- manifest names the file of its product, a regular file of valid cycles, and its review ends not
-- before it begins and at most thirty days later; no product and no path stands twice; and each API
-- file has an override.
pub validate_manifest-IsSound :
    (root : Root) (now : Time) (warnings : List (String × String))
    → validate_manifest root now ≡ inr warnings
    → IsSound root
unfolding validate_manifest
validate_manifest-IsSound root now warnings h =
    check_manifest-IsSound root now root.manifest warnings refl h
