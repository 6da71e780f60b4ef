-- ===== src/EndOfLife/Client/Answered.antt =====
-- pkg/eol/endoflife/client.go, provider.go: what the answers of the API do to a lookup.
use Prim.Native.Char.{Char}
use version_guard.Base.{
  ℕ, ◌≡◌, refl, ◌∙◌, sym, ap, subst, String, Bool, true, false, Option, none, some, Option-cases,
  arith, ◌⊎◌, inl, inr, ◌↔◌, is_some, eqb, List, trim_space, to_lower, if◌then◌else◌,
  some-injective,
}
use version_guard.Types.{Time, LifecycleDataSource}
use version_guard.EndOfLife.{ProductCycle}
use version_guard.EndOfLife.Provider.{
  World, State, Readings, CachedVersions, FetchError, Answer, entry_of, is_fresh, fetch_versions,
  load_versions, answer_from, answer_case, get_version_lifecycle,
}
use version_guard.EndOfLife.Client.{
  Trailer, end_of_input, another_value, malformed, Response, body_error, response_error,
  get_product_cycles,
}

-- A list of cycles, and nothing behind it.
abbrev pub IsDocument : Response → Type 0
IsDocument r =
    (r.decoded.fails ≡ false) × (is_some r.decoded.cycles ≡ true) × (r.trailer ≡ end_of_input)

-- An answer that is no failure: the product's cycles, or that the product is not known.
abbrev pub IsUsable : Option Response → Type 0
IsUsable o = (r : Response) × (o ≡ some r) × (((r.status ≡ 200) × IsDocument r) ⊎ (r.status ≡ 404))

body_error_iff :
    (fails : Bool) (cycles : Option (List (Option ProductCycle))) (trailer : Trailer)
    → (body_error fails cycles trailer ≡ none)
      ↔ ((fails ≡ false) × (is_some cycles ≡ true) × (trailer ≡ end_of_input))
body_error_iff true cycles trailer = (λ h. absurd cc, λ h. absurd cc)
body_error_iff false none trailer = (λ h. absurd cc, λ h. absurd cc)
body_error_iff false (some c) end_of_input = (λ h. (refl, refl, refl), λ h. refl)
body_error_iff false (some c) another_value = (λ h. absurd cc, λ h. absurd cc)
body_error_iff false (some c) malformed = (λ h. absurd cc, λ h. absurd cc)

-- The error that fails a lookup.
abbrev Survives : Option FetchError → Type 0
Survives e = (e ≡ none) ⊎ (e ≡ some FetchError.product_not_found)

body_error-Survives :
    (fails : Bool) (cycles : Option (List (Option ProductCycle))) (trailer : Trailer)
    → Survives (body_error fails cycles trailer)
    → body_error fails cycles trailer ≡ none
body_error-Survives true cycles trailer (inr h) = absurd cc
body_error-Survives false none trailer (inr h) = absurd cc
body_error-Survives false (some c) end_of_input (inr h) = absurd cc
body_error-Survives false (some c) another_value (inr h) = absurd cc
body_error-Survives false (some c) malformed (inr h) = absurd cc
body_error-Survives fails cycles trailer (inl h) = h

status_cases :
    (ok missing : Bool) (e : Option FetchError)
    → Survives (
        if ok
        then e
        else if missing
        then some FetchError.product_not_found
        else some FetchError.failed)
    → ((ok ≡ true) × Survives e) ⊎ (missing ≡ true)
status_cases true missing e h = inl (refl, h)
status_cases false true e h = inr refl
status_cases false false e (inl h) = absurd cc
status_cases false false e (inr h) = absurd cc

abbrev chosen : Option FetchError → ℕ → Option FetchError
chosen e status =
    if eqb status 200
    then e
    else if eqb status 404
    then some FetchError.product_not_found
    else some FetchError.failed

response_error_iff :
    (r : Response)
    → Survives (response_error r) ↔ (((r.status ≡ 200) × IsDocument r) ⊎ (r.status ≡ 404))
unfolding response_error
response_error_iff r = (
  λ h. elim (status_cases (eqb r.status 200) (eqb r.status 404) _ h) [
    | inl p ↦ inl (ground (arith, p.0), (body_error_iff _ _ _).0 (body_error-Survives _ _ _ p.1))
    | inr p ↦ inr (ground (arith, p))
  ],
  λ h. elim h [
    | inl p ↦ inl (ap (chosen _) p.0 ∙ (body_error_iff _ _ _).1 p.1)
    | inr p ↦ inr (ap (chosen (body_error r.decoded.fails r.decoded.cycles r.trailer)) p)
  ],
)

-- A missing answer is a failure.
answered_iff :
    (default : LifecycleDataSource) (lower : Char → Char) (now : Time) (o : Option Response)
    → Survives (get_product_cycles default lower now o).error ↔ IsUsable o
unfolding get_product_cycles
answered_iff default lower now none =
    (λ h. elim h [ inl e ↦ absurd cc | inr e ↦ absurd cc ], λ h. absurd cc)
answered_iff default lower now (some r) = (
  λ h. (r, refl, (response_error_iff r).0 h),
  λ h. (response_error_iff r).1 (
      subst (λ s. ((s.status ≡ 200) × IsDocument s) ⊎ (s.status ≡ 404))
        (sym (some-injective _ _ h.1)) h.2),
)

-- The entry of an answer has an error exactly when the answer is a failure.
entry_of_iff :
    (w : World) (engine : String) (now : Readings) (a : Answer)
    → ((entry_of w engine now a).0.fetch_err ≡ none) ↔ Survives a.error
unfolding entry_of
entry_of_iff w engine now a = elim (Option-cases a.error) [
  | inl e ↦ (λ h. inl e, λ h. rw e refl)
  | inr (FetchError.product_not_found, e) ↦ (λ h. inr e, λ h. rw e refl)
  | inr (FetchError.failed, e) ↦
      (λ h. absurd (ground arith), λ h. elim h [ inl f ↦ absurd cc | inr f ↦ absurd cc ])
]

answer_error :
    (engine version : String) (c : CachedVersions) → (answer_from engine version c).1 ≡ c.fetch_err
unfolding answer_from
answer_error engine version c = case_error c.fetch_err _
  where
    case_error : (f : Option FetchError) (found : _) → (answer_case engine version c f found).1 ≡ f
    case_error (some e) found = refl
    case_error none (some v) = refl
    case_error none none = refl

-- No entry of the cache is fresh.
abbrev pub IsStale : World → String → Readings → State → Type 0
IsStale w engine now s =
    (c : CachedVersions) → s.cache ≡ some c → is_fresh w (to_lower w.lower engine) now c ≡ false

load_versions_stale :
    (w : World) (engine : String) (now : Readings) (s : State)
    → ((c : CachedVersions) → s.cache ≡ some c → is_fresh w engine now c ≡ false)
    → (load_versions w engine now s).0 ≡ (entry_of w engine now (w.client s.calls)).0
unfolding load_versions fetch_versions
load_versions_stale w engine now s h = elim (Option-cases s.cache) [
  | inl e ↦ rw e refl
  | inr (c, e) ↦ rw (e, h c e) refl
]

-- The provider with this client, by the responses to its requests.
abbrev pub connected : World → LifecycleDataSource → (ℕ → Time) → (ℕ → Option Response) → World
connected w default clock responses = record w {
  client = λ n. get_product_cycles default w.lower (clock n) (responses n);
}

-- A lookup that no fresh entry serves succeeds exactly when the response to its request has status
-- 200 and is a list of cycles with nothing behind it, or has status 404.
pub get_version_lifecycle_succeeds_iff :
    (w : World) (default : LifecycleDataSource) (clock : ℕ → Time) (responses : ℕ → Option Response)
    (engine version : String) (now : Readings) (s : State)
    → IsStale (connected w default clock responses) engine now s
    → ((get_version_lifecycle (connected w default clock responses) engine version now s).1 ≡ none)
      ↔ IsUsable (responses s.calls)
unfolding get_version_lifecycle
get_version_lifecycle_succeeds_iff w default clock responses engine version now s stale =
    let v = connected w default clock responses in
    let e : String = to_lower w.lower engine in
    let same =
      answer_error e (trim_space version) _
      ∙ ap (λ c. c.fetch_err) (load_versions_stale v e now s stale) in
    let entry = entry_of_iff v e now (v.client s.calls) in
    let client = answered_iff default w.lower (clock s.calls) (responses s.calls) in
    (λ h. client.0 (entry.0 (sym same ∙ h)), λ h. same ∙ entry.1 (client.1 h))
