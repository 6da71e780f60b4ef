-- ===== src/Store.antt =====
-- pkg/store (store.go, memory/store.go): the store of findings, kept by resource ID.
-- Findings are values: the sharing of a `*Finding` with the caller, who sees the stamped times, is
-- not modelled. Each method holds the store's lock from its start to its end, so a call is one step.
pub mod Tests
pub mod Contents
pub mod Replacing
pub mod Summary
use version_guard.Base.{
  ℕ, suc, zero, ◌+◌, ◌*◌, ◌≡◌, String, Bool, true, false, ◌&&◌, Option, none, some, List, [], ◌∷◌,
  map, keep, length, if◌then◌else◌, ◌==◌, eqb, ltb, Map, lookup, insert,
}
use version_guard.Types.{Time, zero_time, Status, Finding, ResourceType}

pub record Store : Type 0 where
  pub findings : Map Finding

abbrev pub new_store : Store
new_store = record { findings = [] }

pub record FindingFilters : Type 0 where
  pub resource_type : Option ResourceType
  pub service : Option String
  pub status : Option Status
  pub engine : Option String

-- `CompliancePercentage` is the quotient of the two counts, which the float rounds.
pub record ScanSummary : Type 0 where
  pub total_resources : ℕ
  pub red_count : ℕ
  pub yellow_count : ℕ
  pub green_count : ℕ
  pub unknown_count : ℕ
  pub last_scan_time : Time

-- The equality of two `Status` texts.
abbrev pub same_status : Status → Status → Bool
same_status Status.red Status.red = true
same_status Status.yellow Status.yellow = true
same_status Status.green Status.green = true
same_status Status.unknown Status.unknown = true
same_status (Status.other a) (Status.other b) = a == b
same_status _ _ = false

-- The times that a finding is given when it is stored.
unfoldable pub stamp : Time → Finding → Finding
stamp now f = record f {
  updated_at = now;
  detected_at = if eqb f.detected_at zero_time then now else f.detected_at;
}

-- The loop of `SaveFindings`, and the second one of `ReplaceFindings`.
unfoldable pub save_all : Time → List Finding → Map Finding → Map Finding
save_all now [] m = m
save_all now (f ∷ findings) m = save_all now findings (insert f.resource_id (stamp now f) m)

unfoldable pub save_findings : Time → List Finding → Store → Store
save_findings now findings s = record { findings = save_all now findings s.findings }

unfoldable pub get_finding : String → Store → Option Finding
get_finding resource_id s = lookup resource_id s.findings

-- The first loop of `ReplaceFindings`.
unfoldable pub evict : ResourceType → Map Finding → Map Finding
evict resource_type [] = []
evict resource_type ((id, f) ∷ m) =
    if f.resource_type == resource_type
    then evict resource_type m
    else (id, f) ∷ evict resource_type m

unfoldable pub replace_findings : Time → ResourceType → List Finding → Store → Store
replace_findings now resource_type findings s = record {
  findings = save_all now findings (evict resource_type s.findings);
}

-- One guard of `matchesFilters`: a filter that is absent passes everything.
abbrev pub passes {ℓ} : {A : Type ℓ} → (A → A → Bool) → A → Option A → Bool
passes same a none = true
passes same a (some b) = same a b

unfoldable pub matches_filters : Finding → FindingFilters → Bool
matches_filters f filters =
    passes (λ a b. a == b) f.resource_type filters.resource_type
    && passes (λ a b. a == b) f.service filters.service
    && passes same_status f.status filters.status
    && passes (λ a b. a == b) f.engine filters.engine

abbrev pub values {ℓ} : {V : Type ℓ} → Map V → List V
values [] = []
values ((k, v) ∷ m) = v ∷ values m

unfoldable pub list_findings : FindingFilters → Store → List Finding
list_findings filters s = keep (λ f. matches_filters f filters) (values s.findings)

-- The switch of `GetSummary`.
abbrev pub count_status : Status → ScanSummary → ScanSummary
count_status Status.red c = record c { red_count = suc c.red_count }
count_status Status.yellow c = record c { yellow_count = suc c.yellow_count }
count_status Status.green c = record c { green_count = suc c.green_count }
count_status Status.unknown c = record c { unknown_count = suc c.unknown_count }
count_status (Status.other s) c = c

-- The loop of `GetSummary`.
unfoldable pub summarize : List Finding → ScanSummary → ScanSummary
summarize [] c = c
summarize (f ∷ findings) c =
    let counted = count_status f.status c in
    summarize findings (record counted {
      last_scan_time =
          if ltb c.last_scan_time f.detected_at then f.detected_at else c.last_scan_time;
    })

unfoldable pub get_summary : FindingFilters → Store → ScanSummary
get_summary filters s =
    let findings = list_findings filters s in
    summarize findings (record {
      total_resources = length findings;
      red_count = 0;
      yellow_count = 0;
      green_count = 0;
      unknown_count = 0;
      last_scan_time = zero_time;
    })
