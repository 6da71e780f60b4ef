-- ===== src/Store/Summary.antt =====
-- pkg/store/memory/store.go: what `GetSummary` counts.
use version_guard.Base.{
  ℕ, ◌+◌, ◌≤◌, ◌≡◌, refl, true, List, [], ◌∷◌, arith, if◌then◌else◌, length, keep, All, ltb,
}
use version_guard.Types.{Status, is_valid_status, Finding}
use version_guard.Store.{
  Store, ScanSummary, FindingFilters, list_findings, get_summary, summarize, count_status,
  same_status,
}

-- The findings of a status among the listed ones.
abbrev pub of_status : Status → List Finding → ℕ
of_status status findings = length (keep (λ f. same_status f.status status) findings)

-- The counts of a summary are those of the findings.
pub record IsSummary (findings : List Finding) (c : ScanSummary) : Type 0 where
  pub total : c.total_resources ≡ length findings
  pub red : c.red_count ≡ of_status Status.red findings
  pub yellow : c.yellow_count ≡ of_status Status.yellow findings
  pub green : c.green_count ≡ of_status Status.green findings
  pub unknown : c.unknown_count ≡ of_status Status.unknown findings
  pub latest : All (λ f. f.detected_at ≤ c.last_scan_time) findings

-- What the loop adds to the summary `c` that it starts from.
record IsExtension (findings : List Finding) (c d : ScanSummary) : Type 0 where
  total : d.total_resources ≡ c.total_resources
  red : d.red_count ≡ c.red_count + of_status Status.red findings
  yellow : d.yellow_count ≡ c.yellow_count + of_status Status.yellow findings
  green : d.green_count ≡ c.green_count + of_status Status.green findings
  unknown : d.unknown_count ≡ c.unknown_count + of_status Status.unknown findings
  no_earlier : c.last_scan_time ≤ d.last_scan_time
  latest : All (λ f. f.detected_at ≤ d.last_scan_time) findings

-- The summary after one round.
abbrev next : Finding → ScanSummary → ScanSummary
next f c = record (count_status f.status c) {
  last_scan_time = if ltb c.last_scan_time f.detected_at then f.detected_at else c.last_scan_time;
}

IsExtension-cons :
    (f : Finding) (findings : List Finding) (c d : ScanSummary)
    → IsExtension findings (next f c) d
    → IsExtension (f ∷ findings) c d
IsExtension-cons f findings c d e = record {
  total = ground (arith, e.total);
  red = ground (arith, e.red);
  yellow = ground (arith, e.yellow);
  green = ground (arith, e.green);
  unknown = ground (arith, e.unknown);
  no_earlier = ground (arith, e.no_earlier);
  latest = (ground (arith, e.no_earlier), e.latest);
}

summarize-IsExtension :
    (findings : List Finding) (c : ScanSummary) → IsExtension findings c (summarize findings c)
unfolding summarize
summarize-IsExtension [] c = record {
  total = refl;
  red = omega arith;
  yellow = omega arith;
  green = omega arith;
  unknown = omega arith;
  no_earlier = omega arith;
  latest = tt;
}
summarize-IsExtension (f ∷ findings) c =
    IsExtension-cons f findings c _ (summarize-IsExtension findings (next f c))

-- A summary counts all listed findings, and those of each status, and its scan time is no earlier
-- than the detection of any of them.
pub get_summary-IsSummary :
    (filters : FindingFilters) (s : Store)
    → IsSummary (list_findings filters s) (get_summary filters s)
unfolding get_summary
get_summary-IsSummary filters s =
    let e = summarize-IsExtension (list_findings filters s) _ in
    record {
      total = e.total;
      red = omega (arith, e.red);
      yellow = omega (arith, e.yellow);
      green = omega (arith, e.green);
      unknown = omega (arith, e.unknown);
      latest = e.latest;
    }

-- Findings of the four statuses, counted by status.
of_status_total :
    (findings : List Finding)
    → All (λ f. is_valid_status f.status ≡ true) findings
    → of_status Status.red findings
        + of_status Status.yellow findings
        + of_status Status.green findings
        + of_status Status.unknown findings
      ≡ length findings
unfolding is_valid_status
of_status_total [] h = omega arith
of_status_total (f ∷ findings) (valid, h) = ground (arith, of_status_total findings h)

-- When every listed finding has one of the four statuses, the four counts of a summary make up its
-- total.
pub summary-total :
    (filters : FindingFilters) (s : Store)
    → All (λ f. is_valid_status f.status ≡ true) (list_findings filters s)
    → let c = get_summary filters s in
      c.red_count + c.yellow_count + c.green_count + c.unknown_count ≡ c.total_resources
summary-total filters s h =
    let e = get_summary-IsSummary filters s in
    omega (arith, e.total, e.red, e.yellow, e.green, e.unknown, of_status_total _ h)
