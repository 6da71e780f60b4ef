-- ===== src/Inventory/Http/Accepted.antt =====
-- pkg/inventory/wiz/http_client.go: which report is accepted, and how often a request is tried.
use mathlib.Core.Sum.{inl-ne-inr}
use version_guard.Base.{
  ℕ, zero, suc, ◌+◌, ◌*◌, ◌-◌, ◌≤◌, ◌≡◌, refl, ◌∙◌, subst, String, not, ◌==◌, eq_iff, Option, none,
  some, ltb, eqb, arith, if_else_inr, if_then_inr, inr, inr-injective, trim_space,
}
use version_guard.Types.{Time, zero_time}
use version_guard.Types.Elapsed.{ℤ, pos, negsuc}
use version_guard.Inventory.Client.{Report, hour, report_freshness_grace}
use version_guard.Inventory.Http.{
  RunResults, ReportRun, ReportResponse, max_future_clock_skew, is_supported_type, validate_times,
  validate_rows, validate_results, validate_interval, validate_run, validate_report_metadata,
}

-- A report that ran not more than its interval and six hours ago, and not more than five minutes
-- ahead, and whose interval is at least an hour.
abbrev pub IsCurrent : Time → Report → Type 0
IsCurrent now r =
    (r.last_run ≤ now + max_future_clock_skew)
    × (now ≤ r.last_run + (r.run_interval_hours * hour + report_freshness_grace))
    × (1 ≤ r.run_interval_hours)

validate_times-IsCurrent :
    (report : ReportResponse) (run : ReportRun) (n rows : ℕ) (now : Time) (r : Report)
    → validate_times report run (suc n) rows now ≡ inr r
    → IsCurrent now r × (r.id ≡ report.id)
unfolding validate_times
validate_times-IsCurrent report run n rows now r h =
    let p = if_else_inr (ltb (now + max_future_clock_skew) run.run_at) _ h in
    let q = if_else_inr (ltb (suc n * hour + report_freshness_grace) (now - run.run_at)) _ p.1 in
    subst (λ s. IsCurrent now s × (s.id ≡ report.id)) (inr-injective _ _ q.1)
      ((ground (arith, p.0), ground (arith, q.0), omega arith), refl)

abbrev Accepted : Time → ReportResponse → Report → Type 0
Accepted now report r = IsCurrent now r × (r.id ≡ report.id)

validate_rows-Accepted :
    (report : ReportResponse) (run : ReportRun) (n : ℕ) (o : Option ℤ) (now : Time) (r : Report)
    → validate_rows report run (suc n) o now ≡ inr r
    → Accepted now report r
validate_rows-Accepted report run n none now r h = absurd (inl-ne-inr h)
validate_rows-Accepted report run n (some (negsuc m)) now r h = absurd (inl-ne-inr h)
validate_rows-Accepted report run n (some (pos rows)) now r h =
    validate_times-IsCurrent report run n rows now r h

validate_results-Accepted :
    (report : ReportResponse) (run : ReportRun) (n : ℕ) (o : Option RunResults) (now : Time)
    (r : Report)
    → validate_results report run (suc n) o now ≡ inr r
    → Accepted now report r
validate_results-Accepted report run n none now r h = absurd (inl-ne-inr h)
validate_results-Accepted report run n (some results) now r h =
    let p = if_then_inr (is_supported_type results.type) _ h in
    validate_rows-Accepted report run n results.row_count now r p.1

validate_interval-Accepted :
    (report : ReportResponse) (run : ReportRun) (hours : ℤ) (now : Time) (r : Report)
    → validate_interval report run hours now ≡ inr r
    → Accepted now report r
validate_interval-Accepted report run (pos zero) now r h = absurd (inl-ne-inr h)
validate_interval-Accepted report run (negsuc n) now r h = absurd (inl-ne-inr h)
validate_interval-Accepted report run (pos (suc n)) now r h =
    validate_results-Accepted report run n run.results now r h

validate_run-Accepted :
    (report : ReportResponse) (o : Option ReportRun) (now : Time) (r : Report)
    → validate_run report o now ≡ inr r
    → Accepted now report r
unfolding validate_run
validate_run-Accepted report none now r h = absurd (inl-ne-inr h)
validate_run-Accepted report (some run) now r h =
    let p = if_else_inr (not (run.status == "COMPLETED")) _ h in
    let q = if_else_inr (trim_space run.url == "") _ p.1 in
    let s = if_else_inr (eqb run.run_at zero_time) _ q.1 in
    validate_interval-Accepted report run report.run_interval_hours now r s.1

-- A report that the client accepts is the one that was asked for; its run is not older than its
-- interval and the grace of six hours, is at most the allowed five minutes ahead of the clock, and its
-- interval is at least an hour.
pub validate_report_metadata-IsCurrent :
    (o : Option ReportResponse) (report_id : String) (now : Time) (r : Report)
    → validate_report_metadata o report_id now ≡ inr r
    → IsCurrent now r × (r.id ≡ report_id)
unfolding validate_report_metadata
validate_report_metadata-IsCurrent none report_id now r h = absurd (inl-ne-inr h)
validate_report_metadata-IsCurrent (some report) report_id now r h =
    let p = if_else_inr (not (report.id == report_id)) _ h in
    let q = if_else_inr (trim_space report.name == "") _ p.1 in
    let a = validate_run-Accepted report report.last_run now r q.1 in
    let same : report.id ≡ report_id = ground (arith, p.0, eq_iff report.id report_id) in
    (a.0, a.1 ∙ same)
