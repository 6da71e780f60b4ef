-- ===== src/Samples.antt =====
-- The data of the tests: a database of a release line that ends on 2026-04-30.
use version_guard.Base.{◌*◌, ◌≢◌, String, true, false, none, some, [], eq_iff, arith}
use mathlib.Core.Bool.{false≢true}
use version_guard.Types.{
  Time, zero_time, Status, Resource, VersionLifecycle, zero_lifecycle, Finding,
}
use version_guard.Types.Details.{zero_details}
use version_guard.Policy.{Clock, IsMonotone, day}
use version_guard.EndOfLife.{nil, bool, text, ProductCycle}

-- 2026-04-30
abbrev pub end_of_line : Time
end_of_line = 740_101 * day

abbrev pub at : Time → Clock
at now = record { support = now; future = now; until = now }

pub at-IsMonotone : (now : Time) → IsMonotone (at now)
at-IsMonotone now = record { support_le = omega arith; future_le = omega arith }

-- Thirty days before.
abbrev pub month_before : Time
month_before = 740_071 * day

abbrev pub mysql : Resource
mysql = record {
  tags = [];
  extra = [];
  discovered_at = zero_time;
  id = "db-1";
  service = "billing";
  current_version = "8.0";
  engine = "mysql";
  type = "aurora-mysql";
  cloud_provider = "AWS";
}

abbrev pub line : VersionLifecycle
line = record zero_lifecycle {
  version = "8.0";
  engine = "mysql";
  eol_date = some end_of_line;
  is_supported = true;
}

abbrev pub mysql_cycle : ProductCycle
mysql_cycle = record {
  cycle = "8.0";
  release_date = "2018-04-19";
  support = bool false;
  eol = text "2026-04-30";
  extended_support = bool false;
  lts = nil;
  latest = "8.0.40";
  latest_release_date = "";
}

abbrev pub finding : String → String → Status → Finding
finding id type status = record {
  tags = [];
  extra = [];
  eol = zero_details;
  lifecycle_details = zero_details;
  eol_date = none;
  detected_at = zero_time;
  updated_at = zero_time;
  resource_id = id;
  service = "billing";
  current_version = "8.0";
  engine = "mysql";
  message = "";
  resource_type = type;
  cloud_provider = "AWS";
  status = status;
}

pub named : mysql_cycle.cycle ≢ ""
named e = false≢true ((eq_iff "8.0" "").1 e)
