-- ===== src/Inventory/Report/Tests.antt =====
-- A run of `ListResources` on a report with a function of AWS Lambda, a container image and a cluster.
use version_guard.Base.{true, none, some, List, [], ◌∷◌}
use version_guard.Types.{Resource}
use version_guard.Inventory.Columns.{Row}
use version_guard.Inventory.Transforms.{json_text}
use version_guard.Inventory.Client.{Report}
use version_guard.Inventory.Report.{Call}
use version_guard.Samples.{month_before}

abbrev rows : List Row
rows =
    ("externalId" ∷ "nativeType" ∷ "name" ∷ "tags" ∷ "graphEntity.properties" ∷ [])
    ∷ ("fn-1" ∷ "lambda" ∷ "bill" ∷ "" ∷ "python3.12" ∷ [])
    ∷ ("fn-2" ∷ "lambda" ∷ "image" ∷ "" ∷ "" ∷ [])
    ∷ ("db-1" ∷ "rds" ∷ "db" ∷ "" ∷ "" ∷ [])
    ∷ []

abbrev report : Report
report = record {
  id = "report";
  name = "lambda functions";
  download_url = "https://example.com/report";
  last_run = month_before;
  run_interval_hours = 24;
  expected_rows = 3;
}

-- The decoder answers with the text of the column as the runtime.
abbrev call : Call
call = record {
  externals = record {
    lower = λ c. c;
    unmarshal = λ s. some (("runtime", json_text s) ∷ []);
    is_region = λ s. true;
    parse_arn = λ s. none;
  };
  unmarshal_ids = λ s. some (("lambda", "report") ∷ []);
  env = "{}";
  api = record {
    get_access_token = some "token";
    get_report = λ token id. some report;
    download_report = λ url. some "csv";
    read_all = λ csv. some rows;
  };
  readings = record {
    first_since = month_before;
    first_now = month_before;
    second_since = month_before;
    second_now = month_before;
    stored = month_before;
  };
  clock = λ i. month_before;
}

abbrev function : Resource
function = record {
  tags = [];
  extra = ("name", "bill") ∷ [];
  discovered_at = month_before;
  id = "fn-1";
  service = "bill";
  current_version = "python3.12";
  engine = "aws-lambda";
  type = "lambda";
  cloud_provider = "AWS";
}
