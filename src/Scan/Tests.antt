-- ===== src/Scan/Tests.antt =====
-- Tests of the scans on demand.
use version_guard.Base.{◌≡◌, refl, [], ◌∷◌, some, inr}
use version_guard.Types.Elapsed.{negsuc}
use version_guard.Scan.{
  Starter, Trigger, Input, Request, Result, run, workflow_input, serve_http, accepted,
}
use version_guard.Scan.Scopes.{Asks, IsStarted, serve_http-IsStarted}

abbrev trigger : Trigger
trigger = record {
  task_queue = "queue";
  emitter_webhook_url = "";
  default_resource_types = "lambda" ∷ "eks" ∷ [];
}

abbrev starter : Starter
starter options w = inr (options.id, "run")

-- A request that names one type, in chunks.
abbrev named_type : Input
named_type = record { scan_id = "scan"; resource_types = "eks" ∷ [] }

abbrev in_chunks : Request
in_chunks = record { method = "POST"; content_length = negsuc 0; decoded = some named_type }

abbrev result : Result
result = record { workflow_id = "version-guard-active-scan"; run_id = "run"; scan_id = "id" }

is_accepted : serve_http starter trigger "id" in_chunks ≡ accepted result
unfolding serve_http run workflow_input
is_accepted = refl

serve_http-IsStarted_example :
    (in_chunks.method ≡ "POST")
    × ((i : Input) × Asks in_chunks i × IsStarted starter trigger "id" i result)
serve_http-IsStarted_example =
    serve_http-IsStarted starter trigger "id" in_chunks result is_accepted
