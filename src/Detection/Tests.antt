-- ===== src/Detection/Tests.antt =====
-- Tests of the activities and of the detection workflow, on the sample database.
use version_guard.Base.{◌≡◌, refl, false, none, some, [], ◌∷◌, lookup, inl}
use version_guard.Policy.{VersionPolicy, is_set, is_unknown, new_default_policy, classify}
use version_guard.Store.{new_store}
use version_guard.Detection.{
  Dependencies, Provider, InventorySource, State, Batch, ActivityError, finding_of, detect_drift,
}
use version_guard.Detection.Workflow.{Clock, detection_workflow}
use version_guard.Detection.Drift.{finding-attributed}
use version_guard.Detection.Batches.{detect_drift_again}
use version_guard.Detection.Runs.{
  IsRunnable, HasRun, detection_workflow-HasRun, detection_workflow-leaves_batch,
}
use version_guard.Samples.{mysql, line, at, month_before}

-- The standard policy thirty days before the end of the line.
abbrev policy : VersionPolicy
policy = record {
  classify = classify new_default_policy (at month_before);
  get_message = λ r l status. "";
  name = "default";
}

abbrev provider : Provider Unit
provider = record {
  get_version_lifecycle = λ engine version w. ((some line, false), w);
  name = "endoflife-date-api";
}

abbrev source : InventorySource Unit
source t w = (some (mysql ∷ []), w)

abbrev deps : Dependencies Unit
deps = record {
  inventory_sources = ("aurora-mysql", source) ∷ [];
  eol_providers = ("aurora-mysql", provider) ∷ [];
  policy = λ i. policy;
}

abbrev idle : State Unit
idle = record { resource_cache = []; store = new_store; world = tt }

abbrev now : Clock
now = record { start = month_before; stored = month_before; end = month_before }

finding-attributed_example :
    is_set (finding_of policy mysql line).eol.unknown_cause
    ≡ is_unknown (finding_of policy mysql line).status
finding-attributed_example = finding-attributed policy mysql line

abbrev batched : State Unit
batched = record idle { resource_cache = ("scan", Batch.resources (mysql ∷ [])) ∷ [] }

is_batched : lookup "scan" batched.resource_cache ≡ some (Batch.resources (mysql ∷ []))
unfolding lookup
is_batched = refl

detect_drift_again_example :
    detect_drift deps "scan" [] [] (detect_drift deps "scan" [] [] batched).1
    ≡ (inl ActivityError.batch_not_found, (detect_drift deps "scan" [] [] batched).1)
detect_drift_again_example =
    detect_drift_again deps "scan" [] (mysql ∷ []) [] batched refl is_batched

is_runnable : IsRunnable deps "scan" "aurora-mysql" idle source provider (mysql ∷ [])
unfolding lookup
is_runnable = record { named = refl; typed = refl; source = refl; listed = refl; provider = refl }

detection_workflow-HasRun_example :
    HasRun deps now "scan" "aurora-mysql" idle source provider
      (mysql ∷ [])
      (detection_workflow deps now "workflow" "scan" "aurora-mysql" idle)
detection_workflow-HasRun_example =
    detection_workflow-HasRun deps now "workflow" "scan" "aurora-mysql" idle source provider
      (mysql ∷ []) is_runnable

-- The same without a provider.
abbrev unprovided : Dependencies Unit
unprovided = record deps { eol_providers = [] }

has_source : lookup "aurora-mysql" unprovided.inventory_sources ≡ some source
unfolding lookup
has_source = refl

no_provider : lookup "aurora-mysql" unprovided.eol_providers ≡ none
unfolding lookup
no_provider = refl

detection_workflow-leaves_batch_example :
    ((detection_workflow unprovided now "workflow" "scan" "aurora-mysql" idle).0
      ≡ inl ActivityError.no_eol_provider)
    × (lookup "scan:aurora-mysql"
          (detection_workflow unprovided now "workflow" "scan" "aurora-mysql" idle).1.resource_cache
        ≡ some (Batch.resources (mysql ∷ [])))
detection_workflow-leaves_batch_example =
    detection_workflow-leaves_batch unprovided now "workflow" "scan" "aurora-mysql" idle source
      (mysql ∷ []) refl has_source refl no_provider
