-- ===== src/Detection/Drift.antt =====
-- pkg/workflow/detection/activities.go: the findings that `DetectDrift` makes.
use version_guard.Base.{ℕ, suc, ◌≡◌, refl, ap, String, true, some, List, [], ◌∷◌, map, arith}
use version_guard.Types.{Status, Resource, VersionLifecycle}
use version_guard.Types.Details.{lifecycle_details}
use version_guard.Policy.{VersionPolicy, is_set, is_unknown, unknown_cause, cause_between}
use version_guard.Detection.{finding_of, detect_all}

-- `DetectDrift` makes one finding for each resource, in the order of the resources.
pub detect_all-ids :
    (policy : ℕ → VersionPolicy) (i : ℕ) (rs : List Resource)
    (lifecycles : List (String × VersionLifecycle))
    → map (λ f. f.resource_id) (detect_all policy i rs lifecycles) ≡ map (λ r. r.id) rs
unfolding detect_all finding_of
detect_all-ids policy i [] lifecycles = refl
detect_all-ids policy i (r ∷ rs) lifecycles =
    ap (λ ids. r.id ∷ ids) (detect_all-ids policy (suc i) rs lifecycles)

cause_between-is_set : (r : Resource) (l : VersionLifecycle) → is_set (cause_between r l) ≡ true
unfolding cause_between
cause_between-is_set r l = ground arith

unknown_cause-is_set :
    (r : Resource) (l : VersionLifecycle) (status : Status)
    → is_set (unknown_cause (some r) (some l) status) ≡ is_unknown status
unfolding unknown_cause
unknown_cause-is_set r l status = ground (arith, cause_between-is_set r l)

-- A finding carries a cause exactly when its status is UNKNOWN, whatever the policy.
pub finding-attributed :
    (policy : VersionPolicy) (r : Resource) (l : VersionLifecycle)
    → is_set (finding_of policy r l).eol.unknown_cause ≡ is_unknown (finding_of policy r l).status
unfolding finding_of lifecycle_details
finding-attributed policy r l = unknown_cause-is_set r l (policy.classify r l)
