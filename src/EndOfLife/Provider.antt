-- ===== src/EndOfLife/Provider.antt =====
-- pkg/eol/endoflife/provider.go: `Provider`, its cache and its search for the cycle of a version.
-- The client (`ProductCyclesResult` and its error), the schema adapter, `format_date` and the table
-- of `unicode.ToLower` are parameters. The client's and the adapter's answers depend on the call, so
-- they are numbered. One caller runs at a time: `singleflight` and the locks are not modelled.
pub mod Tests
pub mod Search
pub mod Cache
pub mod Agreement
use Prim.Native.Char.{Char}
use Prim.Native.String
use Prim.Native.String.{len}
use text.Mathlib.Text.{starts_with}
use version_guard.Base.{
  ℕ, suc, ◌+◌, ◌≡◌, String, Bool, true, false, not, ◌&&◌, ◌||◌, Option, none, some, List, [], ◌∷◌,
  ◌++◌, map, any, ltb, if◌then◌else◌, ◌==◌, trim_space, to_lower,
}
use version_guard.Types.{
  Time, zero_time, VersionLifecycle, zero_lifecycle, LifecycleDataSource, LifecycleUnknownCause,
}
use version_guard.Policy.{is_set}
use version_guard.EndOfLife.{ProductCycle, provider_name}
use version_guard.EndOfLife.Validation.{validate_product_cycle}

pub record ProductCyclesResult : Type 0 where
  pub cycles : List (Option ProductCycle)
  pub fetched_at : Time
  pub data_source : LifecycleDataSource

-- `ErrProductNotFound`, or any other error of the client.
pub data FetchError : Type 0 where
  product_not_found failed : FetchError

-- `GetProductCycles` returns its result beside an error too.
pub record Answer : Type 0 where
  pub result : ProductCyclesResult
  pub error : Option FetchError

pub record CachedVersions : Type 0 where
  pub versions : List VersionLifecycle
  pub malformed_cycles : List String
  pub fetched_at : Time
  pub cached_at : Time
  pub data_source : LifecycleDataSource
  pub product_cause : LifecycleUnknownCause
  pub fetch_err : Option FetchError

-- The map has one key, the provider's product. `calls` counts the calls of the client.
pub record State : Type 0 where
  pub cache : Option CachedVersions
  pub calls : ℕ

abbrev pub new_provider : State
new_provider = record { cache = none; calls = 0 }

-- What a load reads and is given, outside the provider's own state.
pub record World : Type 0 where
  pub client : ℕ → Answer
  pub adapt : ℕ → ProductCycle → Option VersionLifecycle
  pub format_date : Time → String
  pub lower : Char → Char
  pub cache_ttl : ℕ

-- The readings of the clock: at the cache, at each cycle, and when the entry is made.
pub record Readings : Type 0 where
  pub checked : Time
  pub converted : ℕ → Time
  pub stored : Time

unfoldable pub matching_cycle : List String → String → Bool
unfolding trim_space
matching_cycle cycles version =
    any
      (λ cycle.
        trim_space cycle == version || starts_with version (String.◌++◌ (trim_space cycle) "."))
      cycles

-- The loop of `GetVersionLifecycle` over the cached versions.
unfoldable pub find_version :
    String → Option VersionLifecycle → ℕ → List VersionLifecycle → Option VersionLifecycle
find_version version best best_len [] = best
find_version version best best_len (v ∷ versions) =
    let cycle_version = trim_space v.version in
    let better =
      starts_with version (String.◌++◌ cycle_version ".") && ltb best_len (len cycle_version) in
    if cycle_version == version
    then some v
    else find_version version (if better then some v else best)
        (if better then len cycle_version else best_len) versions

unfoldable pub lifecycle_with_metadata :
    VersionLifecycle → String → CachedVersions → VersionLifecycle
lifecycle_with_metadata l engine cached = record l {
  engine = engine;
  fetched_at = cached.fetched_at;
  data_source = cached.data_source;
}

module _ (w : World) (engine : String) (now : Readings) where
  unfoldable pub convert_cycle : ℕ → ProductCycle → Option VersionLifecycle
  convert_cycle i cycle = elim (w.adapt i cycle) [
    | none ↦ none
    | some l ↦
        some (record l { engine = engine; source = provider_name; fetched_at = now.converted i })
  ]

  abbrev pub add_malformed : Option ProductCycle → List String → List String
  add_malformed none names = names
  add_malformed (some cycle) names =
      if trim_space cycle.cycle == "" then names else names ++ trim_space cycle.cycle ∷ []

  -- One round of the loop over the cycles: the versions and the malformed cycles so far.
  unfoldable pub add_cycle :
      ℕ
      → Option ProductCycle
      → List VersionLifecycle
      → List String
      → List VersionLifecycle × List String
  unfolding convert_cycle
  add_cycle i none versions malformed = (versions, malformed)
  add_cycle i (some cycle) versions malformed =
      elim (validate_product_cycle w.format_date (some cycle)) [
        | some _ ↦ (versions, add_malformed (some cycle) malformed)
        | none ↦ elim (convert_cycle i cycle) [
          | none ↦ (versions, malformed ++ trim_space cycle.cycle ∷ [])
          | some l ↦ (versions ++ l ∷ [], malformed)
        ]
      ]

  unfoldable pub convert_from :
      ℕ
      → List (Option ProductCycle)
      → List VersionLifecycle
      → List String
      → List VersionLifecycle × List String
  convert_from i [] versions malformed = (versions, malformed)
  convert_from i (cycle ∷ cycles) versions malformed =
      let (versions', malformed') = add_cycle i cycle versions malformed in
      convert_from (suc i) cycles versions' malformed'

  -- The entry that a call of the client makes, and whether it is stored.
  unfoldable pub entry_of : Answer → CachedVersions × Bool
  entry_of answer =
      let r = answer.result in
      let empty : CachedVersions = record {
        versions = [];
        malformed_cycles = [];
        fetched_at = r.fetched_at;
        cached_at = zero_time;
        data_source = r.data_source;
        product_cause = LifecycleUnknownCause.unset;
        fetch_err = none;
      } in
      elim answer.error [
        | some product_not_found ↦ (
          record empty {
            cached_at = now.stored;
            product_cause = LifecycleUnknownCause.product_not_found;
          },
          true,
        )
        | some failed ↦ (record empty { fetch_err = some failed }, false)
        | none ↦
            let (versions, malformed) = convert_from 0 r.cycles [] [] in
            (
              record empty {
                versions = versions;
                malformed_cycles = malformed;
                cached_at = now.stored;
              },
              true,
            )
      ]

  abbrev pub is_fresh : CachedVersions → Bool
  is_fresh cached = ltb now.checked (cached.cached_at + w.cache_ttl)

  unfoldable pub fetch_versions : State → CachedVersions × State
  fetch_versions s =
      let (entry, stored) = entry_of (w.client s.calls) in
      (entry, record { cache = if stored then some entry else s.cache; calls = suc s.calls })

  -- The error is the entry's `fetch_err`.
  unfoldable pub load_versions : State → CachedVersions × State
  load_versions s = elim s.cache [
    | none ↦ fetch_versions s
    | some cached ↦ if is_fresh cached then (cached, s) else fetch_versions s
  ]

abbrev pub blank : String → CachedVersions → VersionLifecycle
blank engine cached = record zero_lifecycle {
  engine = engine;
  source = provider_name;
  data_source = cached.data_source;
  fetched_at = cached.fetched_at;
}

-- What `GetVersionLifecycle` makes of the error of the entry that it loads and of the version that
-- it finds in it: the lifecycle, and the error beside it.
abbrev pub answer_case :
    String
    → String
    → CachedVersions
    → Option FetchError
    → Option VersionLifecycle
    → VersionLifecycle × Option FetchError
answer_case engine version cached (some e) found = (
  record (blank engine cached) {
    version = version;
    unknown_cause = LifecycleUnknownCause.source_error;
  },
  some e,
)
answer_case engine version cached none (some v) = (lifecycle_with_metadata v engine cached, none)
answer_case engine version cached none none = (
  record (blank engine cached) {
    unknown_cause =
        if is_set cached.product_cause
        then cached.product_cause
        else if matching_cycle cached.malformed_cycles version
        then LifecycleUnknownCause.malformed_cycle
        else LifecycleUnknownCause.cycle_not_found;
  },
  none,
)

unfoldable pub answer_from : String → String → CachedVersions → VersionLifecycle × Option FetchError
answer_from engine version cached =
    answer_case engine version cached cached.fetch_err (find_version version none 0 cached.versions)

-- `GetVersionLifecycle`: the lifecycle, the error beside it, and the new state.
unfoldable pub get_version_lifecycle :
    World → String → String → Readings → State → VersionLifecycle × Option FetchError × State
get_version_lifecycle w engine₀ version₀ now s =
    let engine = to_lower w.lower engine₀ in
    let version = trim_space version₀ in
    let loaded = load_versions w engine now s in
    let answer = answer_from engine version loaded.0 in (answer.0, answer.1, loaded.1)

-- `ListAllVersions`; `none` is the error.
unfoldable pub list_all_versions :
    World → String → Readings → State → Option (List VersionLifecycle) × State
list_all_versions w engine₀ now s =
    let engine = to_lower w.lower engine₀ in
    let loaded = load_versions w engine now s in
    let cached = loaded.0 in
    elim cached.fetch_err [
      | some e ↦ (none, loaded.1)
      | none ↦ (some (map (λ v. lifecycle_with_metadata v engine cached) cached.versions), loaded.1)
    ]
