-- ===== src/EndOfLife/Provider/Tests.antt =====
-- Tests of the provider, with a client that gives one cycle.
use version_guard.Base.{◌≡◌, refl, none, some, [], ◌∷◌, trim_space, to_lower}
use version_guard.Types.{LifecycleDataSource, LifecycleUnknownCause}
use version_guard.Policy.{strip_prefixes}
use version_guard.Policy.Matching.{Covers}
use version_guard.EndOfLife.Provider.{
  World, Readings, new_provider, CachedVersions, Answer, find_version, load_versions,
  get_version_lifecycle, fetch_versions, entry_of, convert_from,
}
use version_guard.EndOfLife.Provider.Search.{Finds, find_version-Finds, name_of}
use version_guard.EndOfLife.Provider.Cache.{start, get, IsClean, cache-IsClean}
use version_guard.EndOfLife.Provider.Agreement.{
  IsAnswer, get_version_lifecycle-IsAnswer, found-Covers,
}
use version_guard.Samples.{line, month_before}

-- The product has no cycles.
abbrev no_product : Answer
no_product = record {
  result = record {
    cycles = [];
    fetched_at = month_before;
    data_source = LifecycleDataSource.endoflife_date;
  };
  error = none;
}

abbrev world : World
world = record {
  client = λ n. no_product;
  adapt = λ n cycle. none;
  format_date = λ t. "";
  lower = λ c. c;
  cache_ttl = 3600;
}

abbrev readings : Readings
readings = record { checked = month_before; converted = λ n. month_before; stored = month_before }

find_version-Finds_example : Finds "8.0.35" (line ∷ []) (find_version "8.0.35" none 0 (line ∷ []))
find_version-Finds_example = find_version-Finds "8.0.35" (line ∷ [])

bare_version : strip_prefixes "8.0.35" ≡ "8.0.35"
unfolding strip_prefixes
bare_version = refl

line_is_found : find_version "8.0.35" none 0 (line ∷ []) ≡ some line
unfolding find_version trim_space
line_is_found = refl

line_is_trimmed : name_of line ≡ line.version
unfolding trim_space
line_is_trimmed = refl

found-Covers_example : Covers line.version "8.0.35"
found-Covers_example =
    found-Covers "8.0.35" (line ∷ []) line bare_version line_is_trimmed line_is_found

get_version_lifecycle-IsAnswer_example :
    IsAnswer
      (trim_space "8.0")
      (load_versions world (to_lower world.lower "mysql") readings new_provider).0
      (get_version_lifecycle world "mysql" "8.0" readings new_provider).0
      (get_version_lifecycle world "mysql" "8.0" readings new_provider).1
get_version_lifecycle-IsAnswer_example =
    get_version_lifecycle-IsAnswer world "mysql" "8.0" readings new_provider

cache-IsClean_example : IsClean (get_version_lifecycle world "mysql" "8.0" readings new_provider).2
cache-IsClean_example =
    cache-IsClean world (get_version_lifecycle world "mysql" "8.0" readings new_provider).2
      (get "mysql" "8.0" readings start)

abbrev entry : CachedVersions
entry = record {
  versions = [];
  malformed_cycles = [];
  fetched_at = month_before;
  cached_at = month_before;
  data_source = LifecycleDataSource.endoflife_date;
  product_cause = LifecycleUnknownCause.unset;
  fetch_err = none;
}

entry_is_stored : (load_versions world "mysql" readings new_provider).1.cache ≡ some entry
unfolding load_versions fetch_versions entry_of convert_from
entry_is_stored = refl
