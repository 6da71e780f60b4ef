-- ===== src/EndOfLife/Client/Tests.antt =====
-- Tests of the client: a product that the API does not know.
use Prim.Native.Char.{Char, code}
use version_guard.Base.{◌≡◌, refl, none, some, true, eqb, if◌then◌else◌, ◌↔◌, to_lower, trim_space}
use version_guard.Types.{LifecycleDataSource}
use version_guard.EndOfLife.Provider.{World, Readings, new_provider, get_version_lifecycle}
use version_guard.EndOfLife.Client.{
  Response, end_of_input, lifecycle_data_source, get_product_cycles,
}
use version_guard.EndOfLife.Client.Answered.{
  IsUsable, connected, get_version_lifecycle_succeeds_iff,
}
use version_guard.Samples.{month_before}

abbrev not_found : Response
not_found = record {
  source_header = " Local_Override";
  status = 404;
  decoded = record { cycles = none; fails = true };
  trailer = end_of_input;
}

abbrev lower : Char → Char
lower c = if eqb (code c) b'L' then "l" else if eqb (code c) b'O' then "o" else c

header_is_normalized :
    lifecycle_data_source lower " Local_Override" LifecycleDataSource.unknown
    ≡ LifecycleDataSource.local_override
unfolding lifecycle_data_source trim_space to_lower
header_is_normalized = refl

abbrev world : World
world = record {
  client = λ n. get_product_cycles LifecycleDataSource.unknown lower month_before none;
  adapt = λ n cycle. none;
  format_date = λ t. "";
  lower = lower;
  cache_ttl = 3600;
}

abbrev readings : Readings
readings = record { checked = month_before; converted = λ n. month_before; stored = month_before }

get_version_lifecycle_succeeds_iff_example :
    ((get_version_lifecycle
        (connected world LifecycleDataSource.unknown (λ n. month_before) (λ n. some not_found))
        "MySQL"
        "8.0.35"
        readings
        new_provider).1
      ≡ none)
    ↔ IsUsable (some not_found)
get_version_lifecycle_succeeds_iff_example =
    get_version_lifecycle_succeeds_iff world LifecycleDataSource.unknown (λ n. month_before)
      (λ n. some not_found) "MySQL" "8.0.35" readings new_provider (λ c h. absurd cc)
