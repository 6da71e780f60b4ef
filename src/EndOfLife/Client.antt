-- ===== src/EndOfLife/Client.antt =====
-- pkg/eol/endoflife/client.go: `GetProductCycles`, the client of the API of endoflife.date. The answer
-- of HTTP and what the JSON decoder reads are parameters, and the table of `unicode.ToLower` is one.
-- Of an error its kind is kept, and a request that cannot be made counts as one without an answer.
pub mod Answered
pub mod Tests
use Prim.Native.Char.{Char}
use version_guard.Base.{
  ℕ, String, Bool, true, false, Option, none, some, List, [], eqb, ◌==◌, if◌then◌else◌, trim_space,
  to_lower,
}
use version_guard.Types.{Time, LifecycleDataSource}
use version_guard.EndOfLife.{ProductCycle}
use version_guard.EndOfLife.Provider.{FetchError, Answer}

-- What the first `Decode` leaves in the slice of cycles, of which `none` is nil, and whether it fails.
pub record Decoded : Type 0 where
  pub cycles : Option (List (Option ProductCycle))
  pub fails : Bool

-- What the second `Decode` finds behind the first value.
pub data Trailer : Type 0 where
  end_of_input another_value malformed : Trailer

-- A response: its header `X-Version-Guard-EOL-Source`, its status and its body.
pub record Response : Type 0 where
  pub source_header : String
  pub status : ℕ
  pub decoded : Decoded
  pub trailer : Trailer

unfoldable pub lifecycle_data_source :
    (Char → Char) → String → LifecycleDataSource → LifecycleDataSource
lifecycle_data_source lower value fallback =
    let normalized = to_lower lower (trim_space value) in
    if normalized == ""
    then fallback
    else if normalized == "endoflife_date"
    then LifecycleDataSource.endoflife_date
    else if normalized == "local_override"
    then LifecycleDataSource.local_override
    else LifecycleDataSource.unknown

-- The checks of a body that is read: `none` is success.
abbrev pub body_error : Bool → Option (List (Option ProductCycle)) → Trailer → Option FetchError
body_error true cycles trailer = some FetchError.failed
body_error false none trailer = some FetchError.failed
body_error false (some cycles) end_of_input = none
body_error false (some cycles) another_value = some FetchError.failed
body_error false (some cycles) malformed = some FetchError.failed

unfoldable pub response_error : Response → Option FetchError
response_error r =
    if eqb r.status 200
    then body_error r.decoded.fails r.decoded.cycles r.trailer
    else if eqb r.status 404
    then some FetchError.product_not_found
    else some FetchError.failed

abbrev pub entries : Option (List (Option ProductCycle)) → List (Option ProductCycle)
entries none = []
entries (some cycles) = cycles

-- With the client's own data source, and the time of the call. `none` is a request without an answer.
unfoldable pub get_product_cycles :
    LifecycleDataSource → (Char → Char) → Time → Option Response → Answer
get_product_cycles default lower now none = record {
  result = record { cycles = []; fetched_at = now; data_source = default };
  error = some FetchError.failed;
}
get_product_cycles default lower now (some r) = record {
  result = record {
    cycles = if eqb r.status 200 then entries r.decoded.cycles else [];
    fetched_at = now;
    data_source = lifecycle_data_source lower r.source_header default;
  };
  error = response_error r;
}
