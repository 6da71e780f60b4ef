-- ===== src/EndOfLife.antt =====
-- pkg/eol/endoflife: the lifecycle source. A product's cycles as the API of endoflife.date gives
-- them (client.go), and the dates in their fields (provider.go).
pub mod Tests
pub mod Dates
pub mod Registry
pub mod Standard
pub mod Declarative
pub mod Validation
pub mod Provider
pub mod Client
use version_guard.Base.{String, Bool}

-- A decoded JSON value: `other` is a number, an array or an object.
pub data Value : Type 0 where
  nil : Value
  bool : Bool → Value
  text : String → Value
  other : Value

pub record ProductCycle : Type 0 where
  pub cycle : String
  pub release_date : String
  pub support : Value
  pub eol : Value
  pub extended_support : Value
  pub lts : Value
  pub latest : String
  pub latest_release_date : String

-- `providerName`
abbrev pub provider_name : String
provider_name = "endoflife-date-api"
