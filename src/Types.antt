-- ===== src/Types.antt =====
-- pkg/types: the data that the components exchange.
-- A `time.Time` is a number of nanoseconds since the start of the year 0 (UTC), the least date that
-- a lifecycle source can spell; a `*time.Time` is an `Option`. The string types with a fixed set of
-- constants are data types; `other` is any other text. A nil map is the empty one.
pub mod Details
pub mod Earliest
pub mod Elapsed
use version_guard.Base.{
  ℕ, String, Bool, true, false, Option, none, some, ltb, List, [], ◌∷◌, Map, any, ◌==◌,
}

abbrev pub Time : Type 0
Time = ℕ

-- The zero `time.Time`: the start of the year 1.
abbrev pub zero_time : Time
zero_time = 31_622_400_000_000_000

-- `date != nil && now.After(*date)`
abbrev pub past : Time → Option Time → Bool
past now none = false
past now (some date) = ltb date now

-- `date != nil && now.Before(*date)`
abbrev pub upcoming : Time → Option Time → Bool
upcoming now none = false
upcoming now (some date) = ltb now date

pub data Status : Type 0 where
  red yellow green unknown : Status
  other : String → Status

unfoldable pub is_valid_status : Status → Bool
is_valid_status (Status.other s) = false
is_valid_status _ = true

-- The empty text is `unset`.
pub data LifecycleUnknownCause : Type 0 where
  unset : LifecycleUnknownCause
  product_not_found cycle_not_found source_error malformed_cycle : LifecycleUnknownCause
  empty_inventory_version lifecycle_mismatch indeterminate unattributed : LifecycleUnknownCause

pub data LifecycleDataSource : Type 0 where
  unset endoflife_date local_override unknown : LifecycleDataSource

abbrev pub ResourceType : Type 0
ResourceType = String

abbrev pub CloudProvider : Type 0
CloudProvider = String

abbrev pub known_cloud_providers : List CloudProvider
known_cloud_providers = "AWS" ∷ "GCP" ∷ "AZURE" ∷ []

-- `CloudProvider.IsValid`
unfoldable pub is_valid_provider : CloudProvider → Bool
is_valid_provider c = any (λ p. c == p) known_cloud_providers

pub record Resource : Type 0 where
  pub tags : Map String
  pub extra : Map String
  pub discovered_at : Time
  pub id : String
  pub service : String
  pub current_version : String
  pub engine : String
  pub type : ResourceType
  pub cloud_provider : CloudProvider

pub record VersionLifecycle : Type 0 where
  pub release_date : Option Time
  pub eol_date : Option Time
  pub extended_support_end : Option Time
  pub deprecated_support_end : Option Time
  pub deprecation_date : Option Time
  pub latest_release_date : Option Time
  pub lts_date : Option Time
  pub fetched_at : Time
  pub version : String
  pub engine : String
  pub source : String
  pub data_source : LifecycleDataSource
  pub unknown_cause : LifecycleUnknownCause
  pub is_eol : Bool
  pub is_deprecated : Bool
  pub is_extended_support : Bool
  pub is_deprecated_support : Bool
  pub is_supported : Bool

-- `VersionLifecycle{}`
abbrev pub zero_lifecycle : VersionLifecycle
zero_lifecycle = record {
  release_date = none;
  eol_date = none;
  extended_support_end = none;
  deprecated_support_end = none;
  deprecation_date = none;
  latest_release_date = none;
  lts_date = none;
  fetched_at = zero_time;
  version = "";
  engine = "";
  source = "";
  data_source = LifecycleDataSource.unset;
  unknown_cause = LifecycleUnknownCause.unset;
  is_eol = false;
  is_deprecated = false;
  is_extended_support = false;
  is_deprecated_support = false;
  is_supported = false;
}

pub record LifecycleDetails : Type 0 where
  pub standard_support_end : Option Time
  pub deprecated_support_end : Option Time
  pub eol_date : Option Time
  pub extended_support_end : Option Time
  pub actionable_date : Option Time
  pub release_date : Option Time
  pub latest_release_date : Option Time
  pub lts_date : Option Time
  pub fetched_at : Time
  pub version : String
  pub engine : String
  pub source : String
  pub data_source : LifecycleDataSource
  pub unknown_cause : LifecycleUnknownCause
  pub is_supported : Bool
  pub is_deprecated : Bool
  pub is_extended_support : Bool
  pub is_eol : Bool

pub record Finding : Type 0 where
  pub tags : Map String
  pub extra : Map String
  pub eol : LifecycleDetails
  pub lifecycle_details : LifecycleDetails
  pub eol_date : Option Time
  pub detected_at : Time
  pub updated_at : Time
  pub resource_id : String
  pub service : String
  pub current_version : String
  pub engine : String
  pub message : String
  pub resource_type : ResourceType
  pub cloud_provider : CloudProvider
  pub status : Status
