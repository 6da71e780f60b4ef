-- ===== src/Inventory/Names.antt =====
-- pkg/inventory/wiz/helpers.go, tags.go: the service of a resource, from its tags or from its name.
pub mod Cut
use Prim.Native.Char.{Char}
use version_guard.Base.{
  ℕ, zero, suc, String, Bool, not, ◌==◌, ◌&&◌, ◌||◌, Option, none, some, List, [], ◌∷◌, Map, lookup,
  any, length, eqb, if◌then◌else◌, to_lower, split, join, hyphen, take,
}

abbrev pub environments : List String
environments =
    "dev" ∷ "development" ∷ "staging" ∷ "stage" ∷ "prod" ∷ "production" ∷ "test" ∷ "qa" ∷ []

abbrev pub suffixes : List String
suffixes =
    "cluster" ∷ "db" ∷ "database" ∷ "rds" ∷ "aurora" ∷ "cache" ∷ "redis" ∷ "memcached" ∷ "valkey"
    ∷ []

abbrev pub app_tags : List String
app_tags = "app" ∷ "application" ∷ "service" ∷ []

-- `tc.GetAppTag`, with the default tag keys.
unfoldable pub first_matching_tag : Map String → List String → String
unfolding lookup
first_matching_tag tags [] = ""
first_matching_tag tags (key ∷ keys) = elim (lookup key tags) [
  | some value ↦ if value == "" then first_matching_tag tags keys else value
  | none ↦ first_matching_tag tags keys
]

-- The table of `unicode.ToLower`.
module _ (lower : Char → Char) where
  unfoldable pub is_environment_suffix : String → Bool
  unfolding to_lower
  is_environment_suffix s = any (λ env. to_lower lower s == env) environments

  unfoldable pub is_common_suffix : String → Bool
  unfolding to_lower
  is_common_suffix s = any (λ suffix. to_lower lower s == suffix) suffixes

  abbrev pub is_suffix : String → Bool
  is_suffix part = is_environment_suffix part || is_common_suffix part

  -- The index at which the loop from the end stops: all parts from there on are suffixes.
  unfoldable pub end_index : List String → ℕ
  unfolding is_environment_suffix is_common_suffix
  end_index [] = 0
  end_index (part ∷ parts) =
      let rest = end_index parts in if eqb rest 0 && is_suffix part then 0 else suc rest

  unfoldable pub extract_service_from_name : String → String
  unfolding end_index split join take
  extract_service_from_name name =
      let parts = split hyphen name in
      let end = end_index parts in
      if eqb end 0 || eqb end (length parts) then name else join hyphen (take end parts)
