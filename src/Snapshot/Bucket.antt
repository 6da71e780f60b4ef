-- ===== src/Snapshot/Bucket.antt =====
-- pkg/snapshot/store.go: `S3Store`, which keeps the snapshots as objects of a bucket. The JSON encoder
-- and decoder, the format of a day and the answers of S3 are parameters. The headers of the objects
-- and `ListSnapshots` are not modelled.
-- `wire_snapshot` is what the JSON tags of pkg/types keep of a snapshot.
pub mod Tests
pub mod Kept
use Prim.Native.String
use version_guard.Base.{
  String, Bool, true, false, ◌==◌, ◌||◌, Option, none, some, List, [], ◌∷◌, Map, lookup, insert,
  if◌then◌else◌, map,
}
use version_guard.Types.{Time, Finding}
use version_guard.Types.Details.{zero_details}
use version_guard.Snapshot.{Snapshot}

-- The objects of the bucket by their keys.
abbrev pub Bucket : Type 0
Bucket = Map String

-- What the JSON of a finding keeps: two of its fields have the tag `json:"-"`.
unfoldable pub wire_finding : Finding → Finding
wire_finding f = record f { lifecycle_details = zero_details; eol_date = none }

abbrev pub wire_types : Map (List Finding) → Map (List Finding)
wire_types [] = []
wire_types ((t, findings) ∷ m) = (t, map wire_finding findings) ∷ wire_types m

-- What the JSON of a snapshot keeps.
unfoldable pub wire_snapshot : Snapshot → Snapshot
unfolding wire_finding
wire_snapshot s = record s { findings_by_type = wire_types s.findings_by_type }

pub record S3Store : Type 0 where
  pub prefix : String
  pub format_day : Time → String
  pub marshal : Snapshot → Option String
  pub unmarshal : String → Option Snapshot

infixr 40 ◌<>◌
abbrev pub ◌<>◌ : String → String → String
s <> t = String.◌++◌ s t

-- `generateKey`
unfoldable pub generate_key : S3Store → Time → String → String
generate_key store at id = store.prefix <> store.format_day at <> "/" <> id <> ".json"

abbrev pub latest_key : S3Store → String
latest_key store = store.prefix <> "latest.json"

-- Two puts, of which either may fail; `false` is an error.
abbrev pub put_both : (String → Bool) → String → String → String → Bucket → Bool × Bucket
put_both put_succeeds key latest data_ bucket =
    let first = insert key data_ bucket in
    if put_succeeds key
    then (if put_succeeds latest then (true, insert latest data_ first) else (false, first))
    else (false, bucket)

abbrev pub put_data : S3Store → (String → Bool) → Snapshot → Option String → Bucket → Bool × Bucket
put_data store put_succeeds s none bucket = (false, bucket)
put_data store put_succeeds s (some data_) bucket =
    put_both put_succeeds (generate_key store s.generated_at s.snapshot_id) (latest_key store) data_
      bucket

unfoldable pub save_to_bucket : S3Store → (String → Bool) → Snapshot → Bucket → Bool × Bucket
unfolding generate_key insert
save_to_bucket store put_succeeds s bucket = put_data store put_succeeds s (store.marshal s) bucket

-- An object that is read and decoded; `none` is an error.
abbrev pub decoded : S3Store → Option String → Option Snapshot
decoded store none = none
decoded store (some data_) = store.unmarshal data_

unfoldable pub latest_in_bucket : S3Store → Bucket → Option Snapshot
unfolding lookup
latest_in_bucket store bucket = decoded store (lookup (latest_key store) bucket)

-- `key[len(key)-len(suffix):] == suffix`, if the key is long enough.
unfoldable pub ends_in : String → String → Bool
ends_in String.[] suffix = suffix == ""
ends_in (String.◌∷◌ c key) suffix = (String.◌∷◌ c key == suffix) || ends_in key suffix

unfoldable pub contains_snapshot_id : String → String → Bool
unfolding ends_in
contains_snapshot_id key id = ends_in key (id <> ".json")

-- The answers of S3 to the requests for the keys, a page at a time: a refusal, the last page, or a page
-- that is truncated and what the request for the next one gets.
pub data Listing : Type 0 where
  refused : Listing
  last_page : List (Option String) → Listing
  page : List (Option String) → Listing → Listing

-- The first key of a page that matches.
unfoldable pub matching_key : String → List (Option String) → Option String
unfolding contains_snapshot_id
matching_key id [] = none
matching_key id (none ∷ keys) = matching_key id keys
matching_key id (some key ∷ keys) =
    let later = matching_key id keys in if contains_snapshot_id key id then some key else later

-- The loop of `GetSnapshot`; a key that matches is never empty.
unfoldable pub target_key : String → Listing → Option String
unfolding matching_key
target_key id refused = none
target_key id (last_page keys) = matching_key id keys
target_key id (page keys more) = elim (matching_key id keys) [
  | some key ↦ some key
  | none ↦ target_key id more
]

abbrev pub object_at : S3Store → Bucket → Option String → Option Snapshot
object_at store bucket none = none
object_at store bucket (some key) = decoded store (lookup key bucket)

unfoldable pub get_from_bucket : S3Store → Listing → Bucket → String → Option Snapshot
unfolding target_key lookup
get_from_bucket store listing bucket id = object_at store bucket (target_key id listing)
