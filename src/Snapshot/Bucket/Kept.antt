-- ===== src/Snapshot/Bucket/Kept.antt =====
-- pkg/snapshot/store.go: what a saved snapshot is read back as.
use mathlib.Core.Bool.{false≢true}
use text.Mathlib.TextLemmas.{append_assoc, cons-append, nil-append}
use version_guard.Base.{
  ◌≡◌, refl, sym, ap, ◌∙◌, subst, String, Bool, true, eq_iff, Option, none, some, List, ◌∷◌, lookup,
  insert, lookup-insert, arith, Bool-cases, or-cases, inl, inr, ◌==◌, false, All, ◌++◌, [],
}
use version_guard.Types.{Time}
use version_guard.Snapshot.{Snapshot}
use version_guard.Snapshot.Bucket.{
  Bucket, S3Store, ◌<>◌, generate_key, latest_key, put_both, put_data, save_to_bucket, decoded,
  latest_in_bucket, ends_in, contains_snapshot_id, last_page, get_from_bucket, Listing, page,
  matching_key, target_key, object_at, wire_snapshot,
}

ends_in_self : (suffix : String) → ends_in suffix suffix ≡ true
unfolding ends_in
ends_in_self String.[] = refl
ends_in_self (String.◌∷◌ c s) = rw ((eq_iff (String.◌∷◌ c s) (String.◌∷◌ c s)).1 refl) refl

ends_in-append : (front suffix : String) → ends_in (front <> suffix) suffix ≡ true
unfolding ends_in
ends_in-append String.[] suffix = rw (nil-append suffix) (ends_in_self suffix)
ends_in-append (String.◌∷◌ c front) suffix =
    rw (cons-append c front suffix) (ground (arith, ends_in-append front suffix))

ends_in-inv :
    (key suffix : String) → ends_in key suffix ≡ true → (front : String) × (front <> suffix ≡ key)
unfolding ends_in
ends_in-inv String.[] suffix h = ("", nil-append suffix ∙ (eq_iff suffix "").0 h)
ends_in-inv (String.◌∷◌ c key) suffix h = elim (or-cases (String.◌∷◌ c key == suffix) _ h) [
  | inl e ↦ ("", nil-append suffix ∙ sym ((eq_iff (String.◌∷◌ c key) suffix).0 e))
  | inr later ↦
      let (front, split) = ends_in-inv key suffix later in
      (String.◌∷◌ c front, cons-append c front suffix ∙ ap (λ k. String.◌∷◌ c k) split)
]

-- The key ends in the text and ".json".
abbrev pub Ends : String → String → Type 0
Ends id key = (front : String) × (front <> (id <> ".json") ≡ key)

Ends-contains_snapshot_id : (id key : String) → Ends id key → contains_snapshot_id key id ≡ true
unfolding contains_snapshot_id
Ends-contains_snapshot_id id key (front, e) =
    subst (λ k. ends_in k (id <> ".json") ≡ true) e (ends_in-append front (id <> ".json"))

-- An object without a key, or whose key does not end in the text.
abbrev pub Misses : String → Option String → Type 0
Misses id none = Unit
Misses id (some key) = ¬ Ends id key

pub contains_snapshot_id-Misses :
    (id key : String) → contains_snapshot_id key id ≡ false → Misses id (some key)
contains_snapshot_id-Misses id key h ends =
    false≢true (sym h ∙ Ends-contains_snapshot_id id key ends)

Misses-contains_snapshot_id :
    (id key : String) → Misses id (some key) → contains_snapshot_id key id ≡ false
unfolding contains_snapshot_id
Misses-contains_snapshot_id id key n = elim (Bool-cases (contains_snapshot_id key id)) [
  | inl e ↦ absurd (n (ends_in-inv key (id <> ".json") e))
  | inr e ↦ e
]

matching_key-Misses :
    (id : String) (keys : List (Option String)) → All (Misses id) keys → matching_key id keys ≡ none
unfolding matching_key
matching_key-Misses id [] h = refl
matching_key-Misses id (none ∷ keys) h = matching_key-Misses id keys h.1
matching_key-Misses id (some key ∷ keys) h =
    rw (Misses-contains_snapshot_id id key h.0) (matching_key-Misses id keys h.1)

matching_key-append :
    (id key : String) (before after : List (Option String))
    → All (Misses id) before
    → Ends id key
    → matching_key id (before ++ some key ∷ after) ≡ some key
unfolding matching_key
matching_key-append id key [] after h ends = rw (Ends-contains_snapshot_id id key ends) refl
matching_key-append id key (none ∷ before) after h ends =
    matching_key-append id key before after h.1 ends
matching_key-append id key (some k ∷ before) after h ends =
    rw (Misses-contains_snapshot_id id k h.0) (matching_key-append id key before after h.1 ends)

-- The pages list the key, and before it only keys that do not end in the text.
pub data IsFirst (id key : String) : Listing → Type 0 where
  on_last :
      (before after : List (Option String))
      → All (Misses id) before
      → IsFirst id key (last_page (before ++ some key ∷ after))
  on_page :
      (before after : List (Option String)) (more : Listing)
      → All (Misses id) before
      → IsFirst id key (page (before ++ some key ∷ after) more)
  on_later :
      (keys : List (Option String)) (more : Listing)
      → All (Misses id) keys
      → IsFirst id key more
      → IsFirst id key (page keys more)

target_key-IsFirst :
    (id key : String) (listing : Listing)
    → IsFirst id key listing
    → Ends id key
    → target_key id listing ≡ some key
unfolding target_key
target_key-IsFirst id key listing (on_last before after h) ends =
    matching_key-append id key before after h ends
target_key-IsFirst id key listing (on_page before after more h) ends =
    rw (target_key, matching_key-append id key before after h ends) refl
target_key-IsFirst id key listing (on_later keys more h first) ends =
    rw (target_key, matching_key-Misses id keys h) (target_key-IsFirst id key more first ends)

generate_key-Ends :
    (store : S3Store) (at : Time) (front id : String)
    → Ends id (generate_key store at (front <> id))
unfolding generate_key
generate_key-Ends store at front id =
    (store.prefix <> store.format_day at <> "/" <> front, simp (append_assoc))

-- When the pages that S3 answers with list the object of a snapshot whose ID ends in the requested
-- text, and before it only keys that do not end in this text and ".json", `GetSnapshot` returns that
-- object, whatever stands before the text in the ID.
pub get_from_bucket-IsFirst :
    (store : S3Store) (bucket : Bucket) (listing : Listing) (s : Snapshot) (front id : String)
    → s.snapshot_id ≡ front <> id
    → IsFirst id (generate_key store s.generated_at s.snapshot_id) listing
    → get_from_bucket store listing bucket id
      ≡ decoded store (lookup (generate_key store s.generated_at s.snapshot_id) bucket)
unfolding get_from_bucket
get_from_bucket-IsFirst store bucket listing s front id e first =
    let key = generate_key store s.generated_at s.snapshot_id in
    let ends =
      subst (λ i. Ends id (generate_key store s.generated_at i)) (sym e)
        (generate_key-Ends store s.generated_at front id) in
    ap (object_at store bucket) (target_key-IsFirst id key listing first ends)

put_both-latest :
    (put_succeeds : String → Bool) (key latest data_ : String) (bucket : Bucket)
    → (put_both put_succeeds key latest data_ bucket).0 ≡ true
    → lookup latest (put_both put_succeeds key latest data_ bucket).1 ≡ some data_
put_both-latest put_succeeds key latest data_ bucket h =
    ground
      (arith, h, lookup-insert latest latest data_ (insert key data_ bucket), eq_iff latest latest)

latest-put_data :
    (store : S3Store) (put_succeeds : String → Bool) (s : Snapshot) (o : Option String)
    (bucket : Bucket)
    → ((data_ : String) → o ≡ some data_ → store.unmarshal data_ ≡ some (wire_snapshot s))
    → (put_data store put_succeeds s o bucket).0 ≡ true
    → decoded store (lookup (latest_key store) (put_data store put_succeeds s o bucket).1)
      ≡ some (wire_snapshot s)
latest-put_data store put_succeeds s none bucket roundtrip h = absurd (false≢true h)
latest-put_data store put_succeeds s (some data_) bucket roundtrip h =
    let key = generate_key store s.generated_at s.snapshot_id in
    ap (decoded store) (put_both-latest put_succeeds key (latest_key store) data_ bucket h)
    ∙ roundtrip data_ refl

-- When the decoder reads back what the JSON keeps of the snapshot, a snapshot whose save succeeds is
-- the latest one, but for the lifecycle details and the end of life date that its findings have
-- outside of the JSON.
pub latest-save_to_bucket :
    (store : S3Store) (put_succeeds : String → Bool) (s : Snapshot) (bucket : Bucket)
    → ((data_ : String)
        → store.marshal s ≡ some data_
        → store.unmarshal data_ ≡ some (wire_snapshot s))
    → (save_to_bucket store put_succeeds s bucket).0 ≡ true
    → latest_in_bucket store (save_to_bucket store put_succeeds s bucket).1 ≡ some (wire_snapshot s)
unfolding latest_in_bucket save_to_bucket
latest-save_to_bucket store put_succeeds s bucket roundtrip h =
    latest-put_data store put_succeeds s (store.marshal s) bucket roundtrip h
