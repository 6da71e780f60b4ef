-- ===== src/Inventory/Http/Retried.antt =====
-- pkg/inventory/wiz/http_client.go: which requests `doGraphQL` sends, and what it returns.
use version_guard.Base.{
  ℕ, zero, suc, ◌+◌, ◌≤◌, ◌≡◌, String, Bool, true, false, arith, ◌⊎◌, inl, inr, contains,
  Bool-cases,
}
use version_guard.Inventory.Http.{
  ReportResponse, HttpAnswer, GraphqlError, Decision, retry, finish, decide, go_on, try_from,
  do_graphql, max_retries, retries_exhausted, cancelled, status, graphql_error, unsent, unread,
  unparsable, unparsable_data, answered,
}

-- The answers after which the request is repeated: a bad status or a GraphQL error that tells of the
-- rate limit.
pub data IsRateLimited : HttpAnswer → Type 0 where
  in_body :
      (code : ℕ) (body : String)
      → contains body "Rate limit exceeded" ≡ true
      → IsRateLimited (status code body)
  in_error :
      (message : String)
      → contains message "Rate limit exceeded" ≡ true
      → IsRateLimited (graphql_error message)

-- The results of all other answers.
pub data IsResult : HttpAnswer → GraphqlError ⊎ ReportResponse → Type 0 where
  not_sent : IsResult unsent (inl GraphqlError.request_failed)
  not_read : IsResult unread (inl GraphqlError.read_failed)
  bad_status :
      (code : ℕ) (body : String)
      → contains body "Rate limit exceeded" ≡ false
      → IsResult (status code body) (inl (GraphqlError.bad_status code))
  not_graphql : IsResult unparsable (inl GraphqlError.not_graphql)
  error :
      (message : String)
      → contains message "Rate limit exceeded" ≡ false
      → IsResult (graphql_error message) (inl (GraphqlError.reported message))
  bad_data : IsResult unparsable_data (inl GraphqlError.bad_data)
  report : (r : ReportResponse) → IsResult (answered r) (inr r)

abbrev Decides : HttpAnswer → Decision → Type 0
Decides a retry = IsRateLimited a
Decides a (finish result) = IsResult a result

decide-Decides : (a : HttpAnswer) → Decides a (decide a)
unfolding decide
decide-Decides unsent = not_sent
decide-Decides unread = not_read
decide-Decides unparsable = not_graphql
decide-Decides unparsable_data = bad_data
decide-Decides (answered r) = report r
decide-Decides (status code body) = elim (Bool-cases (contains body "Rate limit exceeded")) [
  | inl e ↦ rw e (in_body code body e)
  | inr e ↦ rw e (bad_status code body e)
]
decide-Decides (graphql_error message) =
    elim (Bool-cases (contains message "Rate limit exceeded")) [
      | inl e ↦ rw e (in_error message e)
      | inr e ↦ rw e (error message e)
    ]

-- The requests from the number `i` on, of which so many are left: the result, and the number of all
-- requests that were sent.
pub data Retries (send : ℕ → HttpAnswer) (is_done : ℕ → Bool)
    : ℕ → ℕ → GraphqlError ⊎ ReportResponse → ℕ → Type 0 where
  gives_up : (i : ℕ) → Retries send is_done 0 i (inl retries_exhausted) i
  ends :
      (left i : ℕ) (result : GraphqlError ⊎ ReportResponse)
      → IsResult (send i) result
      → Retries send is_done (suc left) i result (suc i)
  is_cancelled :
      (left i : ℕ)
      → IsRateLimited (send i)
      → is_done i ≡ true
      → Retries send is_done (suc left) i (inl cancelled) (suc i)
  repeats :
      (left i sent : ℕ) (result : GraphqlError ⊎ ReportResponse)
      → IsRateLimited (send i)
      → is_done i ≡ false
      → Retries send is_done left (suc i) result sent
      → Retries send is_done (suc left) i result sent

module _ (send : ℕ → HttpAnswer) (is_done : ℕ → Bool) where
  go_on-Retries :
      (left i : ℕ) (d : Decision) (later : (GraphqlError ⊎ ReportResponse) × ℕ)
      → Decides (send i) d
      → Retries send is_done left (suc i) later.0 later.1
      → let answer = go_on send is_done i d later in
        Retries send is_done (suc left) i answer.0 answer.1
  go_on-Retries left i (finish result) later h g = ends left i result h
  go_on-Retries left i retry later h g = elim (Bool-cases (is_done i)) [
    | inl e ↦ rw e (is_cancelled left i h e)
    | inr e ↦ rw e (repeats left i later.1 later.0 h e g)
  ]

  try_from-Retries :
      (left i : ℕ)
      → let answer = try_from send is_done left i in Retries send is_done left i answer.0 answer.1
  unfolding try_from
  try_from-Retries zero i = gives_up i
  try_from-Retries (suc left) i =
      go_on-Retries left i (decide (send i)) (try_from send is_done left (suc i))
        (decide-Decides (send i)) (try_from-Retries left (suc i))

  Retries-bounds :
      (left i sent : ℕ) (result : GraphqlError ⊎ ReportResponse)
      → Retries send is_done left i result sent
      → (i ≤ sent) × (sent ≤ left + i)
  Retries-bounds left i sent result (gives_up j) = (omega arith, omega arith)
  Retries-bounds left i sent result (ends l j r h) = (omega arith, omega arith)
  Retries-bounds left i sent result (is_cancelled l j h e) = (omega arith, omega arith)
  Retries-bounds left i sent result (repeats l j n r h e later) =
      let b = Retries-bounds l (suc j) n r later in (omega (arith, b.0), omega (arith, b.1))

-- The client sends at most five requests. After each of the first four it sends another one exactly
-- when the answer tells of the rate limit and the wait is not cut short. It returns the result of the
-- first answer that does not tell of the rate limit, the error of the context that ended in a wait, or
-- after five answers of the rate limit an error.
pub do_graphql-Retries :
    (send : ℕ → HttpAnswer) (is_done : ℕ → Bool)
    → let answer = do_graphql send is_done in
      Retries send is_done 5 0 answer.0 answer.1 × (answer.1 ≤ 5)
unfolding do_graphql
do_graphql-Retries send is_done =
    let run = try_from-Retries send is_done max_retries 0 in
    (run, omega (arith, (Retries-bounds send is_done 5 0 _ _ run).1))
