-- ===== src/Web/Client.antt =====
-- ApiClient: apps/web/src/lib/api/client.ts. The network is a parameter: what becomes of the request
-- with each number. The client's state records what it sent, how long it waited, the token that its
-- callbacks keep, and how often it reported an unauthorised user.
pub mod Bounds
pub mod Offline
use brine_vault.Base.{
  ℕ, zero, suc, ◌-◌, ◌*◌, ◌^◌, ◌==◌, ◌&&◌, true, false, leb, ltb, Option, none, some, List, [], ◌∷◌,
  Bool, if◌then◌else◌, Result, ok, err,
}

pub record JsonBody : Type 0 where
  pub content : ℕ
  pub message : Option ℕ
  pub code : Option ℕ
  pub access_token : ℕ

-- `res.json()`: a value, the value null, a text that does not parse, or a connection that breaks (a
-- TypeError).
pub data Json : Type 0 where
  parsed : JsonBody → Json
  null_value : Json
  syntax_error : Json
  body_lost : Json

pub record Response : Type 0 where
  pub status : ℕ
  pub json : Json

-- What becomes of a `fetch`: a TypeError, another error, or a response.
pub data Outcome : Type 0 where
  network_error : Outcome
  other_error : Outcome
  answered : Response → Outcome

pub record ApiRequest : Type 0 where
  pub method : ℕ
  pub path : ℕ
  pub body : Option ℕ

-- A request that was sent, with the token in its header.
pub data Sent : Type 0 where
  api_call : ApiRequest → Option ℕ → Sent
  refresh_call : Option ℕ → Sent

pub record ApiClient : Type 0 where
  pub token : Option ℕ
  pub sent : List Sent
  pub next : ℕ
  pub waits : List ℕ
  pub unauthorised : ℕ

pub data ClientError : Type 0 where
  unauthorised_error : ClientError
  request_error : ℕ → Option JsonBody → ClientError
  network_failure other_failure invalid_json : ClientError

-- The value of a call, none for a response without content or with the content null, and the state after it.
abbrev pub Answer : Type 0
Answer = Result ClientError (Option JsonBody) × ApiClient

abbrev pub send : Sent → ApiClient → ApiClient
send request c = record c { sent = request ∷ c.sent; next = suc c.next }

-- `res.ok`.
abbrev pub is_ok : ℕ → Bool
is_ok status = leb 200 status && ltb status 300

abbrev pub max_retries : ℕ
max_retries = 3

-- `this.onUnauthorised()`, and the error.
abbrev pub report_unauthorised : ApiClient → Answer
report_unauthorised c = (err unauthorised_error, record c { unauthorised = suc c.unauthorised })

abbrev pub read_body : Json → ApiClient → (ApiClient → Answer) → Answer
read_body (parsed b) c retry = (ok (some b), c)
read_body null_value c retry = (ok none, c)
read_body syntax_error c retry = (err invalid_json, c)
read_body body_lost c retry = retry c

-- The error of a response, by `res.json().catch(...)`: `error.message` of null is a TypeError, which
-- the loop retries.
abbrev pub read_error : ℕ → Json → ApiClient → (ApiClient → Answer) → Answer
read_error status (parsed b) c retry = (err (request_error status (some b)), c)
read_error status null_value c retry = retry c
read_error status syntax_error c retry = (err (request_error status none), c)
read_error status body_lost c retry = (err (request_error status none), c)

-- The body of the loop for one response: the status 401, an error, no content, or content.
unfoldable pub on_response :
    Response → (ApiClient → Answer) → (ApiClient → Answer) → ApiClient → Answer
on_response r on_401 retry c =
    if r.status == 401
    then on_401 c
    else if is_ok r.status
    then if r.status == 204 then (ok none, c) else read_body r.json c retry
    else read_error r.status r.json c retry

unfoldable pub on_outcome :
    Outcome → (ApiClient → Answer) → (ApiClient → Answer) → ApiClient → Answer
on_outcome network_error on_401 retry c = retry c
on_outcome other_error on_401 retry c = (err other_failure, c)
on_outcome (answered r) on_401 retry c = on_response r on_401 retry c

-- `this.onTokenRefreshed(data.access_token)`, which throws for the value null.
unfoldable pub on_token : Json → ApiClient → Bool × ApiClient
on_token (parsed b) c = (true, record c { token = some b.access_token })
on_token null_value c = (false, c)
on_token syntax_error c = (false, c)
on_token body_lost c = (false, c)

-- `attemptRefresh`, for the outcome of its request.
unfoldable pub on_refreshed : Outcome → ApiClient → Bool × ApiClient
on_refreshed (answered r) c = if is_ok r.status then on_token r.json c else (false, c)
on_refreshed network_error c = (false, c)
on_refreshed other_error c = (false, c)

module _ (network : ℕ → Outcome) where
  -- The `while` loop with some retries left; after the k-th failure it waits 2 ^ k seconds.
  unfoldable pub attempt_loop : (ApiClient → Answer) → Sent → ℕ → ApiClient → Answer
  attempt_loop on_401 request zero c =
      on_outcome (network c.next) on_401 (λ c'. (err network_failure, c')) (send request c)
  attempt_loop on_401 request (suc left) c =
      on_outcome (network c.next) on_401
        (λ c'.
          attempt_loop on_401 request left
            (record c' { waits = 2 ^ (max_retries - left) * 1000 ∷ c'.waits }))
        (send request c)

  -- `fetch` with `_isRetry`: the second time a 401 ends the call.
  unfoldable pub fetch_again : ApiRequest → ApiClient → Answer
  fetch_again request c = attempt_loop report_unauthorised (api_call request c.token) max_retries c

  unfoldable pub attempt_refresh : ApiClient → Bool × ApiClient
  attempt_refresh c = on_refreshed (network c.next) (send (refresh_call c.token) c)

  unfoldable pub after_refresh : ApiRequest → Bool × ApiClient → Answer
  after_refresh request (true, c) = fetch_again request c
  after_refresh request (false, c) = report_unauthorised c

  unfoldable pub refresh_and_retry : ApiRequest → ApiClient → Answer
  refresh_and_retry request c = after_refresh request (attempt_refresh c)

  -- `fetch` without `_isRetry`, which get, post, put and delete call.
  unfoldable pub fetch : ApiRequest → ApiClient → Answer
  fetch request c =
      attempt_loop (refresh_and_retry request) (api_call request c.token) max_retries c
