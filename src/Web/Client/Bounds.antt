-- ===== src/Web/Client/Bounds.antt =====
-- How much a call sends: apps/web/src/lib/api/client.ts.
use brine_vault.Base.{
  ℕ, zero, suc, ◌+◌, ◌-◌, ◌*◌, ◌^◌, ◌≤◌, ◌==◌, Option, List, [], ◌∷◌, length, Bool, true, false,
  ◌≡◌, refl, ap, if-elim, arith,
}
use brine_vault.Web.Client.{
  Json, Response, Outcome, ApiRequest, Sent, ApiClient, Answer, send, is_ok, api_call, refresh_call,
  parsed, null_value, read_error, syntax_error, body_lost, network_error, other_error, answered,
  report_unauthorised, read_body, on_response, on_outcome, attempt_loop, fetch_again, on_token,
  on_refreshed, attempt_refresh, after_refresh, refresh_and_retry, fetch, max_retries,
}

abbrev is_refresh : Sent → ℕ
is_refresh (api_call r t) = 0
is_refresh (refresh_call t) = 1

unfoldable pub refreshes : List Sent → ℕ
refreshes [] = 0
refreshes (x ∷ sent) = is_refresh x + refreshes sent

-- A call that starts at `c` and ends at `after` sends at most `calls` requests, of them at most
-- `renewals` to renew the token, and reports an unauthorised user at most once.
abbrev pub Within : ℕ → ℕ → ApiClient → ApiClient → Type 0
Within calls renewals c after =
    (length after.sent ≤ calls + length c.sent)
    × (refreshes after.sent ≤ renewals + refreshes c.sent)
    × (after.unauthorised ≤ 1 + c.unauthorised)

-- What holds of the state after an outcome, from the states that its branches end in.
on_response-state :
    (P : ApiClient → Type 0) (r : Response) (on_401 retry : ApiClient → Answer) (c : ApiClient)
    → P c
    → P (on_401 c).1
    → P (retry c).1
    → P (on_response r on_401 retry c).1
unfolding on_response
on_response-state P r on_401 retry c here h k =
    if-elim (λ (a : Answer). P a.1) (r.status == 401) (on_401 c) _ (λ e. h)
      (λ e.
        if-elim (λ (a : Answer). P a.1) (is_ok r.status) _ _
          (λ e'.
            if-elim (λ (a : Answer). P a.1) (r.status == 204) _ _ (λ e2. here) (λ e2. body r.json))
          (λ e'. error r.json))
  where
    body : (j : Json) → P (read_body j c retry).1
    body (parsed b) = here
    body null_value = here
    body syntax_error = here
    body body_lost = k

    error : (j : Json) → P (read_error r.status j c retry).1
    error (parsed b) = here
    error null_value = k
    error syntax_error = here
    error body_lost = here

pub on_outcome-state :
    (P : ApiClient → Type 0) (o : Outcome) (on_401 retry : ApiClient → Answer) (c : ApiClient)
    → P c
    → P (on_401 c).1
    → P (retry c).1
    → P (on_outcome o on_401 retry c).1
unfolding on_outcome
on_outcome-state P network_error on_401 retry c here h k = k
on_outcome-state P other_error on_401 retry c here h k = here
on_outcome-state P (answered r) on_401 retry c here h k =
    on_response-state P r on_401 retry c here h k

on_token-state :
    (j : Json) (c : ApiClient)
    → ((on_token j c).1.sent ≡ c.sent) × ((on_token j c).1.unauthorised ≡ c.unauthorised)
unfolding on_token
on_token-state (parsed b) c = (refl, refl)
on_token-state null_value c = (refl, refl)
on_token-state syntax_error c = (refl, refl)
on_token-state body_lost c = (refl, refl)

on_refreshed-state :
    (o : Outcome) (c : ApiClient)
    → ((on_refreshed o c).1.sent ≡ c.sent) × ((on_refreshed o c).1.unauthorised ≡ c.unauthorised)
unfolding on_refreshed
on_refreshed-state network_error c = (refl, refl)
on_refreshed-state other_error c = (refl, refl)
on_refreshed-state (answered r) c =
    if-elim (λ (x : Bool × ApiClient). (x.1.sent ≡ c.sent) × (x.1.unauthorised ≡ c.unauthorised))
      (is_ok r.status) (on_token r.json c) (false, c) (λ e. on_token-state r.json c)
      (λ e. (refl, refl))

module _ (network : ℕ → Outcome) where
  attempt_loop-Within :
      (on_401 : ApiClient → Answer) (request : ApiRequest) (token : Option ℕ)
      (calls renewals left : ℕ)
      → ((c : ApiClient) → Within calls renewals c (on_401 c).1)
      → (c : ApiClient)
      → Within
          (suc left + calls)
          renewals
          c
          (attempt_loop network on_401 (api_call request token) left c).1
  unfolding attempt_loop refreshes
  attempt_loop-Within on_401 request token calls renewals zero bound c =
      let (l, m, n) = bound (send (api_call request token) c) in
      on_outcome-state (λ s. Within (suc zero + calls) renewals c s) (network c.next) on_401 _
        (send (api_call request token) c) (omega arith, omega arith, omega arith)
        (omega (arith, l), omega (arith, m), omega (arith, n))
        (omega arith, omega arith, omega arith)
  attempt_loop-Within on_401 request token calls renewals (suc left) bound c =
      let (l, m, n) = bound (send (api_call request token) c) in
      let later : ApiClient = record c {
        sent = api_call request token ∷ c.sent;
        next = suc c.next;
        waits = 2 ^ (max_retries - left) * 1000 ∷ c.waits;
      } in
      let (p, q, r) = attempt_loop-Within on_401 request token calls renewals left bound later in
      on_outcome-state (λ s. Within (suc (suc left) + calls) renewals c s) (network c.next) on_401 _
        (send (api_call request token) c) (omega arith, omega arith, omega arith)
        (omega (arith, l), omega (arith, m), omega (arith, n))
        (omega (arith, p), omega (arith, q), omega (arith, r))

  fetch_again-Within :
      (request : ApiRequest) (c : ApiClient) → Within 4 0 c (fetch_again network request c).1
  unfolding fetch_again
  fetch_again-Within request c =
      attempt_loop-Within report_unauthorised request c.token 0 0 3
        (λ s. (omega arith, omega arith, omega arith)) c

  after_refresh-Within :
      (request : ApiRequest) (c : ApiClient) (outcome : Bool × ApiClient)
      → (outcome.1.sent ≡ refresh_call c.token ∷ c.sent) × (outcome.1.unauthorised ≡ c.unauthorised)
      → Within 5 1 c (after_refresh network request outcome).1
  unfolding after_refresh refreshes
  after_refresh-Within request c (true, after) same =
      let (l, m, n) = fetch_again-Within request after in
      (
        omega (arith, l, ap length same.0),
        omega (arith, m, ap refreshes same.0),
        omega (arith, n, same.1),
      )
  after_refresh-Within request c (false, after) same =
      (omega (arith, ap length same.0), omega (arith, ap refreshes same.0), omega (arith, same.1))

  refresh_and_retry-Within :
      (request : ApiRequest) (c : ApiClient) → Within 5 1 c (refresh_and_retry network request c).1
  unfolding refresh_and_retry attempt_refresh
  refresh_and_retry-Within request c =
      let start = send (refresh_call c.token) c in
      after_refresh-Within request c (on_refreshed (network c.next) start)
        (on_refreshed-state (network c.next) start)

  -- Whatever the network answers, one call sends at most 9 requests (4 tries, one renewal of the token
  -- and 4 more tries), of which at most one renews the token, and reports an unauthorised user at most
  -- once.
  pub fetch-Within :
      (request : ApiRequest) (c : ApiClient) → Within 9 1 c (fetch network request c).1
  unfolding fetch
  fetch-Within request c =
      attempt_loop-Within (refresh_and_retry network request) request c.token 5 1 3
        (refresh_and_retry-Within request) c
