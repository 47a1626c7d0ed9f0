-- ===== src/Api/Guards/Authorised.antt =====
-- AuthGuard and CsrfGuard: apps/api/src/common/guards/auth.guard.ts and csrf.guard.ts, with the CSRF
-- token of apps/api/src/modules/auth/auth.service.ts. The check of an access token and the keyed hash
-- are parameters.
use brine_vault.Base.{
  ℕ, ◌-◌, ltb, Option, none, some, List, Bool, true, false, not, if-elim, Result, ok, err, ◌>>=◌,
  ◌>>◌, guard, or_throw, >>=-eq-ok, or_throw-eq-ok, ◌≡◌, ◌≢◌, sym, ap, ◌∙◌,
}
use brine_vault.Api.Session.{
  AuthStore, get_session, is_token_blacklisted, redis_get-del, delete_session, blacklist_token,
  value_of,
}
use brine_vault.Api.Auth.{Claims, logout}

pub data RequestError : Type 0 where
  missing_token token_revoked session_gone invalid_token csrf_invalid : RequestError

pub record JwtPayload : Type 0 where
  pub claims : Claims
  pub jti : ℕ

-- `headers.authorization`: a bearer token, empty or not, or another text.
pub data Authorization : Type 0 where
  bearer : Option ℕ → Authorization
  other_scheme : Authorization

-- `extractToken`, and none for the empty text.
unfoldable pub extract_token : Option Authorization → Option ℕ
extract_token none = none
extract_token (some other_scheme) = none
extract_token (some (bearer token)) = token

get_session-logout :
    (now later sid jti exp : ℕ) (s : AuthStore)
    → get_session later sid (logout now sid jti exp s) ≡ none
unfolding get_session logout delete_session blacklist_token
get_session-logout now later sid jti exp s =
    if-elim (λ (x : AuthStore). get_session later sid x ≡ none) (ltb 0 (exp - now))
      (blacklist_token now jti (exp - now) (delete_session sid s)) (delete_session sid s)
      (λ e. ap value_of (redis_get-del later sid s.sessions))
      (λ e. ap value_of (redis_get-del later sid s.sessions))

some_injective : {a b : JwtPayload} {o : Option JwtPayload} → o ≡ some a → o ≡ some b → a ≡ b
some_injective h k = cc

module _ (verify : ℕ → ℕ → Option JwtPayload) where
  -- The payload that becomes the request's user, none on a public route.
  unfoldable pub auth_guard :
      ℕ → Bool → Option Authorization → AuthStore → Result RequestError (Option JwtPayload)
  auth_guard now true authorization s = ok none
  auth_guard now false authorization s = do
    token ← or_throw (extract_token authorization) missing_token
    payload ← or_throw (verify now token) invalid_token
    guard (not (is_token_blacklisted now payload.jti s)) token_revoked
    session ← or_throw (get_session now payload.claims.sid s) session_gone
    ok (some payload)

  -- After a logout no request of the session passes the guard of a protected route, at any time and
  -- with any access token of that session, also one that was issued by a refresh.
  pub auth_guard-after_logout :
      (now later sid jti exp token : ℕ) (payload passed : JwtPayload) (s : AuthStore)
      → verify later token ≡ some payload
      → payload.claims.sid ≡ sid
      → auth_guard later false (some (bearer (some token))) (logout now sid jti exp s)
        ≢ ok (some passed)
  unfolding auth_guard extract_token
  auth_guard-after_logout now later sid jti exp token payload passed s verified mine h =
      let s' = logout now sid jti exp s in
      let (p, has, rest) = >>=-eq-ok (or_throw (verify later token) invalid_token) _ h in
      let same : payload ≡ p =
        some_injective verified (or_throw-eq-ok (verify later token) invalid_token has) in
      let (u, listed, rest2) =
        >>=-eq-ok (guard (not (is_token_blacklisted later p.jti s')) token_revoked) _ rest in
      let (session, found, last) =
        >>=-eq-ok (or_throw (get_session later p.claims.sid s') session_gone) _ rest2 in
      let present = or_throw-eq-ok (get_session later p.claims.sid s') session_gone found in
      let gone : get_session later p.claims.sid s' ≡ none =
        ap (λ (q : JwtPayload). get_session later q.claims.sid s') (sym same)
        ∙ ap (λ i. get_session later i s') mine
        ∙ get_session-logout now later sid jti exp s in
      cc

pub data Method : Type 0 where
  get_method head_method options_method : Method
  mutation : ℕ → Method

-- The text of a CSRF token, split at the dots; only its two parts are looked at.
pub data CsrfToken : Type 0 where
  two_parts : ℕ → List ℕ → CsrfToken
  other_parts : CsrfToken

module _ (hmac : ℕ → List ℕ) (same_bytes : List ℕ → List ℕ → Bool) where
  unfoldable pub verify_csrf_token : CsrfToken → Bool
  verify_csrf_token other_parts = false
  verify_csrf_token (two_parts random provided) = same_bytes provided (hmac random)

  unfoldable pub csrf_guard : Method → Bool → Option CsrfToken → Result RequestError (Unit {0})
  csrf_guard get_method is_public token = ok tt
  csrf_guard head_method is_public token = ok tt
  csrf_guard options_method is_public token = ok tt
  csrf_guard (mutation m) true token = ok tt
  csrf_guard (mutation m) false none = err csrf_invalid
  csrf_guard (mutation m) false (some token) = guard (verify_csrf_token token) csrf_invalid
