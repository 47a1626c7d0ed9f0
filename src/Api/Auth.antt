-- ===== src/Api/Auth.antt =====
-- AuthService: apps/api/src/modules/auth/auth.service.ts. The signature check of the Sui library and
-- the hash of refresh tokens are parameters; a new token, a new session id and the time are
-- arguments; an access token stands for its claims.
pub mod Login
pub mod Refresh
pub mod ZkLogin
use brine_vault.Base.{
  ℕ, zero, suc, ◌+◌, ◌-◌, ltb, ◌==◌, not, Option, none, some, List, [], ◌∷◌, Bool, true, false,
  if◌then◌else◌, Result, ok, err,
}
use brine_vault.Api.Session.{
  Challenge, Session, UserRow, AuthStore, consume_challenge, create_session, get_session,
  update_session, session_by_hash, delete_session, blacklist_token,
}

pub data AuthError : Type 0 where
  invalid_nonce invalid_signature session_expired token_reuse_detected : AuthError

pub record Claims : Type 0 where
  pub sub : ℕ
  pub claim_address : ℕ
  pub claim_org_id : Option ℕ
  pub org_role : ℕ
  pub sid : ℕ

-- The access token, the refresh token, and the role shown in `user`.
pub record Tokens : Type 0 where
  pub access_token : Claims
  pub refresh_token : ℕ
  pub role_in_org : ℕ

pub record LoginRequest : Type 0 where
  pub login_address : ℕ
  pub signature : ℕ
  pub nonce : ℕ

-- The values that a call draws: its time, a session id, a refresh token.
pub record Draw : Type 0 where
  pub now : ℕ
  pub new_sid : ℕ
  pub new_token : ℕ

abbrev pub value_or : Option ℕ → ℕ → ℕ
value_or none otherwise = otherwise
value_or (some n) otherwise = n

-- `upsertByWallet`, with the row that it returns.
unfoldable pub upsert_user : ℕ → ℕ → ℕ → List UserRow → UserRow × List UserRow
upsert_user now id address [] =
    let row : UserRow = record {
      id = id;
      primary_wallet_address = address;
      user_org_id = none;
      role_in_org = none;
      display_name = none;
      last_login_at = now;
    } in
    (row, row ∷ [])
upsert_user now id address (u ∷ us) =
    let (row, rest) = upsert_user now id address us in
    let known = record u { last_login_at = now } in
    if u.primary_wallet_address == address then (known, known ∷ us) else (row, u ∷ rest)

unfoldable pub find_user : ℕ → List UserRow → Option UserRow
find_user id [] = none
find_user id (u ∷ us) = if u.id == id then some u else find_user id us

abbrev pub role_of : Option UserRow → ℕ
role_of none = 0
role_of (some u) = value_or u.role_in_org 0

-- Step 2: the address that the signature of the challenge message recovers, if it verifies.
abbrev pub signed_by : ℕ → Option ℕ → Bool
signed_by address none = false
signed_by address (some recovered) = recovered == address

-- The new tokens of a session: the access token gets the role 0.
abbrev pub renewed : Draw → ℕ → Session → AuthStore → Tokens
renewed d sid session s = record {
  access_token = record {
    sub = session.user_id;
    claim_address = session.address;
    claim_org_id = session.org_id;
    org_role = 0;
    sid = sid;
  };
  refresh_token = d.new_token;
  role_in_org = role_of (find_user session.user_id s.users);
}

module _ (hash : ℕ → ℕ) where
  -- Steps 3 to 7: the user, the session and the tokens.
  unfoldable pub start_session : Draw → ℕ → ℕ → ℕ → AuthStore → Tokens × AuthStore
  start_session d address ip user_agent s =
      let (user, users) = upsert_user d.now s.next_user_id address s.users in
      (
        record {
          access_token = record {
            sub = user.id;
            claim_address = address;
            claim_org_id = user.user_org_id;
            org_role = value_or user.role_in_org 0;
            sid = d.new_sid;
          };
          refresh_token = d.new_token;
          role_in_org = value_or user.role_in_org 0;
        },
        create_session d.now d.new_sid user.id address user.user_org_id (hash d.new_token) ip
            user_agent (record s { users = users; next_user_id = suc s.next_user_id }),
      )

  unfoldable pub refresh_with :
      Draw → ℕ → ℕ → Option Session → AuthStore → Result AuthError Tokens × AuthStore
  refresh_with d token sid none s = (err session_expired, s)
  refresh_with d token sid (some session) s =
      if session.refresh_token_hash == hash token
      then (ok (renewed d sid session s), update_session d.now sid (hash d.new_token) s)
      else (err token_reuse_detected, delete_session sid s)

  unfoldable pub refresh : Draw → ℕ → ℕ → AuthStore → Result AuthError Tokens × AuthStore
  refresh d token sid s = refresh_with d token sid (get_session d.now sid s) s

  unfoldable pub refresh_found :
      Draw → Option (ℕ × Session) → AuthStore → Result AuthError Tokens × AuthStore
  refresh_found d none s = (err session_expired, s)
  refresh_found d (some (sid, session)) s =
      (ok (renewed d sid session s), update_session d.now sid (hash d.new_token) s)

  unfoldable pub refresh_by_cookie : Draw → ℕ → AuthStore → Result AuthError Tokens × AuthStore
  refresh_by_cookie d token s = refresh_found d (session_by_hash d.now (hash token) s.sessions) s

module _ (recover : ℕ → ℕ → ℕ → Option ℕ) (hash : ℕ → ℕ) where
  unfoldable pub login_with :
      Draw
      → LoginRequest
      → ℕ
      → ℕ
      → Option Challenge
      → AuthStore
      → Result AuthError Tokens × AuthStore
  login_with d dto ip user_agent none s = (err invalid_nonce, s)
  login_with d dto ip user_agent (some c) s =
      let (tokens, s') = start_session hash d dto.login_address ip user_agent s in
      if signed_by dto.login_address (recover dto.nonce c.timestamp dto.signature)
      then (ok tokens, s')
      else (err invalid_signature, s)

  unfoldable pub verify_and_login :
      Draw → LoginRequest → ℕ → ℕ → AuthStore → Result AuthError Tokens × AuthStore
  verify_and_login d dto ip user_agent s =
      let (challenge, s') = consume_challenge d.now dto.nonce s in
      login_with d dto ip user_agent challenge s'

unfoldable pub logout : ℕ → ℕ → ℕ → ℕ → AuthStore → AuthStore
logout now sid jti exp s =
    let s' = delete_session sid s in
    if ltb 0 (exp - now) then blacklist_token now jti (exp - now) s' else s'
