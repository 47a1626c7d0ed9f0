-- ===== src/Api/Auth/Refresh.antt =====
-- The rotation of refresh tokens and the end of a session: refresh and logout of
-- apps/api/src/modules/auth/auth.service.ts.
use brine_vault.Base.{
  ℕ, ◌+◌, ◌-◌, ◌<◌, ltb, ◌==◌, none, some, List, [], ◌∷◌, Bool, true, false, if◌then◌else◌, ◌≡◌,
  ◌≢◌, refl, ap, ◌∙◌, Result, ok, err, arith, subst,
}
use mathlib.Core.Option.{some-injective}
use brine_vault.Api.Session.{
  Entry, Session, AuthStore, is_live, redis_get, redis_get-del, redis_get-set, value_of, is_some,
  get_session, update_session, replace_session, delete_session, blacklist_token,
  is_token_blacklisted,
}
use brine_vault.Api.Auth.{
  AuthError, token_reuse_detected, Tokens, Draw, renewed, refresh_with, refresh, logout,
}

-- An entry that `get` finds has not expired.
redis_get-live :
    {V : Type 0} (now k : ℕ) (es : List (Entry V)) (e : Entry V)
    → redis_get now k es ≡ some e
    → now < e.expires_at
unfolding redis_get
redis_get-live now k [] e h = cc
redis_get-live now k (x ∷ es) e h = go (is_live now k x) refl h (redis_get-live now k es e)
  where
    go :
        (b : Bool)
        → is_live now k x ≡ b
        → (if b then some x else redis_get now k es) ≡ some e
        → (redis_get now k es ≡ some e → now < e.expires_at)
        → now < e.expires_at
    go true live same later =
        subst (λ y. now < y.expires_at) (some-injective _ _ same) (ground arith)
    go false dead same later = later same

-- The entry of a session after its token changed.
abbrev pub rotated : ℕ → ℕ → ℕ → Entry Session → Entry Session
rotated now sid new_hash e = record {
  key = sid;
  value = record e.value { refresh_token_hash = new_hash; last_active_at = now };
  expires_at = now + (e.expires_at - now);
}

update_session-gets :
    (now later sid new_hash : ℕ) (s : AuthStore) (e : Entry Session)
    → redis_get now sid s.sessions ≡ some e
    → later < e.expires_at
    → redis_get later sid (update_session now sid new_hash s).sessions
      ≡ some (rotated now sid new_hash e)
unfolding update_session replace_session
update_session-gets now later sid new_hash s e found h =
    let live = redis_get-live now sid s.sessions e found in
    let test : ltb 0 (e.expires_at - now) ≡ true = ground arith in
    rw found (rw test (redis_get-set now later sid (e.expires_at - now) _ s.sessions (omega arith)))

module _ (hash : ℕ → ℕ) where
  refresh-ok :
      (d : Draw) (token sid : ℕ) (s : AuthStore) (e : Entry Session)
      → redis_get d.now sid s.sessions ≡ some e
      → e.value.refresh_token_hash ≡ hash token
      → refresh hash d token sid s
        ≡ (ok (renewed d sid e.value s), update_session d.now sid (hash d.new_token) s)
  unfolding refresh refresh_with get_session
  refresh-ok d token sid s e found same =
      let test : (e.value.refresh_token_hash == hash token) ≡ true = ground arith in
      rw found (rw test refl)

  refresh-refused :
      (d : Draw) (token sid : ℕ) (s : AuthStore) (e : Entry Session)
      → redis_get d.now sid s.sessions ≡ some e
      → e.value.refresh_token_hash ≢ hash token
      → refresh hash d token sid s ≡ (err token_reuse_detected, delete_session sid s)
  unfolding refresh refresh_with get_session
  refresh-refused d token sid s e found differ =
      let test : (e.value.refresh_token_hash == hash token) ≡ false = ground arith in
      rw found (rw test refl)

  -- Refresh tokens rotate. For a live session with the presented token, refresh succeeds; until the
  -- session expires the new token is accepted after it, while the old one, if the two hash
  -- differently, is refused with TOKEN_REUSE_DETECTED and ends the session for every token.
  pub refresh-rotates :
      (d d' : Draw) (token sid now : ℕ) (s : AuthStore) (e : Entry Session)
      → redis_get d.now sid s.sessions ≡ some e
      → e.value.refresh_token_hash ≡ hash token
      → hash d.new_token ≢ hash token
      → d'.now < e.expires_at
      → let s' = (refresh hash d token sid s).1 in
        ((refresh hash d token sid s).0 ≡ ok (renewed d sid e.value s))
        × ((refresh hash d' d.new_token sid s').0
            ≡ ok (renewed d' sid (rotated d.now sid (hash d.new_token) e).value s'))
        × ((refresh hash d' token sid s').0 ≡ err token_reuse_detected)
        × (get_session now sid (refresh hash d' token sid s').1 ≡ none)
  unfolding get_session delete_session
  refresh-rotates d d' token sid now s e found same differ h =
      let first = refresh-ok d token sid s e found same in
      let next : redis_get d'.now sid (refresh hash d token sid s).1.sessions
          ≡ some (rotated d.now sid (hash d.new_token) e) =
        ap (λ (r : Result AuthError Tokens × AuthStore). redis_get d'.now sid r.1.sessions) first
        ∙ update_session-gets d.now d'.now sid (hash d.new_token) s e found h in
      let again = refresh-refused d' token sid _ _ next differ in
      (
        ap (λ (r : Result AuthError Tokens × AuthStore). r.0) first,
        ap (λ (r : Result AuthError Tokens × AuthStore). r.0)
            (refresh-ok d' d.new_token sid _ _ next refl),
        ap (λ (r : Result AuthError Tokens × AuthStore). r.0) again,
        ap (λ (r : Result AuthError Tokens × AuthStore). value_of (redis_get now sid r.1.sessions))
              again
            ∙ ap value_of (redis_get-del now sid _),
      )

-- After a logout with an access token that has not expired, the session is gone, and until the
-- token expires it is on the blacklist.
pub logout-ends :
    (now later sid jti exp : ℕ) (s : AuthStore)
    → now < exp
    → later < exp
    → (get_session later sid (logout now sid jti exp s) ≡ none)
      × (is_token_blacklisted later jti (logout now sid jti exp s) ≡ true)
unfolding logout delete_session blacklist_token get_session is_token_blacklisted
logout-ends now later sid jti exp s h k =
    let test : ltb 0 (exp - now) ≡ true = ground arith in
    rw test (
      ap value_of (redis_get-del later sid s.sessions),
      ap is_some (redis_get-set now later jti (exp - now) tt s.blacklist (omega arith)),
    )
