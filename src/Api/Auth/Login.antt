-- ===== src/Api/Auth/Login.antt =====
-- What a login shows: verifyAndLogin of apps/api/src/modules/auth/auth.service.ts.
use brine_vault.Base.{
  ℕ, Option, none, some, Bool, true, false, if◌then◌else◌, if-elim, Result, ok, err, ◌≡◌, refl, sym,
  ap, ◌∙◌, arith,
}
use brine_vault.Api.Session.{
  Challenge, AuthStore, redis_get, redis_del, value_of, redis_get-del, consume_challenge,
  create_session,
}
use brine_vault.Api.Auth.{
  AuthError, invalid_nonce, invalid_signature, Tokens, LoginRequest, Draw, start_session, signed_by,
  login_with, verify_and_login,
}

signed_by_sound : (a : ℕ) (o : Option ℕ) → signed_by a o ≡ true → o ≡ some a
signed_by_sound a none h = absurd (ground arith)
signed_by_sound a (some r) h = ap some (ground arith)

ok_branch :
    (b : Bool) (t : Tokens) (e : AuthError) (s s' : AuthStore) (tokens : Tokens)
    → (if◌then◌else◌ {A = Result AuthError Tokens × AuthStore} b (ok t, s) (err e, s')).0
      ≡ ok tokens
    → (b ≡ true) × (t ≡ tokens)
ok_branch true t e s s' tokens h = (refl, cc)
ok_branch false t e s s' tokens h = cc

module _ (recover : ℕ → ℕ → ℕ → Option ℕ) (hash : ℕ → ℕ) where
  login_with-challenges :
      (d : Draw) (dto : LoginRequest) (ip ua : ℕ) (c : Option Challenge) (s : AuthStore)
      → (login_with recover hash d dto ip ua c s).1.challenges ≡ s.challenges
  unfolding login_with start_session create_session
  login_with-challenges d dto ip ua none s = refl
  login_with-challenges d dto ip ua (some c) s =
      if-elim (λ (r : Result AuthError Tokens × AuthStore). r.1.challenges ≡ s.challenges)
        (signed_by dto.login_address (recover dto.nonce c.timestamp dto.signature))
        (
          ok (start_session hash d dto.login_address ip ua s).0,
          (start_session hash d dto.login_address ip ua s).1,
        )
        (err invalid_signature, s) (λ e. refl) (λ e. refl)

  -- A nonce serves one login at most: after a call of verifyAndLogin with it, whether that call
  -- succeeded or not, every further call with the same nonce fails with INVALID_NONCE, as long as
  -- the nonce is not stored again.
  pub verify_and_login-once :
      (d d' : Draw) (dto dto' : LoginRequest) (ip ua ip' ua' : ℕ) (s : AuthStore)
      → dto'.nonce ≡ dto.nonce
      → (verify_and_login recover hash d' dto' ip' ua'
          (verify_and_login recover hash d dto ip ua s).1).0
        ≡ err invalid_nonce
  unfolding verify_and_login consume_challenge login_with
  verify_and_login-once d d' dto dto' ip ua ip' ua' s same = rw gone refl
    where
      gone :
          redis_get d'.now dto'.nonce (verify_and_login recover hash d dto ip ua s).1.challenges
          ≡ none
      gone =
          ap (redis_get d'.now dto'.nonce) (
            login_with-challenges d dto ip ua (value_of (redis_get d.now dto.nonce s.challenges)) _)
          ∙ ap (λ n. redis_get d'.now dto'.nonce (redis_del n s.challenges)) (sym same)
          ∙ redis_get-del d'.now dto'.nonce s.challenges

  login_with_sound :
      (d : Draw) (dto : LoginRequest) (ip ua : ℕ) (c : Option Challenge) (s : AuthStore)
      (tokens : Tokens)
      → (login_with recover hash d dto ip ua c s).0 ≡ ok tokens
      → (ch : Challenge) × (c ≡ some ch)
        × (recover dto.nonce ch.timestamp dto.signature ≡ some dto.login_address)
        × (tokens.access_token.claim_address ≡ dto.login_address)
  unfolding login_with start_session
  login_with_sound d dto ip ua none s tokens h = cc
  login_with_sound d dto ip ua (some c) s tokens h =
      let (signed, same) =
        ok_branch (signed_by dto.login_address (recover dto.nonce c.timestamp dto.signature))
          (start_session hash d dto.login_address ip ua s).0 invalid_signature
          (start_session hash d dto.login_address ip ua s).1 s tokens h in
      (
        c,
        refl,
        signed_by_sound dto.login_address _ signed,
        sym (ap (λ t. t.access_token.claim_address) same),
      )

  -- A call of verifyAndLogin that succeeds had a live challenge stored under its nonce, and its
  -- signature of that nonce and the challenge's timestamp recovers the address of the request,
  -- which is the address of the access token.
  pub verify_and_login_sound :
      (d : Draw) (dto : LoginRequest) (ip ua : ℕ) (s : AuthStore) (tokens : Tokens)
      → (verify_and_login recover hash d dto ip ua s).0 ≡ ok tokens
      → (ch : Challenge) × (value_of (redis_get d.now dto.nonce s.challenges) ≡ some ch)
        × (recover dto.nonce ch.timestamp dto.signature ≡ some dto.login_address)
        × (tokens.access_token.claim_address ≡ dto.login_address)
  unfolding verify_and_login consume_challenge
  verify_and_login_sound d dto ip ua s tokens h = login_with_sound d dto ip ua _ _ tokens h
