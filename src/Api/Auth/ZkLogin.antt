-- ===== src/Api/Auth/ZkLogin.antt =====
-- verifyZkLogin of apps/api/src/modules/auth/auth.service.ts. Decoding a token and deriving an
-- address from it are the libraries' functions, which may throw; what the node says of the epoch is an
-- argument.
use brine_vault.Base.{
  ℕ, ◌+◌, ltb, ◌&&◌, ◌<◌, ◌≤◌, ◌↔◌, Option, none, some, Bool, true, false, if◌then◌else◌, Result,
  ok, err, ◌≡◌, refl, arith, ap, ap₂,
}
use brine_vault.Api.Session.{AuthStore}
use brine_vault.Api.Auth.{Draw, Tokens, start_session}

pub data ZkError : Type 0 where
  malformed_jwt invalid_jwt no_address node_unreachable expired_epoch invalid_epoch
        invalid_zk_proof :
      ZkError

-- Which claims a decoded token has.
pub record DecodedJwt : Type 0 where
  pub has_iss : Bool
  pub has_sub : Bool

-- The lengths of the three lists of proof points, 0 for a list that is missing.
pub record ZkProof : Type 0 where
  pub a_length : ℕ
  pub b_length : ℕ
  pub c_length : ℕ

pub record ZkLoginRequest : Type 0 where
  pub jwt : ℕ
  pub zk_proof : ZkProof
  pub max_epoch : ℕ
  pub salt : ℕ

abbrev pub max_epoch_ahead : ℕ
max_epoch_ahead = 10

-- What the node answers: nothing, a state without an epoch, for which `Number(undefined)` is NaN, or
-- an epoch. A comparison with NaN is false.
pub data ChainEpoch : Type 0 where
  unreachable unknown : ChainEpoch
  epoch : ℕ → ChainEpoch

abbrev pub is_expired : ℕ → ChainEpoch → Bool
is_expired max_epoch unreachable = false
is_expired max_epoch unknown = false
is_expired max_epoch (epoch n) = ltb max_epoch n

abbrev pub is_ahead : ℕ → ChainEpoch → Bool
is_ahead max_epoch unreachable = false
is_ahead max_epoch unknown = false
is_ahead max_epoch (epoch n) = ltb (n + max_epoch_ahead) max_epoch

abbrev pub is_unreachable : ChainEpoch → Bool
is_unreachable unreachable = true
is_unreachable unknown = false
is_unreachable (epoch n) = false

abbrev pub has_points : ZkProof → Bool
has_points p = ltb 0 p.a_length && (ltb 0 p.b_length && ltb 0 p.c_length)

-- The policy that the login follows: from when to when a proof may hold.
abbrev pub InWindow : ℕ → ChainEpoch → Type 0
InWindow max_epoch unreachable = ⊥
InWindow max_epoch unknown = Unit
InWindow max_epoch (epoch n) = (n ≤ max_epoch) × (max_epoch ≤ n + 10)

abbrev Points : ZkProof → Type 0
Points p = (0 < p.a_length) × (0 < p.b_length) × (0 < p.c_length)

window_sound :
    (max_epoch : ℕ) (chain : ChainEpoch)
    → is_unreachable chain ≡ false
    → is_expired max_epoch chain ≡ false
    → is_ahead max_epoch chain ≡ false
    → InWindow max_epoch chain
window_sound max_epoch unreachable h k l = absurd (cc)
window_sound max_epoch unknown h k l = tt
window_sound max_epoch (epoch n) h k l = (ground arith, ground arith)

window_complete :
    (max_epoch : ℕ) (chain : ChainEpoch)
    → InWindow max_epoch chain
    → (is_unreachable chain ≡ false)
      × (is_expired max_epoch chain ≡ false)
      × (is_ahead max_epoch chain ≡ false)
window_complete max_epoch unreachable w = absurd w
window_complete max_epoch unknown w = (refl, refl, refl)
window_complete max_epoch (epoch n) w = (refl, ground (arith, w), ground (arith, w))

-- The four tests, one after the other.
abbrev tested :
    Bool → Bool → Bool → Bool → Tokens × AuthStore → AuthStore → Result ZkError Tokens × AuthStore
tested b1 b2 b3 b4 r s =
    if b1
    then (err node_unreachable, s)
    else if b2
    then (err expired_epoch, s)
    else if b3
    then (err invalid_epoch, s)
    else if b4
    then (ok r.0, r.1)
    else (err invalid_zk_proof, s)

passed :
    (b1 b2 b3 b4 : Bool) (r : Tokens × AuthStore) (s s' : AuthStore) (tokens : Tokens)
    → tested b1 b2 b3 b4 r s ≡ (ok tokens, s')
    → (b1 ≡ false) × (b2 ≡ false) × (b3 ≡ false) × (b4 ≡ true) × (r ≡ (tokens, s'))
passed true b2 b3 b4 r s s' tokens h = absurd (cc)
passed false true b3 b4 r s s' tokens h = absurd (cc)
passed false false true b4 r s s' tokens h = absurd (cc)
passed false false false false r s s' tokens h = absurd (cc)
passed false false false true r s s' tokens h =
    let handed : r.0 ≡ tokens = cc in
    let stored : r.1 ≡ s' = ap (λ x. x.1) h in
    (refl, refl, refl, refl, ap₂ (λ a b. (a, b)) handed stored)

claimed :
    (b : Bool) (next : Result ZkError Tokens × AuthStore) (s s' : AuthStore) (tokens : Tokens)
    → (if b then next else (err invalid_jwt, s)) ≡ (ok tokens, s')
    → (b ≡ true) × (next ≡ (ok tokens, s'))
claimed true next s s' tokens h = (refl, h)
claimed false next s s' tokens h = absurd (cc)

module _ (decode_jwt : ℕ → Option DecodedJwt) (jwt_to_address : ℕ → ℕ → Option ℕ)
    (hash : ℕ → ℕ) where
  -- Steps 3 to 6, for a token with its claims and its address.
  unfoldable pub zk_login_checked :
      Draw → ZkLoginRequest → ChainEpoch → ℕ → ℕ → ℕ → AuthStore → Result ZkError Tokens × AuthStore
  zk_login_checked d dto chain ip user_agent address s =
      let (tokens, s') = start_session hash d address ip user_agent s in
      if is_unreachable chain
      then (err node_unreachable, s)
      else if is_expired dto.max_epoch chain
      then (err expired_epoch, s)
      else if is_ahead dto.max_epoch chain
      then (err invalid_epoch, s)
      else if has_points dto.zk_proof
      then (ok tokens, s')
      else (err invalid_zk_proof, s)

  unfoldable pub zk_login_addressed :
      Option ℕ
      → Draw
      → ZkLoginRequest
      → ChainEpoch
      → ℕ
      → ℕ
      → AuthStore
      → Result ZkError Tokens × AuthStore
  zk_login_addressed none d dto chain ip user_agent s = (err no_address, s)
  zk_login_addressed (some address) d dto chain ip user_agent s =
      zk_login_checked d dto chain ip user_agent address s

  unfoldable pub zk_login_decoded :
      Option DecodedJwt
      → Draw
      → ZkLoginRequest
      → ChainEpoch
      → ℕ
      → ℕ
      → AuthStore
      → Result ZkError Tokens × AuthStore
  zk_login_decoded none d dto chain ip user_agent s = (err malformed_jwt, s)
  zk_login_decoded (some payload) d dto chain ip user_agent s =
      if payload.has_iss && payload.has_sub
      then zk_login_addressed (jwt_to_address dto.jwt dto.salt) d dto chain ip user_agent s
      else (err invalid_jwt, s)

  unfoldable pub verify_zk_login :
      Draw → ZkLoginRequest → ChainEpoch → ℕ → ℕ → AuthStore → Result ZkError Tokens × AuthStore
  verify_zk_login d dto chain ip user_agent s =
      zk_login_decoded (decode_jwt dto.jwt) d dto chain ip user_agent s

  -- All that the login asks of a request: no signature and no proof is checked.
  abbrev pub Accepts : ZkLoginRequest → ChainEpoch → ℕ → Type 0
  Accepts dto chain address =
      ((payload : DecodedJwt) × (decode_jwt dto.jwt ≡ some payload)
        × (payload.has_iss ≡ true)
        × (payload.has_sub ≡ true))
      × (jwt_to_address dto.jwt dto.salt ≡ some address)
      × InWindow dto.max_epoch chain
      × (0 < dto.zk_proof.a_length)
      × (0 < dto.zk_proof.b_length)
      × (0 < dto.zk_proof.c_length)

  -- A login succeeds exactly when the token decodes to claims with an issuer and a subject, an address
  -- comes from the token and the salt, the greatest epoch is from the current one to 10 ahead or the
  -- node names no epoch, and the three lists of points are not empty; what it hands out and writes is
  -- the new session of that address. Neither the token's signature nor the points of the proof matter.
  pub verify_zk_login_iff :
      (d : Draw) (dto : ZkLoginRequest) (chain : ChainEpoch) (ip user_agent : ℕ) (s s' : AuthStore)
      (tokens : Tokens)
      → (verify_zk_login d dto chain ip user_agent s ≡ (ok tokens, s')) ↔ (
          (address : ℕ) × Accepts dto chain address
          × (start_session hash d address ip user_agent s ≡ (tokens, s')))
  unfolding verify_zk_login zk_login_decoded zk_login_addressed zk_login_checked
  verify_zk_login_iff d dto chain ip user_agent s s' tokens = (
    sound (decode_jwt dto.jwt) refl,
    λ (
      address,
      ((payload, decoded, iss, sub), derived, window, a_points, b_points, c_points),
      same,
    ).
        let (reached, live, near) = window_complete dto.max_epoch chain window in
        let filled : has_points dto.zk_proof ≡ true =
          ground (arith, a_points, b_points, c_points) in
        rw decoded (
          rw iss (
            rw sub (
              rw derived
                (rw reached (rw live (rw near (rw filled (ap (λ r. (ok r.0, r.1)) same)))))))),
  )
    where
      addressed :
          (o : Option ℕ)
          → jwt_to_address dto.jwt dto.salt ≡ o
          → zk_login_addressed o d dto chain ip user_agent s ≡ (ok tokens, s')
          → (address : ℕ) × (jwt_to_address dto.jwt dto.salt ≡ some address)
            × InWindow dto.max_epoch chain
            × Points dto.zk_proof
            × (start_session hash d address ip user_agent s ≡ (tokens, s'))
      addressed none e h = absurd (cc)
      addressed (some address) e h =
          let (reached, live, near, filled, same) =
            passed (is_unreachable chain) (is_expired dto.max_epoch chain)
              (is_ahead dto.max_epoch chain) (has_points dto.zk_proof)
              (start_session hash d address ip user_agent s) s s' tokens h in
          (
            address,
            e,
            window_sound dto.max_epoch chain reached live near,
            ground (arith, filled),
            same,
          )

      sound :
          (o : Option DecodedJwt)
          → decode_jwt dto.jwt ≡ o
          → zk_login_decoded o d dto chain ip user_agent s ≡ (ok tokens, s')
          → (address : ℕ) × Accepts dto chain address
            × (start_session hash d address ip user_agent s ≡ (tokens, s'))
      sound none e h = absurd (cc)
      sound (some payload) e h =
          let (claims, h2) = claimed (payload.has_iss && payload.has_sub) _ s s' tokens h in
          let (address, derived, window, points, same) =
            addressed (jwt_to_address dto.jwt dto.salt) refl h2 in
          (
            address,
            (
              (payload, e, ground (arith, claims), ground (arith, claims)),
              derived,
              window,
              points.0,
              points.1,
              points.2,
            ),
            same,
          )
