-- ===== src/Api/Session.antt =====
-- SessionService: apps/api/src/modules/auth/session.service.ts. Each key prefix of the cache is a
-- table of entries that expire; times are seconds, and ids, hashes and addresses are numbers.
use brine_vault.Base.{
  ℕ, ◌+◌, ◌-◌, ◌<◌, ltb, ◌==◌, Option, none, some, List, [], ◌∷◌, Bool, true, false, ◌&&◌,
  if◌then◌else◌, if-elim, ◌≡◌, refl, ap, ◌∙◌, arith,
}

pub record Entry (V : Type 0) : Type 0 where
  pub key : ℕ
  pub value : V
  pub expires_at : ℕ

module _ {V : Type 0} where
  abbrev pub is_live : ℕ → ℕ → Entry V → Bool
  is_live now k e = (e.key == k) && ltb now e.expires_at

  -- `redis.get`, with the entry's expiry for `redis.ttl`.
  unfoldable pub redis_get : ℕ → ℕ → List (Entry V) → Option (Entry V)
  redis_get now k [] = none
  redis_get now k (e ∷ es) = if is_live now k e then some e else redis_get now k es

  unfoldable pub redis_del : ℕ → List (Entry V) → List (Entry V)
  redis_del k [] = []
  redis_del k (e ∷ es) = if e.key == k then redis_del k es else e ∷ redis_del k es

  -- `redis.set(key, value, 'EX', ttl)`.
  unfoldable pub redis_set : ℕ → ℕ → V → ℕ → List (Entry V) → List (Entry V)
  redis_set now k v ttl es = record { key = k; value = v; expires_at = now + ttl } ∷ redis_del k es

  pub redis_get-del : (now k : ℕ) (es : List (Entry V)) → redis_get now k (redis_del k es) ≡ none
  unfolding redis_get redis_del
  redis_get-del now k [] = refl
  redis_get-del now k (e ∷ es) =
      if-elim (λ xs. redis_get now k xs ≡ none) (e.key == k) (redis_del k es) (e ∷ redis_del k es)
        (λ h. redis_get-del now k es)
        (λ h.
          ap (λ b. if b && ltb now e.expires_at then some e else redis_get now k (redis_del k es)) h
          ∙ redis_get-del now k es)

  pub redis_get-set :
      (now later k ttl : ℕ) (v : V) (es : List (Entry V))
      → later < now + ttl
      → redis_get later k (redis_set now k v ttl es)
        ≡ some (record { key = k; value = v; expires_at = now + ttl })
  unfolding redis_get redis_set
  redis_get-set now later k ttl v es h =
      ap
        (λ b.
          if b
          then some (record { key = k; value = v; expires_at = now + ttl })
          else redis_get later k (redis_del k es))
        test
    where
      test : is_live later k (record { key = k; value = v; expires_at = now + ttl }) ≡ true
      test = ground arith

pub record Challenge : Type 0 where
  pub timestamp : ℕ
  pub ip : ℕ

pub record Session : Type 0 where
  pub user_id : ℕ
  pub address : ℕ
  pub org_id : Option ℕ
  pub refresh_token_hash : ℕ
  pub created_at : ℕ
  pub last_active_at : ℕ
  pub session_ip : ℕ
  pub user_agent : ℕ

pub record UserRow : Type 0 where
  pub id : ℕ
  pub primary_wallet_address : ℕ
  pub user_org_id : Option ℕ
  pub role_in_org : Option ℕ
  pub display_name : Option ℕ
  pub last_login_at : ℕ

-- The cache, and the users table of the database.
pub record AuthStore : Type 0 where
  pub challenges : List (Entry Challenge)
  pub sessions : List (Entry Session)
  pub blacklist : List (Entry (Unit {0}))
  pub users : List UserRow
  pub next_user_id : ℕ

-- AUTH_CONFIG.
abbrev pub challenge_ttl_seconds : ℕ
challenge_ttl_seconds = 300

abbrev pub refresh_token_ttl_seconds : ℕ
refresh_token_ttl_seconds = 604800

unfoldable pub store_challenge : ℕ → ℕ → ℕ → AuthStore → AuthStore
store_challenge now nonce ip s = record s {
  challenges =
      redis_set now nonce (record { timestamp = now; ip = ip }) challenge_ttl_seconds s.challenges;
}

abbrev pub value_of : {V : Type 0} → Option (Entry V) → Option V
value_of none = none
value_of (some e) = some e.value

-- The read and the removal are one pipeline.
unfoldable pub consume_challenge : ℕ → ℕ → AuthStore → Option Challenge × AuthStore
consume_challenge now nonce s = (
  value_of (redis_get now nonce s.challenges),
  record s { challenges = redis_del nonce s.challenges },
)

-- `sid` is the new random id.
unfoldable pub create_session : ℕ → ℕ → ℕ → ℕ → Option ℕ → ℕ → ℕ → ℕ → AuthStore → AuthStore
create_session now sid user_id address org_id hash ip user_agent s = record s {
  sessions =
      redis_set now sid
        (record {
          user_id = user_id;
          address = address;
          org_id = org_id;
          refresh_token_hash = hash;
          created_at = now;
          last_active_at = now;
          session_ip = ip;
          user_agent = user_agent;
        })
        refresh_token_ttl_seconds s.sessions;
}

unfoldable pub get_session : ℕ → ℕ → AuthStore → Option Session
get_session now sid s = value_of (redis_get now sid s.sessions)

-- `updateSession`, from the entry that `get` finds: the new value keeps the time to live.
unfoldable pub replace_session : ℕ → ℕ → ℕ → Option (Entry Session) → AuthStore → AuthStore
replace_session now sid hash none s = s
replace_session now sid hash (some e) s =
    if ltb 0 (e.expires_at - now)
    then record s {
      sessions =
          redis_set now sid (record e.value { refresh_token_hash = hash; last_active_at = now })
            (e.expires_at - now) s.sessions;
    }
    else s

unfoldable pub update_session : ℕ → ℕ → ℕ → AuthStore → AuthStore
update_session now sid hash s = replace_session now sid hash (redis_get now sid s.sessions) s

-- The scan of all sessions, in the order of the table.
unfoldable pub session_by_hash : ℕ → ℕ → List (Entry Session) → Option (ℕ × Session)
session_by_hash now hash [] = none
session_by_hash now hash (e ∷ es) =
    if ltb now e.expires_at && (e.value.refresh_token_hash == hash)
    then some (e.key, e.value)
    else session_by_hash now hash es

unfoldable pub delete_session : ℕ → AuthStore → AuthStore
delete_session sid s = record s { sessions = redis_del sid s.sessions }

unfoldable pub blacklist_token : ℕ → ℕ → ℕ → AuthStore → AuthStore
blacklist_token now jti ttl s = record s { blacklist = redis_set now jti tt ttl s.blacklist }

abbrev pub is_some : {A : Type 0} → Option A → Bool
is_some none = false
is_some (some a) = true

unfoldable pub is_token_blacklisted : ℕ → ℕ → AuthStore → Bool
is_token_blacklisted now jti s = is_some (redis_get now jti s.blacklist)
