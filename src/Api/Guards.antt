-- ===== src/Api/Guards.antt =====
-- RateLimitGuard and RoleGuard: apps/api/src/common/guards/rate-limit.guard.ts and role.guard.ts.
-- The sorted set of a caller is the list of its scores, the newest first: each request adds a
-- member of its own, drawn at random. Times are milliseconds.
pub mod Window
pub mod Removed
pub mod Authorised
use brine_vault.Base.{
  ℕ, ◌+◌, ◌*◌, ltb, leb, Option, none, some, List, [], ◌∷◌, length, Bool, true, false, ◌||◌,
  if◌then◌else◌, Result, ok, err,
}
use brine_vault.Shared.Roles.{has_role}
use brine_vault.Db.Tables.{MemberRow, Store, rows_where}
use brine_vault.Db.Chain.{find_member}

pub record RateLimit : Type 0 where
  pub limit : ℕ
  -- In seconds.
  pub window : ℕ

-- A score that `zremrangebyscore(key, 0, now - window * 1000)` leaves.
abbrev pub in_window : RateLimit → ℕ → ℕ → Bool
in_window config now score = ltb now (score + config.window * 1000)

-- The pipeline: removal, insertion.
unfoldable pub record_request : RateLimit → ℕ → List ℕ → List ℕ
record_request config now scores = now ∷ rows_where (in_window config now) scores

-- Whether the request passes, and the set after it; without a configuration every request does.
unfoldable pub rate_limit : Option RateLimit → ℕ → List ℕ → Bool × List ℕ
rate_limit none now scores = (true, scores)
rate_limit (some config) now scores =
    let scores' = record_request config now scores in
    ((if ltb config.limit (length scores') then false else true), scores')

pub data GuardError : Type 0 where
  no_user insufficient_role : GuardError

pub record RequestUser : Type 0 where
  pub org_role : ℕ
  pub user_address : ℕ

abbrev pub member_has : ℕ → Option MemberRow → Bool
member_has required none = false
member_has required (some m) = has_role m.role required

-- The check of the route's pool; the id of the pool is looked up as a dataroom's.
abbrev pub pool_has : ℕ → ℕ → Option ℕ → Store → Bool
pool_has required address none s = false
pool_has required address (some pool_id) s = member_has required (find_member pool_id address s)

unfoldable pub role_guard :
    Option ℕ → Option RequestUser → Option ℕ → Store → Result GuardError (Unit {0})
role_guard none user pool_id s = ok tt
role_guard (some required) none pool_id s = err no_user
role_guard (some required) (some user) pool_id s =
    if has_role user.org_role required || pool_has required user.user_address pool_id s
    then ok tt
    else err insufficient_role
