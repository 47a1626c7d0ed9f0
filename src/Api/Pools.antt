-- ===== src/Api/Pools.antt =====
-- PoolsService: apps/api/src/modules/pools/pools.service.ts. The package id is an argument;
-- sending a signed transaction is left to the Sui node.
pub mod Removed
use brine_vault.Base.{
  ℕ, Option, none, some, List, Bool, true, false, Result, ok, err, ◌>>=◌, ◌>>◌, guard, or_throw,
}
use brine_vault.Db.Tables.{PoolRow, DataroomRow, MemberRow, Store}
use brine_vault.Db.Chain.{find_dataroom_by_pool, find_member}
use brine_vault.Db.Listing.{find_pools_by_org, count_pools_by_org}
use brine_vault.Sui.Transaction.{Argument, MoveFunction, Transaction}
use brine_vault.Sui.Params.{BuildCreatePoolParams}
use brine_vault.Sui.Builders.{build_create_pool_tx, build_state_transition_tx, build_cancel_pool_tx}
use brine_vault.Api.Orgs.{is_own}
use brine_vault.Api.Access.{
  ApiError, not_in_org, not_dataroom_member, pool_access, PageQuery, Page, offset,
}

pub record CreatePoolDto : Type 0 where
  pub admin_config_id : ℕ
  pub org_id_hash : List ℕ
  pub name : ℕ
  pub borrower_name_hash : List ℕ
  pub currency : ℕ
  pub target_notional : List ℕ
  pub expected_maturity_date : ℕ
  pub encryption_scheme : ℕ
  pub tags : List ℕ

-- The schema takes any JSON values as extra arguments; a JSON value is a number.
pub record TransitionPoolDto : Type 0 where
  pub admin_config_id : ℕ
  pub target_function : MoveFunction
  pub extra_args : Option (List ℕ)

-- cancelPoolSchema, removeMemberSchema and archiveDocumentSchema.
pub record AdminDto : Type 0 where
  pub admin_config_id : ℕ

unfoldable pub list_pools : ℕ → Option ℕ → PageQuery → Store → Result ApiError (Page PoolRow)
list_pools org_id user_org query s = do
  guard (is_own user_org org_id) not_in_org
  ok (record {
    data_rows = find_pools_by_org org_id query.limit (offset query) s;
    total = count_pools_by_org org_id s;
    query = query;
  })

-- `!membership || !membership.isActive`, the other way round.
abbrev pub is_active_member : Option MemberRow → Bool
is_active_member none = false
is_active_member (some m) = m.is_active

-- A pool that has no data room yet is open to its organisation.
unfoldable pub member_guard : ℕ → Option DataroomRow → Store → Result ApiError (Unit {0})
member_guard address none s = ok tt
member_guard address (some room) s =
    guard (is_active_member (find_member room.id address s)) not_dataroom_member

unfoldable pub get_pool : ℕ → ℕ → Option ℕ → Store → Result ApiError PoolRow
get_pool pool_id user_address user_org s = do
  pool ← pool_access pool_id user_org s
  member_guard user_address (find_dataroom_by_pool pool_id s) s
  ok pool

module _ (package_id : ℕ) where
  unfoldable pub build_create_pool : ℕ → CreatePoolDto → Transaction
  build_create_pool sender dto = build_create_pool_tx package_id (record {
    sender_address = sender;
    admin_config_id = dto.admin_config_id;
    org_id_hash = dto.org_id_hash;
    name = dto.name;
    borrower_name_hash = dto.borrower_name_hash;
    currency = dto.currency;
    target_notional = dto.target_notional;
    expected_maturity_date = dto.expected_maturity_date;
    encryption_scheme = dto.encryption_scheme;
    tags = dto.tags;
  })

  unfoldable pub build_transition :
      ℕ → ℕ → Option ℕ → TransitionPoolDto → Store → Result ApiError Transaction
  build_transition pool_id sender user_org dto s = do
    pool ← pool_access pool_id user_org s
    ok (
        build_state_transition_tx package_id (record {
          sender_address = sender;
          admin_config_id = dto.admin_config_id;
          pool_object_id = pool.sui_object_id;
          target_function = dto.target_function;
          extra_args = dto.extra_args;
        }))

  unfoldable pub build_cancel : ℕ → ℕ → Option ℕ → AdminDto → Store → Result ApiError Transaction
  build_cancel pool_id sender user_org dto s = do
    pool ← pool_access pool_id user_org s
    ok (
        build_cancel_pool_tx package_id (record {
          sender_address = sender;
          admin_config_id = dto.admin_config_id;
          pool_object_id = pool.sui_object_id;
        }))
