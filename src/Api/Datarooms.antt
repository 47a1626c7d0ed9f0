-- ===== src/Api/Datarooms.antt =====
-- DataroomsService: apps/api/src/modules/datarooms/datarooms.service.ts.
use brine_vault.Base.{ℕ, Option, List, Result, ok, ◌>>=◌, or_throw}
use brine_vault.Db.Tables.{DataroomRow, MemberRow, Store}
use brine_vault.Db.Chain.{find_dataroom_by_pool, find_active_members}
use brine_vault.Sui.Transaction.{Transaction}
use brine_vault.Sui.Builders.{
  build_add_member_tx, build_remove_member_tx, build_update_member_role_tx, build_create_folder_tx,
}
use brine_vault.Api.Access.{ApiError, dataroom_not_found, pool_access}
use brine_vault.Api.Pools.{AdminDto}

pub record AddMemberDto : Type 0 where
  pub admin_config_id : ℕ
  pub address : ℕ
  pub role : ℕ
  pub tags : List ℕ

pub record UpdateMemberRoleDto : Type 0 where
  pub admin_config_id : ℕ
  pub new_role : ℕ

pub record CreateFolderDto : Type 0 where
  pub admin_config_id : ℕ
  pub name : ℕ
  pub parent_id : Option ℕ
  pub visible_to_roles : ℕ

unfoldable pub get_dataroom : ℕ → Option ℕ → Store → Result ApiError (DataroomRow × List MemberRow)
get_dataroom pool_id user_org s = do
  pool ← pool_access pool_id user_org s
  room ← or_throw (find_dataroom_by_pool pool_id s) dataroom_not_found
  ok (room, find_active_members pool_id s)

module _ (package_id : ℕ) where
  unfoldable pub build_add_member :
      ℕ → ℕ → Option ℕ → AddMemberDto → Store → Result ApiError Transaction
  build_add_member pool_id sender user_org dto s = do
    pool ← pool_access pool_id user_org s
    ok (
        build_add_member_tx package_id (record {
          sender_address = sender;
          admin_config_id = dto.admin_config_id;
          pool_object_id = pool.sui_object_id;
          member_address = dto.address;
          role = dto.role;
          tags = dto.tags;
        }))

  unfoldable pub build_remove_member :
      ℕ → ℕ → ℕ → Option ℕ → AdminDto → Store → Result ApiError Transaction
  build_remove_member pool_id member_address sender user_org dto s = do
    pool ← pool_access pool_id user_org s
    ok (
        build_remove_member_tx package_id (record {
          sender_address = sender;
          admin_config_id = dto.admin_config_id;
          pool_object_id = pool.sui_object_id;
          member_address = member_address;
        }))

  unfoldable pub build_update_member_role :
      ℕ → ℕ → ℕ → Option ℕ → UpdateMemberRoleDto → Store → Result ApiError Transaction
  build_update_member_role pool_id member_address sender user_org dto s = do
    pool ← pool_access pool_id user_org s
    ok (
        build_update_member_role_tx package_id (record {
          sender_address = sender;
          admin_config_id = dto.admin_config_id;
          pool_object_id = pool.sui_object_id;
          member_address = member_address;
          new_role = dto.new_role;
        }))

  unfoldable pub build_create_folder :
      ℕ → ℕ → Option ℕ → CreateFolderDto → Store → Result ApiError Transaction
  build_create_folder pool_id sender user_org dto s = do
    pool ← pool_access pool_id user_org s
    ok (
        build_create_folder_tx package_id (record {
          sender_address = sender;
          admin_config_id = dto.admin_config_id;
          pool_object_id = pool.sui_object_id;
          name = dto.name;
          parent_id = dto.parent_id;
          visible_to_roles = dto.visible_to_roles;
        }))
