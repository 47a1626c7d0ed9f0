-- ===== src/Sui/Params.antt =====
-- The parameters of the builders: the interfaces of apps/api/src/infra/sui/sui-tx.service.ts. A hash
-- is the list of the values of its hexadecimal digits and a numeric text the list of its digits,
-- since the request schemas let no other characters in.
use brine_vault.Base.{ℕ, Bool, Option, List}
use brine_vault.Sui.Transaction.{MoveFunction}

pub record BuildCreatePoolParams : Type 0 where
  pub sender_address : ℕ
  pub admin_config_id : ℕ
  pub org_id_hash : List ℕ
  pub name : ℕ
  pub borrower_name_hash : List ℕ
  pub currency : ℕ
  pub target_notional : List ℕ
  pub expected_maturity_date : ℕ
  pub encryption_scheme : ℕ
  pub tags : List ℕ

pub record BuildStateTransitionParams : Type 0 where
  pub sender_address : ℕ
  pub admin_config_id : ℕ
  pub pool_object_id : ℕ
  pub target_function : MoveFunction
  pub extra_args : Option (List ℕ)

pub record BuildCancelPoolParams : Type 0 where
  pub sender_address : ℕ
  pub admin_config_id : ℕ
  pub pool_object_id : ℕ

pub record BuildAddMemberParams : Type 0 where
  pub sender_address : ℕ
  pub admin_config_id : ℕ
  pub pool_object_id : ℕ
  pub member_address : ℕ
  pub role : ℕ
  pub tags : List ℕ

pub record BuildRemoveMemberParams : Type 0 where
  pub sender_address : ℕ
  pub admin_config_id : ℕ
  pub pool_object_id : ℕ
  pub member_address : ℕ

pub record BuildUpdateMemberRoleParams : Type 0 where
  pub sender_address : ℕ
  pub admin_config_id : ℕ
  pub pool_object_id : ℕ
  pub member_address : ℕ
  pub new_role : ℕ

pub record BuildCreateFolderParams : Type 0 where
  pub sender_address : ℕ
  pub admin_config_id : ℕ
  pub pool_object_id : ℕ
  pub name : ℕ
  pub parent_id : Option ℕ
  pub visible_to_roles : ℕ

pub record BuildCreateDocumentParams : Type 0 where
  pub sender_address : ℕ
  pub admin_config_id : ℕ
  pub pool_object_id : ℕ
  pub folder_id : ℕ
  pub doc_type : ℕ
  pub title : ℕ
  pub required_flag : Bool
  pub visible_to_roles : ℕ
  pub walrus_blob_id : ℕ
  pub content_hash : List ℕ
  pub size_bytes : ℕ
  pub change_log : ℕ
  pub tags : List ℕ

pub record BuildAddVersionParams : Type 0 where
  pub sender_address : ℕ
  pub admin_config_id : ℕ
  pub pool_object_id : ℕ
  pub doc_object_id : ℕ
  pub walrus_blob_id : ℕ
  pub content_hash : List ℕ
  pub size_bytes : ℕ
  pub change_log : ℕ

pub record BuildArchiveDocumentParams : Type 0 where
  pub sender_address : ℕ
  pub admin_config_id : ℕ
  pub pool_object_id : ℕ
  pub doc_object_id : ℕ

pub record BuildSubmitReviewParams : Type 0 where
  pub sender_address : ℕ
  pub admin_config_id : ℕ
  pub pool_object_id : ℕ
  pub doc_object_id : ℕ
  pub status : ℕ
  pub comment_hash : Option (List ℕ)

pub record BuildRecordIcDecisionParams : Type 0 where
  pub sender_address : ℕ
  pub admin_config_id : ℕ
  pub pool_object_id : ℕ
  pub decision_text : ℕ
  pub pdf_blob_id : ℕ
  pub committee_members : List ℕ
  pub votes : List ℕ
  pub related_doc_ids : List ℕ
