-- ===== src/Sui/Builders.antt =====
-- The builders of SuiTxService, apps/api/src/infra/sui/sui-tx.service.ts. A builder's result is the
-- transaction that it hands to the SDK's `build`; the bytes of it are the SDK's.
use brine_vault.Base.{ℕ, ◌+◌, ◌*◌, Option, none, some, List, [], ◌∷◌, ◌++◌, map}
use brine_vault.Sui.Transaction.{
  MoveModule, MoveFunction, Argument, Transaction, clock, object, pure_u8, pure_u64, pure_bool,
  pure_string, pure_address, pure_id, pure_vector_u8, pure_vector_string, pure_vector_address,
  pure_option_u64, pure_option_bytes, raw, pool_module, pool_entry, dataroom_entry, document_entry,
  create_pool, cancel_pool, add_member, remove_member, update_member_role, create_custom_folder,
  create_document, add_version, archive_document, submit_review, record_ic_approval,
  record_ic_rejection, record_ic_request_changes,
}
use brine_vault.Sui.Params.{
  BuildCreatePoolParams, BuildStateTransitionParams, BuildCancelPoolParams, BuildAddMemberParams,
  BuildRemoveMemberParams, BuildUpdateMemberRoleParams, BuildCreateFolderParams,
  BuildCreateDocumentParams, BuildAddVersionParams, BuildArchiveDocumentParams,
  BuildSubmitReviewParams, BuildRecordIcDecisionParams,
}

-- Two digits to a byte; a last single digit is a byte too.
unfoldable pub hex_to_bytes : List ℕ → List ℕ
hex_to_bytes [] = []
hex_to_bytes (h ∷ []) = h ∷ []
hex_to_bytes (h ∷ l ∷ hex) = (16 * h + l) ∷ hex_to_bytes hex

-- `BigInt(...)` of a text of decimal digits.
unfoldable pub big_int_from : ℕ → List ℕ → ℕ
big_int_from n [] = n
big_int_from n (d ∷ digits) = big_int_from (10 * n + d) digits

abbrev pub big_int : List ℕ → ℕ
big_int digits = big_int_from 0 digits

-- `!!text`, for a text that may be missing.
abbrev pub optional_bytes : Option (List ℕ) → Option (List ℕ)
optional_bytes none = none
optional_bytes (some []) = none
optional_bytes (some (d ∷ hex)) = some (hex_to_bytes (d ∷ hex))

-- `?? []`.
abbrev pub or_empty : Option (List ℕ) → List Argument
or_empty none = []
or_empty (some values) = map raw values

abbrev pub new_transaction : ℕ → ℕ → MoveModule → MoveFunction → List Argument → Transaction
new_transaction package_id sender m f args = record {
  sender = sender;
  target = record { package_id = package_id; target_module = m; target_function = f };
  arguments = args;
}

module _ (package_id : ℕ) where
  unfoldable pub build_create_pool_tx : BuildCreatePoolParams → Transaction
  build_create_pool_tx params =
      new_transaction package_id params.sender_address pool_module create_pool (
        object params.admin_config_id
        ∷ pure_vector_u8 (hex_to_bytes params.org_id_hash)
        ∷ pure_string params.name
        ∷ pure_vector_u8 (hex_to_bytes params.borrower_name_hash)
        ∷ pure_string params.currency
        ∷ pure_u64 (big_int params.target_notional)
        ∷ pure_u64 params.expected_maturity_date
        ∷ pure_u8 params.encryption_scheme
        ∷ pure_vector_string params.tags
        ∷ clock
        ∷ [])

  unfoldable pub build_state_transition_tx : BuildStateTransitionParams → Transaction
  build_state_transition_tx params =
      new_transaction package_id params.sender_address pool_entry params.target_function (
        object params.admin_config_id
        ∷ object params.pool_object_id
        ∷ (or_empty params.extra_args ++ (clock ∷ [])))

  unfoldable pub build_cancel_pool_tx : BuildCancelPoolParams → Transaction
  build_cancel_pool_tx params = build_state_transition_tx (record {
    sender_address = params.sender_address;
    admin_config_id = params.admin_config_id;
    pool_object_id = params.pool_object_id;
    target_function = cancel_pool;
    extra_args = none;
  })

  unfoldable pub build_add_member_tx : BuildAddMemberParams → Transaction
  build_add_member_tx params =
      new_transaction package_id params.sender_address dataroom_entry add_member (
        object params.admin_config_id
        ∷ object params.pool_object_id
        ∷ pure_address params.member_address
        ∷ pure_u8 params.role
        ∷ pure_vector_string params.tags
        ∷ clock
        ∷ [])

  unfoldable pub build_remove_member_tx : BuildRemoveMemberParams → Transaction
  build_remove_member_tx params =
      new_transaction package_id params.sender_address dataroom_entry remove_member (
        object params.admin_config_id
        ∷ object params.pool_object_id
        ∷ pure_address params.member_address
        ∷ clock
        ∷ [])

  unfoldable pub build_update_member_role_tx : BuildUpdateMemberRoleParams → Transaction
  build_update_member_role_tx params =
      new_transaction package_id params.sender_address dataroom_entry update_member_role (
        object params.admin_config_id
        ∷ object params.pool_object_id
        ∷ pure_address params.member_address
        ∷ pure_u8 params.new_role
        ∷ clock
        ∷ [])

  unfoldable pub build_create_folder_tx : BuildCreateFolderParams → Transaction
  build_create_folder_tx params =
      new_transaction package_id params.sender_address dataroom_entry create_custom_folder (
        object params.admin_config_id
        ∷ object params.pool_object_id
        ∷ pure_string params.name
        ∷ pure_option_u64 params.parent_id
        ∷ pure_u8 params.visible_to_roles
        ∷ clock
        ∷ [])

  unfoldable pub build_create_document_tx : BuildCreateDocumentParams → Transaction
  build_create_document_tx params =
      new_transaction package_id params.sender_address document_entry create_document (
        object params.admin_config_id
        ∷ object params.pool_object_id
        ∷ pure_u64 params.folder_id
        ∷ pure_u8 params.doc_type
        ∷ pure_string params.title
        ∷ pure_bool params.required_flag
        ∷ pure_u8 params.visible_to_roles
        ∷ pure_string params.walrus_blob_id
        ∷ pure_vector_u8 (hex_to_bytes params.content_hash)
        ∷ pure_u64 params.size_bytes
        ∷ pure_string params.change_log
        ∷ pure_vector_string params.tags
        ∷ clock
        ∷ [])

  unfoldable pub build_add_version_tx : BuildAddVersionParams → Transaction
  build_add_version_tx params =
      new_transaction package_id params.sender_address document_entry add_version (
        object params.admin_config_id
        ∷ object params.pool_object_id
        ∷ pure_id params.doc_object_id
        ∷ pure_string params.walrus_blob_id
        ∷ pure_vector_u8 (hex_to_bytes params.content_hash)
        ∷ pure_u64 params.size_bytes
        ∷ pure_string params.change_log
        ∷ clock
        ∷ [])

  unfoldable pub build_archive_document_tx : BuildArchiveDocumentParams → Transaction
  build_archive_document_tx params =
      new_transaction package_id params.sender_address document_entry archive_document (
        object params.admin_config_id
        ∷ object params.pool_object_id
        ∷ pure_id params.doc_object_id
        ∷ clock
        ∷ [])

  unfoldable pub build_submit_review_tx : BuildSubmitReviewParams → Transaction
  build_submit_review_tx params =
      new_transaction package_id params.sender_address document_entry submit_review (
        object params.admin_config_id
        ∷ object params.pool_object_id
        ∷ pure_id params.doc_object_id
        ∷ pure_u8 params.status
        ∷ pure_option_bytes (optional_bytes params.comment_hash)
        ∷ clock
        ∷ [])

  unfoldable pub build_ic_decision_tx : MoveFunction → BuildRecordIcDecisionParams → Transaction
  build_ic_decision_tx target_function params =
      new_transaction package_id params.sender_address pool_entry target_function (
        object params.admin_config_id
        ∷ object params.pool_object_id
        ∷ pure_string params.decision_text
        ∷ pure_string params.pdf_blob_id
        ∷ pure_vector_address params.committee_members
        ∷ pure_vector_u8 params.votes
        ∷ pure_vector_address params.related_doc_ids
        ∷ clock
        ∷ [])

  unfoldable pub build_record_ic_approval_tx : BuildRecordIcDecisionParams → Transaction
  build_record_ic_approval_tx params = build_ic_decision_tx record_ic_approval params

  unfoldable pub build_record_ic_rejection_tx : BuildRecordIcDecisionParams → Transaction
  build_record_ic_rejection_tx params = build_ic_decision_tx record_ic_rejection params

  unfoldable pub build_record_ic_request_changes_tx : BuildRecordIcDecisionParams → Transaction
  build_record_ic_request_changes_tx params = build_ic_decision_tx record_ic_request_changes params
