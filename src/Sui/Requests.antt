-- ===== src/Sui/Requests.antt =====
-- The calls of the builders of apps/api/src/infra/sui/sui-tx.service.ts, and what the request
-- schemas of apps/api/src/modules let through to them.
use brine_vault.Base.{
  ℕ, Option, none, some, List, [], ◌∷◌, length, ◌==◌, Bool, true, false, ◌&&◌, ltb, leb,
}
use brine_vault.Sui.Transaction.{
  MoveFunction, Transaction, progress_to_dd, progress_to_ic_review, progress_to_ready_to_issue,
  reopen_rejected_pool,
}
use brine_vault.Sui.Params.{
  BuildCreatePoolParams, BuildStateTransitionParams, BuildCancelPoolParams, BuildAddMemberParams,
  BuildRemoveMemberParams, BuildUpdateMemberRoleParams, BuildCreateFolderParams,
  BuildCreateDocumentParams, BuildAddVersionParams, BuildArchiveDocumentParams,
  BuildSubmitReviewParams, BuildRecordIcDecisionParams,
}
use brine_vault.Sui.Builders.{
  big_int, or_empty, build_create_pool_tx, build_state_transition_tx, build_cancel_pool_tx,
  build_add_member_tx, build_remove_member_tx, build_update_member_role_tx, build_create_folder_tx,
  build_create_document_tx, build_add_version_tx, build_archive_document_tx, build_submit_review_tx,
  build_record_ic_approval_tx, build_record_ic_rejection_tx, build_record_ic_request_changes_tx,
}
use brine_vault.Sui.Entries.{MoveType, vector_id, u64_bound, all_addresses, fit_types}

-- A text of hexadecimal digits, by their values.
unfoldable pub is_hex : List ℕ → Bool
is_hex [] = true
is_hex (d ∷ digits) = ltb d 16 && is_hex digits

-- A call of one of the builders.
pub data Request : Type 0 where
  create_pool_request : BuildCreatePoolParams → Request
  transition_request : BuildStateTransitionParams → Request
  cancel_request : BuildCancelPoolParams → Request
  add_member_request : BuildAddMemberParams → Request
  remove_member_request : BuildRemoveMemberParams → Request
  update_role_request : BuildUpdateMemberRoleParams → Request
  create_folder_request : BuildCreateFolderParams → Request
  create_document_request : BuildCreateDocumentParams → Request
  add_version_request : BuildAddVersionParams → Request
  archive_request : BuildArchiveDocumentParams → Request
  review_request : BuildSubmitReviewParams → Request
  approval_request rejection_request changes_request : BuildRecordIcDecisionParams → Request

unfoldable pub build_request : ℕ → Request → Transaction
build_request package_id (create_pool_request p) = build_create_pool_tx package_id p
build_request package_id (transition_request p) = build_state_transition_tx package_id p
build_request package_id (cancel_request p) = build_cancel_pool_tx package_id p
build_request package_id (add_member_request p) = build_add_member_tx package_id p
build_request package_id (remove_member_request p) = build_remove_member_tx package_id p
build_request package_id (update_role_request p) = build_update_member_role_tx package_id p
build_request package_id (create_folder_request p) = build_create_folder_tx package_id p
build_request package_id (create_document_request p) = build_create_document_tx package_id p
build_request package_id (add_version_request p) = build_add_version_tx package_id p
build_request package_id (archive_request p) = build_archive_document_tx package_id p
build_request package_id (review_request p) = build_submit_review_tx package_id p
build_request package_id (approval_request p) = build_record_ic_approval_tx package_id p
build_request package_id (rejection_request p) = build_record_ic_rejection_tx package_id p
build_request package_id (changes_request p) = build_record_ic_request_changes_tx package_id p

-- `z.enum([...])` of transitionPoolSchema.
unfoldable pub is_transition : MoveFunction → Bool
is_transition progress_to_dd = true
is_transition progress_to_ic_review = true
is_transition progress_to_ready_to_issue = true
is_transition reopen_rejected_pool = true
is_transition _ = false

-- `z.number().int().min(0).max(2)`, for every vote.
unfoldable pub are_votes : List ℕ → Bool
are_votes [] = true
are_votes (v ∷ votes) = leb v 2 && are_votes votes

abbrev pub or_no_digits : Option (List ℕ) → List ℕ
or_no_digits none = []
or_no_digits (some hex) = hex

-- The request schemas, on the fields that carry numbers, digits and lists; the lengths of texts that
-- the code does not look into are left out.
abbrev pub create_pool_schema : BuildCreatePoolParams → Bool
create_pool_schema p =
    is_hex p.org_id_hash
    && is_hex p.borrower_name_hash
    && leb 1 p.expected_maturity_date
    && leb p.encryption_scheme 1
    && leb (length p.tags) 20

abbrev pub add_member_schema : BuildAddMemberParams → Bool
add_member_schema p = leb 1 p.role && leb p.role 63 && leb (length p.tags) 20

abbrev pub update_member_role_schema : BuildUpdateMemberRoleParams → Bool
update_member_role_schema p = leb 1 p.new_role && leb p.new_role 63

abbrev pub create_folder_schema : BuildCreateFolderParams → Bool
create_folder_schema p = leb 1 p.visible_to_roles && leb p.visible_to_roles 63

abbrev pub create_document_schema : BuildCreateDocumentParams → Bool
create_document_schema p =
    leb p.doc_type 9
    && leb 1 p.visible_to_roles
    && leb p.visible_to_roles 63
    && is_hex p.content_hash
    && leb 1 p.size_bytes
    && leb (length p.tags) 20

abbrev pub add_version_schema : BuildAddVersionParams → Bool
add_version_schema p = is_hex p.content_hash && leb 1 p.size_bytes

abbrev pub submit_review_schema : BuildSubmitReviewParams → Bool
submit_review_schema p = leb p.status 2 && is_hex (or_no_digits p.comment_hash)

abbrev pub submit_ic_decision_schema : BuildRecordIcDecisionParams → Bool
submit_ic_decision_schema p =
    leb 1 (length p.committee_members)
    && leb (length p.committee_members) 50
    && are_votes p.votes
    && leb 1 (length p.votes)
    && leb (length p.votes) 50
    && (length p.committee_members == length p.votes)

-- What the schemas ask of each request.
unfoldable pub is_accepted : Request → Bool
is_accepted (create_pool_request p) = create_pool_schema p
is_accepted (transition_request p) = is_transition p.target_function
is_accepted (cancel_request p) = true
is_accepted (add_member_request p) = add_member_schema p
is_accepted (remove_member_request p) = true
is_accepted (update_role_request p) = update_member_role_schema p
is_accepted (create_folder_request p) = create_folder_schema p
is_accepted (create_document_request p) = create_document_schema p
is_accepted (add_version_request p) = add_version_schema p
is_accepted (archive_request p) = true
is_accepted (review_request p) = submit_review_schema p
is_accepted (approval_request p) = submit_ic_decision_schema p
is_accepted (rejection_request p) = submit_ic_decision_schema p
is_accepted (changes_request p) = submit_ic_decision_schema p

-- The parameters of a transition between the pool and the clock.
unfoldable pub extra_params : MoveFunction → List MoveType
extra_params progress_to_ic_review = vector_id ∷ []
extra_params progress_to_ready_to_issue = vector_id ∷ []
extra_params _ = []

-- What no schema asks: that every text that is an id or an address is one, that the other numbers are
-- below 2 ^ 64, and that a transition brings the arguments of its function.
module _ (is_address : ℕ → Bool) (raw_fits : ℕ → MoveType → Bool) where
  abbrev are_addresses : List ℕ → Bool
  are_addresses addresses = all_addresses is_address raw_fits addresses

  abbrev decision_in_range : BuildRecordIcDecisionParams → Bool
  decision_in_range p =
      is_address p.admin_config_id
      && (is_address p.pool_object_id
          && (are_addresses p.committee_members && are_addresses p.related_doc_ids))

  unfoldable pub is_in_range : Request → Bool
  is_in_range (create_pool_request p) =
      is_address p.admin_config_id
      && (ltb (big_int p.target_notional) u64_bound && ltb p.expected_maturity_date u64_bound)
  is_in_range (transition_request p) =
      is_address p.admin_config_id
      && (is_address p.pool_object_id
          && fit_types is_address raw_fits (or_empty p.extra_args) (extra_params p.target_function))
  is_in_range (cancel_request p) = is_address p.admin_config_id && is_address p.pool_object_id
  is_in_range (add_member_request p) =
      is_address p.admin_config_id && (is_address p.pool_object_id && is_address p.member_address)
  is_in_range (remove_member_request p) =
      is_address p.admin_config_id && (is_address p.pool_object_id && is_address p.member_address)
  is_in_range (update_role_request p) =
      is_address p.admin_config_id && (is_address p.pool_object_id && is_address p.member_address)
  is_in_range (create_folder_request p) =
      is_address p.admin_config_id
      && (is_address p.pool_object_id
          && elim p.parent_id [ none ↦ true | some n ↦ ltb n u64_bound ])
  is_in_range (create_document_request p) =
      is_address p.admin_config_id
      && (is_address p.pool_object_id && (ltb p.folder_id u64_bound && ltb p.size_bytes u64_bound))
  is_in_range (add_version_request p) =
      is_address p.admin_config_id
      && (is_address p.pool_object_id && (is_address p.doc_object_id && ltb p.size_bytes u64_bound))
  is_in_range (archive_request p) =
      is_address p.admin_config_id && (is_address p.pool_object_id && is_address p.doc_object_id)
  is_in_range (review_request p) =
      is_address p.admin_config_id && (is_address p.pool_object_id && is_address p.doc_object_id)
  is_in_range (approval_request p) = decision_in_range p
  is_in_range (rejection_request p) = decision_in_range p
  is_in_range (changes_request p) = decision_in_range p
