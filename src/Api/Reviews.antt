-- ===== src/Api/Reviews.antt =====
-- ReviewsService and ICDecisionsService: apps/api/src/modules/reviews/reviews.service.ts and
-- apps/api/src/modules/ic-decisions/ic-decisions.service.ts.
pub mod Summary
use brine_vault.Base.{
  ℕ, ◌==◌, Option, List, length, Bool, Result, ok, err, ◌>>=◌, or_throw, if◌then◌else◌,
}
use brine_vault.Db.Tables.{PoolRow, DocumentRow, ReviewRow, DecisionRow, Store, rows_where}
use brine_vault.Db.Listing.{find_reviews, find_decisions, find_decision}
use brine_vault.Sui.Transaction.{Transaction}
use brine_vault.Sui.Params.{BuildRecordIcDecisionParams}
use brine_vault.Sui.Builders.{
  build_submit_review_tx, build_record_ic_approval_tx, build_record_ic_rejection_tx,
  build_record_ic_request_changes_tx,
}
use brine_vault.Api.Access.{
  ApiError, invalid_decision_type, ic_decision_not_found, pool_access, document_access,
}

-- `REVIEW_STATUS`: packages/shared/src/types/document.ts.
abbrev pub review_pending : ℕ
review_pending = 0

abbrev pub review_approved : ℕ
review_approved = 1

abbrev pub review_needs_revision : ℕ
review_needs_revision = 2

pub record SubmitReviewDto : Type 0 where
  pub admin_config_id : ℕ
  pub status : ℕ
  pub comment_hash : Option (List ℕ)

unfoldable pub list_reviews : ℕ → ℕ → Option ℕ → Store → Result ApiError (List ReviewRow)
list_reviews pool_id doc_id user_org s = do
  found ← document_access pool_id doc_id user_org s
  ok (find_reviews doc_id s)

pub record ReviewSummary : Type 0 where
  pub total : ℕ
  pub approved : ℕ
  pub needs_revision : ℕ
  pub rejected : ℕ

abbrev pub count_status : ℕ → List ReviewRow → ℕ
count_status status reviews = length (rows_where (λ (r : ReviewRow). r.status == status) reviews)

unfoldable pub get_review_summary : ℕ → ℕ → Option ℕ → Store → Result ApiError ReviewSummary
get_review_summary pool_id doc_id user_org s = do
  found ← document_access pool_id doc_id user_org s
  let reviews = find_reviews doc_id s
  ok (record {
    total = length reviews;
    approved = count_status 0 reviews;
    needs_revision = count_status 1 reviews;
    rejected = count_status 2 reviews;
  })

-- `IC_DECISION_TYPES`: packages/shared/src/types/ic-decision.ts.
abbrev pub approve : ℕ
approve = 0

abbrev pub reject : ℕ
reject = 1

abbrev pub request_changes : ℕ
request_changes = 2

pub record SubmitIcDecisionDto : Type 0 where
  pub admin_config_id : ℕ
  pub decision_type : ℕ
  pub decision_text : ℕ
  pub pdf_blob_id : ℕ
  pub committee_members : List ℕ
  pub votes : List ℕ
  pub related_doc_ids : List ℕ

unfoldable pub list_decisions : ℕ → Option ℕ → Store → Result ApiError (List DecisionRow)
list_decisions pool_id user_org s = do
  pool ← pool_access pool_id user_org s
  ok (find_decisions pool_id s)

unfoldable pub get_decision : ℕ → ℕ → Option ℕ → Store → Result ApiError DecisionRow
get_decision pool_id index user_org s = do
  pool ← pool_access pool_id user_org s
  or_throw (find_decision pool_id index s) ic_decision_not_found

module _ (package_id : ℕ) where
  unfoldable pub build_submit_review :
      ℕ → ℕ → ℕ → Option ℕ → SubmitReviewDto → Store → Result ApiError Transaction
  build_submit_review pool_id doc_id sender user_org dto s = do
    found ← document_access pool_id doc_id user_org s
    ok (
        build_submit_review_tx package_id (record {
          sender_address = sender;
          admin_config_id = dto.admin_config_id;
          pool_object_id = found.0.sui_object_id;
          doc_object_id = found.1.sui_object_id;
          status = dto.status;
          comment_hash = dto.comment_hash;
        }))

  -- The `switch` on the type of the decision.
  unfoldable pub decision_tx : ℕ → BuildRecordIcDecisionParams → Result ApiError Transaction
  decision_tx decision_type params =
      if decision_type == approve
      then ok (build_record_ic_approval_tx package_id params)
      else if decision_type == reject
      then ok (build_record_ic_rejection_tx package_id params)
      else if decision_type == request_changes
      then ok (build_record_ic_request_changes_tx package_id params)
      else err invalid_decision_type

  unfoldable pub build_submit_decision :
      ℕ → ℕ → Option ℕ → SubmitIcDecisionDto → Store → Result ApiError Transaction
  build_submit_decision pool_id sender user_org dto s = do
    pool ← pool_access pool_id user_org s
    decision_tx dto.decision_type (record {
      sender_address = sender;
      admin_config_id = dto.admin_config_id;
      pool_object_id = pool.sui_object_id;
      decision_text = dto.decision_text;
      pdf_blob_id = dto.pdf_blob_id;
      committee_members = dto.committee_members;
      votes = dto.votes;
      related_doc_ids = dto.related_doc_ids;
    })
