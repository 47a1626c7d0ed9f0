-- ===== src/Tests/Services.antt =====
-- The services of apps/api/src and the transactions of its sui-tx.service.ts on small inputs.
use brine_vault.Base.{
  ℕ, Bool, leb, ◌+◌, ◌≡◌, ◌≢◌, ◌↔◌, refl, arith, none, some, [], ◌∷◌, true, false, get_elem?,
  length, ok,
}
use brine_vault.Db.Tables.{Store, PoolRow, DataroomRow, DocumentRow, ReviewRow}
use brine_vault.Db.Listing.{documents_of, find_reviews}
use brine_vault.Indexer.Handlers.{EventContext, handle_member_removed}
use brine_vault.Sui.Transaction.{progress_to_ic_review}
use brine_vault.Sui.Entries.{MoveType, fit_types, entry_params, home_module}
use brine_vault.Sui.Requests.{Request, transition_request, build_request, is_accepted, is_in_range}
use brine_vault.Sui.WellTyped.{build_request-typed}
use brine_vault.Api.Access.{document_access, pool_access, Page}
use brine_vault.Api.Access.Rules.{
  MayRead, without_document, document_access-refines, document_access-hidden,
}
use brine_vault.Api.Documents.{list_documents}
use brine_vault.Api.Documents.Listing.{list_documents-pages}
use brine_vault.Api.Pools.{get_pool}
use brine_vault.Api.Pools.Removed.{get_pool-after_removal}
use brine_vault.Api.Reviews.{
  ReviewSummary, get_review_summary, count_status, review_pending, review_approved,
  review_needs_revision,
}
use brine_vault.Api.Reviews.Summary.{get_review_summary-shifted}
use brine_vault.Api.Checklist.{
  ItemRow, Checklist, UpdateItemDto, missing, uploaded, reviewed, find_items, update_item,
}
use brine_vault.Api.Checklist.Requests.{updating}
use brine_vault.Api.Checklist.Effect.{Effect}
use brine_vault.Api.Checklist.Isolation.{IsDistinct, request-isolated}

abbrev pool : PoolRow
pool = record {
  id = 1;
  sui_object_id = 101;
  org_id = 5;
  name = 4;
  current_state = 0;
  encryption_scheme = 0;
  created_by_address = 9;
  sui_tx_digest = 50;
  last_updated_at = 0;
}

abbrev room : DataroomRow
room = record { id = 2; sui_object_id = 102; pool_id = 1; owner_address = 9 }

abbrev document_of : ℕ → ℕ → DocumentRow
document_of id pool_id = record {
  id = id;
  sui_object_id = 100 + id;
  pool_id = pool_id;
  dataroom_id = 2;
  folder_id = 0;
  doc_type = 0;
  title = 5;
  current_version = 1;
  version_count = 1;
  encryption_scheme = 0;
  last_updated_at = 0;
}

abbrev review_of : ℕ → ℕ → ReviewRow
review_of reviewer status = record {
  document_id = 3;
  reviewer_address = reviewer;
  status = status;
  comment_hash = none;
  reviewed_at = 0;
}

-- A pool of organisation 5 with a data room, a member, two documents and two reviews, and a document of
-- another pool.
abbrev store : Store
store = record {
  pools = pool ∷ [];
  datarooms = room ∷ [];
  members =
      record {
        dataroom_id = 2;
        pool_id = 1;
        member_address = 7;
        role = 1;
        is_active = true;
        revoked_at = none;
        added_by_address = 9;
        added_at = 0;
      }
      ∷ [];
  documents = document_of 4 1 ∷ document_of 3 1 ∷ document_of 6 2 ∷ [];
  versions = [];
  reviews = review_of 7 1 ∷ review_of 8 2 ∷ [];
  decisions = [];
  audits = [];
  organizations = 5 ∷ [];
  next_id = 7;
  cache = none;
}

-- A transition to the review of the committee that brings no list of documents: the move call does not
-- fit the function.
abbrev bare_transition : Request
bare_transition = transition_request (record {
  sender_address = 9;
  admin_config_id = 11;
  pool_object_id = 101;
  target_function = progress_to_ic_review;
  extra_args = none;
})

-- An address is a number that is not 0, and no JSON value fits.
abbrev some_address : ℕ → Bool
some_address n = leb 1 n

abbrev no_raw : ℕ → MoveType → Bool
no_raw value t = false

bare_transition_misfits : is_in_range some_address no_raw bare_transition ≡ false
unfolding is_in_range fit_types brine_vault.Sui.Requests.extra_params
bare_transition_misfits = refl

build_request-typed_example :
    ((build_request 99 bare_transition).target.target_module
      ≡ home_module (build_request 99 bare_transition).target.target_function)
    × (fit_types some_address no_raw
          (build_request 99 bare_transition).arguments
          (entry_params (build_request 99 bare_transition).target.target_function)
        ≡ is_in_range some_address no_raw bare_transition)
unfolding is_accepted brine_vault.Sui.Requests.is_transition
build_request-typed_example = build_request-typed some_address no_raw refl 99 bare_transition refl

document_access-refines_example :
    (document_access 1 3 (some 5) store ≡ ok (pool, document_of 3 1))
    ↔ MayRead 1 3 (some 5) store (pool, document_of 3 1)
document_access-refines_example = document_access-refines 1 3 (some 5) store (pool, document_of 3 1)

document_access_test : document_access 1 3 (some 5) store ≡ ok (pool, document_of 3 1)
unfolding document_access pool_access brine_vault.Db.Chain.find_pool brine_vault.Db.Tables.find_row
    brine_vault.Db.Chain.find_document
document_access_test = refl

document_access-hidden_example :
    document_access 1 6 (some 5) store ≡ document_access 1 6 (some 5) (without_document 6 store)
unfolding brine_vault.Db.Chain.find_document brine_vault.Db.Tables.find_row
document_access-hidden_example =
    document_access-hidden 1 6 (some 5) store (document_of 6 2) refl (λ e. absurd (omega arith))

list_documents-pages_example :
    (page : Page DocumentRow) × (list_documents 1 (some 5) (record { page = 2; limit = 1 }) store
      ≡ ok page)
    × (get_elem? page.data_rows 0 ≡ get_elem? (documents_of 1 store) 1)
    × (page.total ≡ length (documents_of 1 store))
unfolding brine_vault.Db.Chain.find_pool brine_vault.Db.Tables.find_row
list_documents-pages_example =
    list_documents-pages 1 1 1 (some 5) store pool (omega arith) (refl, refl)

abbrev removal : EventContext
removal = record { tx_digest = 62; event_seq = 0; now = 4 }

get_pool_before_test : get_pool 1 7 (some 5) store ≡ ok pool
unfolding get_pool pool_access brine_vault.Db.Chain.find_pool brine_vault.Db.Tables.find_row
    brine_vault.Api.Pools.member_guard brine_vault.Db.Chain.find_dataroom_by_pool
    brine_vault.Db.Chain.find_member
get_pool_before_test = refl

get_pool-after_removal_example :
    get_pool 1 7 (some 5) (handle_member_removed removal 102 7 9 store).1 ≢ ok pool
unfolding brine_vault.Db.Chain.find_dataroom_by_sui brine_vault.Db.Tables.find_row
    brine_vault.Db.Chain.find_dataroom_by_pool
get_pool-after_removal_example =
    get_pool-after_removal removal 102 7 9 1 (some 5) store room pool refl refl

abbrev summary : ReviewSummary
summary = record { total = 2; approved = 0; needs_revision = 1; rejected = 1 }

get_review_summary-shifted_example :
    (summary.approved + summary.needs_revision + summary.rejected ≡ summary.total)
    × (summary.approved ≡ count_status review_pending (find_reviews 3 store))
    × (summary.needs_revision ≡ count_status review_approved (find_reviews 3 store))
    × (summary.rejected ≡ count_status review_needs_revision (find_reviews 3 store))
unfolding get_review_summary document_access pool_access brine_vault.Db.Chain.find_pool
    brine_vault.Db.Tables.find_row brine_vault.Db.Chain.find_document find_reviews
    brine_vault.Db.Tables.rows_where
get_review_summary-shifted_example =
    get_review_summary-shifted 1 3 (some 5) store summary (refl, (refl, tt)) refl

abbrev item_of : ℕ → ℕ → ItemRow
item_of id pool_id = record {
  id = id;
  pool_id = pool_id;
  folder = 1;
  item_name = 2;
  is_required = true;
  linked_document_id = none;
  status = missing;
  updated_at = 0;
}

-- The same item in the checklists of two pools.
abbrev two_items : Checklist
two_items = record { items = item_of 2 1 ∷ item_of 1 2 ∷ [] }

abbrev item_uploaded : UpdateItemDto
item_uploaded = record {
  is_required = none;
  linked_document_id = some (some 3);
  status = some uploaded;
}

abbrev updated_item : ItemRow
updated_item = record (item_of 2 1) {
  linked_document_id = some 3;
  status = uploaded;
  updated_at = 8;
}

abbrev after_update : Checklist
after_update = record { items = updated_item ∷ item_of 1 2 ∷ [] }

update_item_test :
    update_item 8 1 2 (some 5) item_uploaded store two_items ≡ ok (updated_item, after_update)
unfolding update_item pool_access brine_vault.Db.Chain.find_pool brine_vault.Db.Tables.find_row
    brine_vault.Db.Tables.any_row find_items brine_vault.Db.Tables.rows_where
    brine_vault.Api.Checklist.update_item_row brine_vault.Db.Tables.update_rows
update_item_test = refl

two_items-IsDistinct : IsDistinct two_items.items
two_items-IsDistinct = ((refl, tt), (tt, tt))

request-isolated_example : find_items 2 after_update ≡ find_items 2 two_items
request-isolated_example =
    request-isolated store 1 2 two_items after_update
      (updating 8 2 (some 5) item_uploaded updated_item update_item_test) two_items-IsDistinct
      (λ e. absurd (omega arith))
