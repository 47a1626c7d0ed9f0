-- ===== src/Api/Access.antt =====
-- What the services of apps/api/src/modules share: the errors that they throw, the checks of a pool
-- and of a document, and the pages of a listing.
pub mod Rules
use brine_vault.Base.{
  ℕ, ◌-◌, ◌*◌, ◌==◌, Option, List, Bool, Result, ok, err, ◌>>=◌, ◌>>◌, guard, or_throw,
}
use brine_vault.Db.Tables.{PoolRow, DocumentRow, Store}
use brine_vault.Db.Chain.{find_pool, find_document}
use brine_vault.Api.Orgs.{is_own}

pub data ApiError : Type 0 where
  pool_not_found not_in_org dataroom_not_found not_dataroom_member : ApiError
  document_not_found version_not_found ic_decision_not_found : ApiError
  invalid_decision_type checklist_item_not_found duplicate_item unknown_document : ApiError

-- `poolsRepo.findById`, then POOL_NOT_FOUND or NOT_IN_ORG.
unfoldable pub pool_access : ℕ → Option ℕ → Store → Result ApiError PoolRow
pool_access pool_id user_org s = do
  pool ← or_throw (find_pool pool_id s) pool_not_found
  guard (is_own user_org pool.org_id) not_in_org
  ok pool

-- The same, then `documentsRepo.findById` and DOCUMENT_NOT_FOUND, also for a document of another pool.
unfoldable pub document_access : ℕ → ℕ → Option ℕ → Store → Result ApiError (PoolRow × DocumentRow)
document_access pool_id doc_id user_org s = do
  pool ← pool_access pool_id user_org s
  doc ← or_throw (find_document doc_id s) document_not_found
  guard (doc.pool_id == pool_id) document_not_found
  ok (pool, doc)

pub record PageQuery : Type 0 where
  pub page : ℕ
  pub limit : ℕ

-- The schemas ask for a page of at least 1.
abbrev pub offset : PageQuery → ℕ
offset query = (query.page - 1) * query.limit

-- `{ data, total, page, limit }`.
pub record Page (A : Type 0) : Type 0 where
  pub data_rows : List A
  pub total : ℕ
  pub query : PageQuery
