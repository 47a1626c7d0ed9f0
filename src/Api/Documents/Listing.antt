-- ===== src/Api/Documents/Listing.antt =====
-- The pages of documents and the versions of one: apps/api/src/modules/documents/documents.service.ts.
use brine_vault.Base.{
  ℕ, suc, ◌-◌, ◌*◌, ◌/◌, ◌%◌, ◌<◌, ◌==◌, Option, List, length, get_elem?, Bool, ◌≡◌, refl, subst,
  ok, >>=-eq-ok,
}
use brine_vault.Db.Tables.{PoolRow, DocumentRow, VersionRow, Store, rows_where}
use brine_vault.Db.Listing.{
  limit_offset, documents_of, find_documents_by_pool, count_documents_by_pool, find_versions,
}
use brine_vault.Db.Listing.Order.{
  IsOrdered, count_where, order_by-IsOrdered, count_where-order_by, page-row,
}
use brine_vault.Api.Access.{document_access, Page}
use brine_vault.Api.Access.Rules.{MayUse, pool_access_complete}
use brine_vault.Api.Documents.{list_documents, get_document_versions}

-- The pages of a listing make up the whole listing: for a user of the pool's organisation and a limit
-- above 0, row `i` of all the documents of the pool stands at place `i % limit` of page
-- `i / limit + 1`, whose total is the number of all the documents.
pub list_documents-pages :
    (pool_id limit i : ℕ) (user_org : Option ℕ) (s : Store) (pool : PoolRow)
    → 0 < limit
    → MayUse pool_id user_org s pool
    → (page : Page DocumentRow) × (list_documents pool_id user_org
          (record { page = suc (i / limit); limit = limit })
          s
        ≡ ok page)
      × (get_elem? page.data_rows (i % limit) ≡ get_elem? (documents_of pool_id s) i)
      × (page.total ≡ length (documents_of pool_id s))
unfolding list_documents find_documents_by_pool count_documents_by_pool
list_documents-pages pool_id limit i user_org s pool positive may = (
  record {
    data_rows = limit_offset limit ((suc (i / limit) - 1) * limit) (documents_of pool_id s);
    total = length (documents_of pool_id s);
    query = record { page = suc (i / limit); limit = limit };
  },
  rw (pool_access_complete pool_id user_org s pool may) refl,
  page-row limit i (documents_of pool_id s) positive,
  refl,
)

-- The versions that a user gets are ordered by their number, and they are those of the document: for
-- every test the listing has as many rows that pass it as the table has for the document.
pub get_document_versions-IsOrdered :
    (pool_id doc_id : ℕ) (user_org : Option ℕ) (s : Store) (versions : List VersionRow)
    → get_document_versions pool_id doc_id user_org s ≡ ok versions
    → IsOrdered (λ (v : VersionRow). v.version) versions
      × ((test : VersionRow → Bool)
          → count_where test versions
            ≡ count_where test
                (rows_where (λ (v : VersionRow). v.document_id == doc_id) s.versions))
unfolding get_document_versions find_versions
get_document_versions-IsOrdered pool_id doc_id user_org s versions h =
    let (found, access, rest) = >>=-eq-ok (document_access pool_id doc_id user_org s) _ h in
    let same : find_versions doc_id s ≡ versions = cc in
    subst
      (λ vs.
        IsOrdered (λ (v : VersionRow). v.version) vs
        × ((test : VersionRow → Bool)
            → count_where test vs
              ≡ count_where test
                  (rows_where (λ (v : VersionRow). v.document_id == doc_id) s.versions)))
      same
      (
        order_by-IsOrdered (λ (v : VersionRow). v.version)
            (rows_where (λ v. v.document_id == doc_id) s.versions),
        λ test.
            count_where-order_by (λ (v : VersionRow). v.version) test
              (rows_where (λ v. v.document_id == doc_id) s.versions),
      )
