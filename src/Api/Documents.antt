-- ===== src/Api/Documents.antt =====
-- DocumentsService: apps/api/src/modules/documents/documents.service.ts.
pub mod Listing
use brine_vault.Base.{ℕ, Option, List, Bool, Result, ok, err, ◌>>=◌, or_throw}
use brine_vault.Db.Tables.{PoolRow, DocumentRow, VersionRow, Store}
use brine_vault.Db.Listing.{
  find_documents_by_pool, count_documents_by_pool, find_versions, find_version,
}
use brine_vault.Sui.Transaction.{Transaction}
use brine_vault.Sui.Builders.{
  build_create_document_tx, build_add_version_tx, build_archive_document_tx,
}
use brine_vault.Api.Access.{
  ApiError, version_not_found, pool_access, document_access, PageQuery, Page, offset,
}
use brine_vault.Api.Pools.{AdminDto}

pub record CreateDocumentDto : Type 0 where
  pub admin_config_id : ℕ
  pub folder_id : ℕ
  pub doc_type : ℕ
  pub title : ℕ
  pub required_flag : Bool
  pub visible_to_roles : ℕ
  pub walrus_blob_id : ℕ
  pub content_hash : List ℕ
  pub size_bytes : ℕ
  pub change_log : ℕ
  pub tags : List ℕ

pub record AddVersionDto : Type 0 where
  pub admin_config_id : ℕ
  pub walrus_blob_id : ℕ
  pub content_hash : List ℕ
  pub size_bytes : ℕ
  pub change_log : ℕ

unfoldable pub list_documents :
    ℕ → Option ℕ → PageQuery → Store → Result ApiError (Page DocumentRow)
list_documents pool_id user_org query s = do
  pool ← pool_access pool_id user_org s
  ok (record {
    data_rows = find_documents_by_pool pool_id query.limit (offset query) s;
    total = count_documents_by_pool pool_id s;
    query = query;
  })

unfoldable pub get_document : ℕ → ℕ → Option ℕ → Store → Result ApiError DocumentRow
get_document pool_id doc_id user_org s = do
  found ← document_access pool_id doc_id user_org s
  ok found.1

unfoldable pub get_document_versions : ℕ → ℕ → Option ℕ → Store → Result ApiError (List VersionRow)
get_document_versions pool_id doc_id user_org s = do
  found ← document_access pool_id doc_id user_org s
  ok (find_versions doc_id s)

unfoldable pub get_document_version : ℕ → ℕ → ℕ → Option ℕ → Store → Result ApiError VersionRow
get_document_version pool_id doc_id version user_org s = do
  found ← document_access pool_id doc_id user_org s
  or_throw (find_version doc_id version s) version_not_found

module _ (package_id : ℕ) where
  unfoldable pub build_create_document :
      ℕ → ℕ → Option ℕ → CreateDocumentDto → Store → Result ApiError Transaction
  build_create_document pool_id sender user_org dto s = do
    pool ← pool_access pool_id user_org s
    ok (
        build_create_document_tx package_id (record {
          sender_address = sender;
          admin_config_id = dto.admin_config_id;
          pool_object_id = pool.sui_object_id;
          folder_id = dto.folder_id;
          doc_type = dto.doc_type;
          title = dto.title;
          required_flag = dto.required_flag;
          visible_to_roles = dto.visible_to_roles;
          walrus_blob_id = dto.walrus_blob_id;
          content_hash = dto.content_hash;
          size_bytes = dto.size_bytes;
          change_log = dto.change_log;
          tags = dto.tags;
        }))

  unfoldable pub build_add_version :
      ℕ → ℕ → ℕ → Option ℕ → AddVersionDto → Store → Result ApiError Transaction
  build_add_version pool_id doc_id sender user_org dto s = do
    found ← document_access pool_id doc_id user_org s
    ok (
        build_add_version_tx package_id (record {
          sender_address = sender;
          admin_config_id = dto.admin_config_id;
          pool_object_id = found.0.sui_object_id;
          doc_object_id = found.1.sui_object_id;
          walrus_blob_id = dto.walrus_blob_id;
          content_hash = dto.content_hash;
          size_bytes = dto.size_bytes;
          change_log = dto.change_log;
        }))

  unfoldable pub build_archive_document :
      ℕ → ℕ → ℕ → Option ℕ → AdminDto → Store → Result ApiError Transaction
  build_archive_document pool_id doc_id sender user_org dto s = do
    found ← document_access pool_id doc_id user_org s
    ok (
        build_archive_document_tx package_id (record {
          sender_address = sender;
          admin_config_id = dto.admin_config_id;
          pool_object_id = found.0.sui_object_id;
          doc_object_id = found.1.sui_object_id;
        }))
