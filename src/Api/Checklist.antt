-- ===== src/Api/Checklist.antt =====
-- ChecklistService: apps/api/src/modules/checklist/checklist.service.ts, with the table
-- packages/db/src/schema/pool-checklist-items.ts and packages/db/src/repositories/checklist.repository.ts.
pub mod Requests
pub mod Effect
pub mod Isolation
use brine_vault.Base.{
  ℕ, ◌==◌, ◌&&◌, Option, none, some, List, [], ◌∷◌, Bool, true, false, not, if◌then◌else◌, Result,
  ok, err, ◌>>=◌, ◌>>◌, guard, or_throw,
}
use brine_vault.Db.Tables.{Store, any_row, find_row, rows_where, update_rows}
use brine_vault.Api.Access.{
  ApiError, checklist_item_not_found, duplicate_item, unknown_document, pool_access,
}

pub data ItemStatus : Type 0 where
  missing uploaded reviewed needs_revision : ItemStatus

pub record ItemRow : Type 0 where
  pub id : ℕ
  pub pool_id : ℕ
  pub folder : ℕ
  pub item_name : ℕ
  pub is_required : Bool
  pub linked_document_id : Option ℕ
  pub status : ItemStatus
  pub updated_at : ℕ

-- The items, the newest first.
pub record Checklist : Type 0 where
  pub items : List ItemRow

pub record CreateItemDto : Type 0 where
  pub folder : ℕ
  pub item_name : ℕ
  pub is_required : Bool

-- A field that is absent is `none`; the link may be set to null.
pub record UpdateItemDto : Type 0 where
  pub is_required : Option Bool
  pub linked_document_id : Option (Option ℕ)
  pub status : Option ItemStatus

module _ {A : Type 0} where
  -- A field of `{ ...data }` over a row.
  abbrev pub or_keep : Option A → A → A
  or_keep none old = old
  or_keep (some new) old = new

  -- `delete ... where ...`.
  unfoldable pub delete_rows : (A → Bool) → List A → List A
  delete_rows p [] = []
  delete_rows p (r ∷ rows) = if p r then delete_rows p rows else r ∷ delete_rows p rows

-- The unique index on pool, folder and item name.
abbrev pub same_item : ItemRow → ItemRow → Bool
same_item a b = (a.pool_id == b.pool_id) && ((a.folder == b.folder) && (a.item_name == b.item_name))

-- ChecklistRepository.
unfoldable pub find_items : ℕ → Checklist → List ItemRow
find_items pool_id c = rows_where (λ i. i.pool_id == pool_id) c.items

unfoldable pub create_item : ItemRow → Checklist → Result ApiError (ItemRow × Checklist)
create_item item c =
    if any_row (same_item item) c.items
    then err duplicate_item
    else ok (item, record c { items = item ∷ c.items })

abbrev pub set_item : ℕ → UpdateItemDto → ItemRow → ItemRow
set_item now dto i = record i {
  is_required = or_keep dto.is_required i.is_required;
  linked_document_id = or_keep dto.linked_document_id i.linked_document_id;
  status = or_keep dto.status i.status;
  updated_at = now;
}

unfoldable pub update_item_row : ℕ → ℕ → UpdateItemDto → Checklist → Checklist
update_item_row now id dto c = record c {
  items = update_rows (λ i. i.id == id) (set_item now dto) c.items;
}

unfoldable pub delete_item_row : ℕ → Checklist → Checklist
delete_item_row id c = record c { items = delete_rows (λ i. i.id == id) c.items }

-- ChecklistService.
unfoldable pub get_checklist : ℕ → Option ℕ → Store → Checklist → Result ApiError (List ItemRow)
get_checklist pool_id user_org s c = do
  pool ← pool_access pool_id user_org s
  ok (find_items pool_id c)

-- `new_id` is the random UUID that the database gives the row.
unfoldable pub add_item :
    ℕ → ℕ → ℕ → Option ℕ → CreateItemDto → Store → Checklist → Result ApiError (ItemRow × Checklist)
add_item now new_id pool_id user_org dto s c = do
  pool ← pool_access pool_id user_org s
  create_item
      (record {
        id = new_id;
        pool_id = pool_id;
        folder = dto.folder;
        item_name = dto.item_name;
        is_required = dto.is_required;
        linked_document_id = none;
        status = missing;
        updated_at = now;
      })
      c

-- The foreign key of a link.
abbrev pub is_linkable : Option (Option ℕ) → Store → Bool
is_linkable none s = true
is_linkable (some none) s = true
is_linkable (some (some id)) s = any_row (λ d. d.id == id) s.documents

unfoldable pub update_item :
    ℕ → ℕ → ℕ → Option ℕ → UpdateItemDto → Store → Checklist → Result ApiError (ItemRow × Checklist)
update_item now pool_id item_id user_org dto s c = do
  pool ← pool_access pool_id user_org s
  guard (any_row (λ i. i.id == item_id) (find_items pool_id c)) checklist_item_not_found
  guard (is_linkable dto.linked_document_id s) unknown_document
  let after = update_item_row now item_id dto c
  item ← or_throw (find_row (λ i. i.id == item_id) after.items) checklist_item_not_found
  ok (item, after)

unfoldable pub delete_item : ℕ → ℕ → Option ℕ → Store → Checklist → Result ApiError Checklist
delete_item pool_id item_id user_org s c = do
  pool ← pool_access pool_id user_org s
  guard (any_row (λ i. i.id == item_id) (find_items pool_id c)) checklist_item_not_found
  ok (delete_item_row item_id c)
