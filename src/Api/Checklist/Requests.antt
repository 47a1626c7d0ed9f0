-- ===== src/Api/Checklist/Requests.antt =====
-- The requests for a checklist that succeed: apps/api/src/modules/checklist/checklist.service.ts.
use brine_vault.Base.{
  ℕ, ◌==◌, Option, none, ◌∷◌, Bool, true, false, ◌≡◌, refl, if◌then◌else◌, Result, ok, err, guard,
  or_throw, >>=-eq-ok, guard-eq-ok,
}
use brine_vault.Db.Tables.{Store, PoolRow, any_row, find_row}
use brine_vault.Api.Access.{ApiError, checklist_item_not_found, unknown_document, pool_access}
use brine_vault.Api.Access.Rules.{MayUse, pool_access_sound}
use brine_vault.Api.Checklist.{
  ItemRow, Checklist, CreateItemDto, UpdateItemDto, same_item, missing, is_linkable, find_items,
  create_item, update_item_row, delete_item_row, add_item, update_item, delete_item,
}

-- A request for a pool that succeeds.
pub data Request (s : Store) (pool_id : ℕ) : Checklist → Checklist → Type 0 where
  adding :
      {c after : Checklist} (now new_id : ℕ) (user_org : Option ℕ) (dto : CreateItemDto)
      (item : ItemRow)
      → add_item now new_id pool_id user_org dto s c ≡ ok (item, after)
      → Request s pool_id c after
  updating :
      {c after : Checklist} (now item_id : ℕ) (user_org : Option ℕ) (dto : UpdateItemDto)
      (item : ItemRow)
      → update_item now pool_id item_id user_org dto s c ≡ ok (item, after)
      → Request s pool_id c after
  deleting :
      {c after : Checklist} (item_id : ℕ) (user_org : Option ℕ)
      → delete_item pool_id item_id user_org s c ≡ ok after
      → Request s pool_id c after

refused-eq-ok :
    {A : Type 0} (test : Bool) (thrown : ApiError) (rest : Result ApiError A) {value : A}
    → (if test then err thrown else rest) ≡ ok value
    → (test ≡ false) × (rest ≡ ok value)
refused-eq-ok true thrown rest h = cc
refused-eq-ok false thrown rest h = (refl, h)

-- The row that a request to add an item asks for.
abbrev pub asked_item : ℕ → ℕ → ℕ → CreateItemDto → ItemRow
asked_item now new_id pool_id dto = record {
  id = new_id;
  pool_id = pool_id;
  folder = dto.folder;
  item_name = dto.item_name;
  is_required = dto.is_required;
  linked_document_id = none;
  status = missing;
  updated_at = now;
}

-- A user of the organisation of the pool.
abbrev pub Member : ℕ → Option ℕ → Store → Type 0
Member pool_id user_org s = (pool : PoolRow) × MayUse pool_id user_org s pool

-- What a request that succeeds did to the table.
pub add_item-eq-ok :
    (now new_id pool_id : ℕ) (user_org : Option ℕ) (dto : CreateItemDto) (s : Store) (c : Checklist)
    (item : ItemRow) (after : Checklist)
    → add_item now new_id pool_id user_org dto s c ≡ ok (item, after)
    → Member pool_id user_org s
      × (any_row (same_item (asked_item now new_id pool_id dto)) c.items ≡ false)
      × (asked_item now new_id pool_id dto ≡ item)
      × ((record c { items = asked_item now new_id pool_id dto ∷ c.items }) ≡ after)
unfolding add_item create_item
add_item-eq-ok now new_id pool_id user_org dto s c item after h =
    let (pool, access, made) = >>=-eq-ok (pool_access pool_id user_org s) _ h in
    let (free, kept) =
      refused-eq-ok (any_row (same_item (asked_item now new_id pool_id dto)) c.items) _ _ made in
    ((pool, pool_access_sound pool_id user_org s pool access), free, cc, cc)

pub update_item-eq-ok :
    (now pool_id item_id : ℕ) (user_org : Option ℕ) (dto : UpdateItemDto) (s : Store)
    (c : Checklist) (item : ItemRow) (after : Checklist)
    → update_item now pool_id item_id user_org dto s c ≡ ok (item, after)
    → Member pool_id user_org s
      × (any_row (λ i. i.id == item_id) (find_items pool_id c) ≡ true)
      × (update_item_row now item_id dto c ≡ after)
unfolding update_item
update_item-eq-ok now pool_id item_id user_org dto s c item after h =
    let (pool, access, rest) = >>=-eq-ok (pool_access pool_id user_org s) _ h in
    let mine = any_row (λ i. i.id == item_id) (find_items pool_id c) in
    let (u, has, rest2) = >>=-eq-ok (guard mine checklist_item_not_found) _ rest in
    let (v, links, rest1) =
      >>=-eq-ok (guard (is_linkable dto.linked_document_id s) unknown_document) _ rest2 in
    let found = find_row (λ i. i.id == item_id) (update_item_row now item_id dto c).items in
    let (row, shown, last) = >>=-eq-ok (or_throw found checklist_item_not_found) _ rest1 in
    (
      (pool, pool_access_sound pool_id user_org s pool access),
      guard-eq-ok mine checklist_item_not_found has,
      cc,
    )

pub delete_item-eq-ok :
    (pool_id item_id : ℕ) (user_org : Option ℕ) (s : Store) (c after : Checklist)
    → delete_item pool_id item_id user_org s c ≡ ok after
    → Member pool_id user_org s
      × (any_row (λ i. i.id == item_id) (find_items pool_id c) ≡ true)
      × (delete_item_row item_id c ≡ after)
unfolding delete_item
delete_item-eq-ok pool_id item_id user_org s c after h =
    let (pool, access, rest) = >>=-eq-ok (pool_access pool_id user_org s) _ h in
    let mine = any_row (λ i. i.id == item_id) (find_items pool_id c) in
    let (u, has, last) = >>=-eq-ok (guard mine checklist_item_not_found) _ rest in
    (
      (pool, pool_access_sound pool_id user_org s pool access),
      guard-eq-ok mine checklist_item_not_found has,
      cc,
    )
