-- ===== src/Api/Checklist/Isolation.antt =====
-- The checklists of other pools: apps/api/src/modules/checklist/checklist.service.ts.
use brine_vault.Base.{
  ℕ, ◌==◌, List, [], ◌∷◌, All, Bool, true, false, ◌≡◌, ◌≢◌, refl, sym, ap, if◌then◌else◌, if-elim,
  Bool-cases, inl, inr, arith,
}
use brine_vault.Db.Tables.{Store, any_row, rows_where, update_rows}
use brine_vault.Api.Checklist.{
  ItemRow, Checklist, UpdateItemDto, delete_rows, set_item, find_items, update_item_row,
  delete_item_row, add_item,
}
use brine_vault.Api.Checklist.Requests.{
  Request, adding, updating, deleting, add_item-eq-ok, update_item-eq-ok, delete_item-eq-ok,
}

-- The primary key: no two rows have the same id.
abbrev pub IsOther : ItemRow → ItemRow → Type 0
IsOther a b = (a.id == b.id) ≡ false

abbrev pub IsDistinct : List ItemRow → Type 0
IsDistinct [] = Unit
IsDistinct (r ∷ rows) = All (IsOther r) rows × IsDistinct rows

-- A row with the id is a row of the pool.
abbrev InPool : ℕ → ℕ → ItemRow → Type 0
InPool item_id pool_id r = (r.id == item_id) ≡ true → (r.pool_id == pool_id) ≡ true

InPool-others :
    (item_id pool_id : ℕ) (r : ItemRow) (rows : List ItemRow)
    → (r.id == item_id) ≡ true
    → All (IsOther r) rows
    → All (InPool item_id pool_id) rows
InPool-others item_id pool_id r [] here h = tt
InPool-others item_id pool_id r (x ∷ rows) here h =
    (λ there. ground (arith, h.0), InPool-others item_id pool_id r rows here h.1)

bool_clash : {b : Bool} → b ≡ true → b ≢ false
bool_clash here elsewhere = cc

outside :
    (other pool_id : ℕ) (r : ItemRow)
    → other ≢ pool_id
    → (r.pool_id == pool_id) ≡ true
    → (r.pool_id == other) ≡ false
outside other pool_id r differ here = ground arith

-- A row differs from a later row with the id.
others_differ :
    (item_id pool_id : ℕ) (r : ItemRow) (rows : List ItemRow)
    → any_row (λ i. i.id == item_id) (rows_where (λ i. i.pool_id == pool_id) rows) ≡ true
    → All (IsOther r) rows
    → (r.id == item_id) ≡ false
unfolding any_row rows_where
others_differ item_id pool_id r [] has h = cc
others_differ item_id pool_id r (x ∷ rows) has h =
    if-elim (λ t. any_row (λ i. i.id == item_id) t ≡ true → (r.id == item_id) ≡ false)
      (x.pool_id == pool_id) (x ∷ rows_where (λ i. i.pool_id == pool_id) rows)
      (rows_where (λ i. i.pool_id == pool_id) rows)
      (λ e here. elim (Bool-cases (x.id == item_id)) [
        | inl same ↦ ground (arith, h.0)
        | inr later ↦ others_differ item_id pool_id r rows (ground (arith, here)) h.1
      ])
      (λ e here. others_differ item_id pool_id r rows here h.1) has

-- When the pool has an item with the id, the only row with the id is that one.
pool_of_id :
    (item_id pool_id : ℕ) (rows : List ItemRow)
    → IsDistinct rows
    → any_row (λ i. i.id == item_id) (rows_where (λ i. i.pool_id == pool_id) rows) ≡ true
    → All (InPool item_id pool_id) rows
unfolding any_row rows_where
pool_of_id item_id pool_id [] distinct h = tt
pool_of_id item_id pool_id (r ∷ rows) distinct h =
    if-elim (λ t. any_row (λ i. i.id == item_id) t ≡ true → All (InPool item_id pool_id) (r ∷ rows))
      (r.pool_id == pool_id) (r ∷ rows_where (λ i. i.pool_id == pool_id) rows)
      (rows_where (λ i. i.pool_id == pool_id) rows)
      (λ mine has. (
        λ here. mine,
        if-elim (λ (b : Bool). (b ≡ true) → All (InPool item_id pool_id) rows) (r.id == item_id)
            true (any_row (λ i. i.id == item_id) (rows_where (λ i. i.pool_id == pool_id) rows))
            (λ e u. InPool-others item_id pool_id r rows e distinct.0)
            (λ e later. pool_of_id item_id pool_id rows distinct.1 later) (ground (arith, has)),
      ))
      (λ other has. (
        λ here. absurd (bool_clash here (others_differ item_id pool_id r rows has distinct.0)),
        pool_of_id item_id pool_id rows distinct.1 has,
      ))
      h

update-where :
    (item_id pool_id other now : ℕ) (dto : UpdateItemDto) (rows : List ItemRow)
    → other ≢ pool_id
    → All (InPool item_id pool_id) rows
    → rows_where
        (λ i. i.pool_id == other)
        (update_rows (λ i. i.id == item_id) (set_item now dto) rows)
      ≡ rows_where (λ i. i.pool_id == other) rows
unfolding rows_where update_rows
update-where item_id pool_id other now dto [] differ h = refl
update-where item_id pool_id other now dto (r ∷ rows) differ h =
    let rest = update-where item_id pool_id other now dto rows differ h.1 in
    if-elim
      (λ (x : ItemRow).
        (if x.pool_id == other
          then x
            ∷ rows_where (λ i. i.pool_id == other)
                (update_rows (λ i. i.id == item_id) (set_item now dto) rows)
          else rows_where (λ i. i.pool_id == other)
              (update_rows (λ i. i.id == item_id) (set_item now dto) rows))
        ≡ (if r.pool_id == other
            then r ∷ rows_where (λ i. i.pool_id == other) rows
            else rows_where (λ i. i.pool_id == other) rows))
      (r.id == item_id) (set_item now dto r) r
      (λ e. rw (outside other pool_id r differ (h.0 e)) rest)
      (λ e. ap (λ t. if r.pool_id == other then r ∷ t else t) rest)

delete-where :
    (item_id pool_id other : ℕ) (rows : List ItemRow)
    → other ≢ pool_id
    → All (InPool item_id pool_id) rows
    → rows_where (λ i. i.pool_id == other) (delete_rows (λ i. i.id == item_id) rows)
      ≡ rows_where (λ i. i.pool_id == other) rows
unfolding rows_where delete_rows
delete-where item_id pool_id other [] differ h = refl
delete-where item_id pool_id other (r ∷ rows) differ h =
    let rest = delete-where item_id pool_id other rows differ h.1 in
    if-elim
      (λ t.
        rows_where (λ i. i.pool_id == other) t ≡ rows_where (λ i. i.pool_id == other) (r ∷ rows))
      (r.id == item_id) (delete_rows (λ i. i.id == item_id) rows)
      (r ∷ delete_rows (λ i. i.id == item_id) rows)
      (λ e. rw (outside other pool_id r differ (h.0 e)) rest)
      (λ e. ap (λ t. if r.pool_id == other then r ∷ t else t) rest)

-- A request for the checklist of one pool leaves the checklists of all other pools as they are, in a
-- table whose ids are distinct: also an update or a deletion of an item by its id alone.
pub request-isolated :
    (s : Store) (pool_id other : ℕ) (c after : Checklist)
    → Request s pool_id c after
    → IsDistinct c.items
    → other ≢ pool_id
    → find_items other after ≡ find_items other c
unfolding add_item find_items update_item_row delete_item_row rows_where
request-isolated s pool_id other c after (adding now new_id user_org dto item h) well differ =
    let (member, free, same, result) =
      add_item-eq-ok now new_id pool_id user_org dto s c item after h in
    let skipped : (pool_id == other) ≡ false = ground arith in rw (sym result) (rw skipped refl)
request-isolated s pool_id other c after (updating now item_id user_org dto item h) well differ =
    let (member, has, result) =
      update_item-eq-ok now pool_id item_id user_org dto s c item after h in
    rw (sym result) (
      update-where item_id pool_id other now dto c.items differ
        (pool_of_id item_id pool_id c.items well has))
request-isolated s pool_id other c after (deleting item_id user_org h) well differ =
    let (member, has, result) = delete_item-eq-ok pool_id item_id user_org s c after h in
    rw (sym result) (
      delete-where item_id pool_id other c.items differ
        (pool_of_id item_id pool_id c.items well has))
