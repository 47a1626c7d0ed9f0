-- ===== src/Api/Checklist/Effect.antt =====
-- A request for a checklist against what it should do to the list of its pool:
-- apps/api/src/modules/checklist/checklist.service.ts works by id on the table of all pools.
use brine_vault.Base.{ℕ, ◌==◌, ◌∷◌, true, ◌≡◌}
use brine_vault.Db.Tables.{Store, any_row, update_rows}
use brine_vault.Api.Checklist.{Checklist, delete_rows, set_item, find_items}
use brine_vault.Api.Checklist.Requests.{Request, adding, updating, deleting, asked_item, Member}

-- What each request should do: the user is of the pool's organisation, and the list of the pool gets
-- the new item at its front, has its item with the id changed, or loses it.
abbrev pub Effect :
    {s : Store} {pool_id : ℕ} {c after : Checklist} → Request s pool_id c after → Type 0
Effect {s} {pool_id} {c} {after} (adding now new_id user_org dto item h) =
    Member pool_id user_org s
    × (item ≡ asked_item now new_id pool_id dto)
    × (find_items pool_id after ≡ item ∷ find_items pool_id c)
Effect {s} {pool_id} {c} {after} (updating now item_id user_org dto item h) =
    Member pool_id user_org s
    × (any_row (λ i. i.id == item_id) (find_items pool_id c) ≡ true)
    × (find_items pool_id after
        ≡ update_rows (λ i. i.id == item_id) (set_item now dto) (find_items pool_id c))
Effect {s} {pool_id} {c} {after} (deleting item_id user_org h) =
    Member pool_id user_org s
    × (any_row (λ i. i.id == item_id) (find_items pool_id c) ≡ true)
    × (find_items pool_id after ≡ delete_rows (λ i. i.id == item_id) (find_items pool_id c))
