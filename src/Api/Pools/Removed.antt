-- ===== src/Api/Pools/Removed.antt =====
-- The pool of a removed member: getPool of apps/api/src/modules/pools/pools.service.ts and
-- handleMemberRemoved of apps/indexer/src/event-handlers/handlers.ts.
use brine_vault.Base.{
  ℕ, ◌==◌, Option, some, List, [], ◌∷◌, All, true, false, ◌&&◌, ◌≡◌, ◌≢◌, refl, sym, ap, ◌∙◌,
  if-elim, ok, >>=-eq-ok, guard-eq-ok, arith,
}
use brine_vault.Db.Tables.{PoolRow, DataroomRow, MemberRow, Store, find_row, ◌⨾◌}
use brine_vault.Db.Chain.{
  find_member, find_dataroom_by_sui, find_dataroom_by_pool, deactivate, insert_audit,
}
use brine_vault.Indexer.Handlers.{EventContext, handle_member_removed, invalidate_members}
use brine_vault.Indexer.Membership.{is_out, member_removed-out}
use brine_vault.Api.Access.{not_dataroom_member, pool_access}
use brine_vault.Api.Pools.{is_active_member, member_guard, get_pool}

out-inactive :
    (room member : ℕ) (rows : List MemberRow)
    → All (λ r. is_out room member r ≡ true) rows
    → is_active_member
        (find_row (λ r. (r.dataroom_id == room) && (r.member_address == member)) rows)
      ≡ false
unfolding find_row
out-inactive room member [] h = refl
out-inactive room member (r ∷ rows) h =
    if-elim (λ o. is_active_member o ≡ false)
      ((r.dataroom_id == room) && (r.member_address == member)) (some r)
      (find_row (λ x. (x.dataroom_id == room) && (x.member_address == member)) rows)
      (λ e. ground (arith, h.0)) (λ e. out-inactive room member rows h.1)

datarooms_kept :
    (ctx : EventContext) (room_id member removed_by : ℕ) (s : Store) (room : DataroomRow)
    → find_dataroom_by_sui room_id s ≡ some room
    → (handle_member_removed ctx room_id member removed_by s).1.datarooms ≡ s.datarooms
unfolding handle_member_removed ◌⨾◌ deactivate insert_audit invalidate_members
datarooms_kept ctx room_id member removed_by s room found = rw found refl

-- A removed member gets no pool: after the handler of a MemberRemoved event for the data room of a
-- pool, a request of that member for the pool does not succeed, whatever its organisation.
pub get_pool-after_removal :
    (ctx : EventContext) (room_id member removed_by pool_id : ℕ) (user_org : Option ℕ) (s : Store)
    (room : DataroomRow) (pool : PoolRow)
    → find_dataroom_by_sui room_id s ≡ some room
    → find_dataroom_by_pool pool_id s ≡ some room
    → get_pool pool_id member user_org (handle_member_removed ctx room_id member removed_by s).1
      ≢ ok pool
unfolding get_pool member_guard find_dataroom_by_pool find_member
get_pool-after_removal ctx room_id member removed_by pool_id user_org s room pool found by_pool h =
    let after = (handle_member_removed ctx room_id member removed_by s).1 in
    let kept : find_dataroom_by_pool pool_id after ≡ some room =
      ap (find_row (λ (r : DataroomRow). r.pool_id == pool_id))
        (datarooms_kept ctx room_id member removed_by s room found)
      ∙ by_pool in
    let (p, access, rest) = >>=-eq-ok (pool_access pool_id user_org after) _ h in
    let (u, passed, last) =
      >>=-eq-ok (member_guard member (find_dataroom_by_pool pool_id after) after) _ rest in
    let passed_room : member_guard member (some room) after ≡ ok u =
      ap (λ o. member_guard member o after) (sym kept) ∙ passed in
    let active =
      guard-eq-ok (is_active_member (find_member room.id member after)) not_dataroom_member
        passed_room in
    let inactive =
      out-inactive room.id member after.members
        (member_removed-out ctx room_id member removed_by s room found) in
    cc
