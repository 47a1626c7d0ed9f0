-- ===== src/Api/Guards/Removed.antt =====
-- The role guard after a member was removed: apps/api/src/common/guards/role.guard.ts and
-- handleMemberRemoved of apps/indexer/src/event-handlers/handlers.ts.
use brine_vault.Base.{
  ℕ, ◌==◌, Option, none, some, List, [], ◌∷◌, Bool, true, false, ◌||◌, ◌&&◌, ◌≡◌, refl, ap, ◌∙◌,
  if◌then◌else◌, if-elim, Option-cases, inl, inr, ok, err,
}
use brine_vault.Shared.Roles.{has_role}
use brine_vault.Db.Tables.{MemberRow, Store, find_row, update_rows, ◌⨾◌}
use brine_vault.Db.Chain.{find_member, find_dataroom_by_sui, deactivate, insert_audit}
use brine_vault.Indexer.Handlers.{EventContext, handle_member_removed, invalidate_members}
use brine_vault.Api.Guards.{insufficient_role, RequestUser, member_has, role_guard}

-- An update that keeps the condition of a lookup and the roles keeps what the guard reads.
member_has-update_rows :
    (required : ℕ) (q p : MemberRow → Bool) (f : MemberRow → MemberRow)
    → ((r : MemberRow) → q (f r) ≡ q r)
    → ((r : MemberRow) → (f r).role ≡ r.role)
    → (rs : List MemberRow)
    → member_has required (find_row q (update_rows p f rs)) ≡ member_has required (find_row q rs)
unfolding find_row update_rows
member_has-update_rows required q p f keeps role [] = refl
member_has-update_rows required q p f keeps role (r ∷ rs) =
    if-elim
      (λ x.
        member_has required (if q x then some x else find_row q (update_rows p f rs))
        ≡ member_has required (if q r then some r else find_row q rs))
      (p r) (f r) r
      (λ e.
        ap (λ b. member_has required (if b then some (f r) else find_row q (update_rows p f rs)))
          (keeps r)
        ∙ branch (q r) (f r) (role r) (member_has-update_rows required q p f keeps role rs))
      (λ e. branch (q r) r refl (member_has-update_rows required q p f keeps role rs))
  where
    branch :
        (b : Bool) (x : MemberRow)
        → x.role ≡ r.role
        → member_has required (find_row q (update_rows p f rs))
          ≡ member_has required (find_row q rs)
        → member_has required (if b then some x else find_row q (update_rows p f rs))
          ≡ member_has required (if b then some r else find_row q rs)
    branch true x same rest = ap (λ k. has_role k required) same
    branch false x same rest = rest

removal_unseen :
    (ctx : EventContext) (room_id member removed_by : ℕ) (s : Store) (required address pool_id : ℕ)
    → member_has required
        (find_member pool_id address (handle_member_removed ctx room_id member removed_by s).1)
      ≡ member_has required (find_member pool_id address s)
unfolding find_member handle_member_removed ◌⨾◌ deactivate insert_audit invalidate_members
removal_unseen ctx room_id member removed_by s required address pool_id =
    elim (Option-cases (find_dataroom_by_sui room_id s)) [
      | inl e ↦ rw e refl
      | inr found ↦ rw (found.1) (
          member_has-update_rows required
            (λ r. (r.dataroom_id == pool_id) && (r.member_address == address))
            (λ r. (r.dataroom_id == found.0.id) && (r.member_address == member))
            (λ r. record r { is_active = false; revoked_at = some ctx.now }) (λ r. refl) (λ r. refl)
            s.members)
    ]

-- The role guard does not see that a member is removed: for every store, user, pool id and required
-- role its decision after the handler of a MemberRemoved event is the one before, since the handler
-- clears only isActive, which the guard does not read.
pub role_guard-after_removal :
    (ctx : EventContext) (room_id member removed_by : ℕ) (s : Store) (required : Option ℕ)
    (user : Option RequestUser) (pool_id : Option ℕ)
    → role_guard required user pool_id (handle_member_removed ctx room_id member removed_by s).1
      ≡ role_guard required user pool_id s
unfolding role_guard
role_guard-after_removal ctx room_id member removed_by s none user pool_id = refl
role_guard-after_removal ctx room_id member removed_by s (some required) none pool_id = refl
role_guard-after_removal ctx room_id member removed_by s (some required) (some user) none = refl
role_guard-after_removal ctx room_id member removed_by s (some required) (some user)
      (some pool_id) =
    ap (λ b. if has_role user.org_role required || b then ok tt else err insufficient_role)
      (removal_unseen ctx room_id member removed_by s required user.user_address pool_id)
