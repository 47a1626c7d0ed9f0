-- ===== src/Indexer/Membership.antt =====
-- Who is a member after a membership event: handleMemberAdded and handleMemberRemoved of
-- apps/indexer/src/event-handlers/handlers.ts.
use brine_vault.Base.{
  ℕ, ◌==◌, some, List, [], ◌∷◌, Bool, true, false, ◌&&◌, ◌||◌, ◌≡◌, refl, sym, ap, ◌∙◌, arith, All,
  if◌then◌else◌, if-elim, Bool-cases, inl, inr,
}
use brine_vault.Db.Tables.{
  MemberRow, DataroomRow, Store, ◌⨾◌, checked, any_row, update_rows, set_where, upsert_row,
}
use brine_vault.Db.Chain.{
  find_dataroom_by_sui, upsert_member, deactivate, insert_audit, is_role, same_member,
}
use brine_vault.Db.Lookup.{any_row-none}
use brine_vault.Indexer.Handlers.{
  EventContext, handle_member_added, handle_member_removed, invalidate_members,
}

or-true : (b : Bool) → (b || true) ≡ true
or-true true = refl
or-true false = refl

module _ {A : Type 0} where
  -- What an update makes true of the rows that meet its condition.
  All-update_rows :
      (p q : A → Bool) (f : A → A)
      → ((r : A) → p r ≡ true → q (f r) ≡ true)
      → ((r : A) → p r ≡ false → q r ≡ true)
      → (rs : List A) → All (λ r. q r ≡ true) (update_rows p f rs)
  unfolding update_rows
  All-update_rows p q f hit miss [] = tt
  All-update_rows p q f hit miss (r ∷ rs) =
      (if-elim (λ x. q x ≡ true) (p r) (f r) r (hit r) (miss r), All-update_rows p q f hit miss rs)

  any_row-update_rows :
      (p t : A → Bool) (f : A → A)
      → ((r : A) → p r ≡ true → t (f r) ≡ true)
      → (rs : List A) → any_row p rs ≡ true
      → any_row t (update_rows p f rs) ≡ true
  unfolding any_row update_rows
  any_row-update_rows p t f hit [] h = absurd (ground arith)
  any_row-update_rows p t f hit (r ∷ rs) h = elim (Bool-cases (p r)) [
    | inl e ↦
        ap (λ b. t (if b then f r else r) || any_row t (update_rows p f rs)) e
        ∙ ap (λ b. b || any_row t (update_rows p f rs)) (hit r e)
    | inr e ↦
        let rest : any_row t (update_rows p f rs) ≡ true =
          any_row-update_rows p t f hit rs (sym (ap (λ b. b || any_row p rs) e) ∙ h) in
        ap (λ b. t (set_where p f r) || b) rest ∙ or-true (t (set_where p f r))
  ]

  -- What an upsert makes true of every row, and that it leaves a row of its key.
  upsert_row-lem :
      (same : A → A → Bool) (q t : A → Bool) (f : A → A) (r : A)
      → ((x : A) → same r x ≡ true → q (f x) ≡ true)
      → ((x : A) → same r x ≡ true → t (f x) ≡ true)
      → ((x : A) → same r x ≡ false → q x ≡ true)
      → q r ≡ true
      → t r ≡ true
      → (rs : List A)
      → All (λ x. q x ≡ true) (upsert_row same f r rs) × (any_row t (upsert_row same f r rs) ≡ true)
  unfolding upsert_row any_row
  upsert_row-lem same q t f r qf tf others qr tr rs =
      if-elim (λ xs. All (λ x. q x ≡ true) xs × (any_row t xs ≡ true)) (any_row (same r) rs)
        (update_rows (same r) f rs) (r ∷ rs)
        (λ e. (All-update_rows (same r) q f qf others rs, any_row-update_rows (same r) t f tf rs e))
        (λ e. ((qr, All-weaken rs (any_row-none (same r) rs e)), ap (λ b. b || any_row t rs) tr))
    where
      All-weaken : (xs : List A) → All (λ x. same r x ≡ false) xs → All (λ x. q x ≡ true) xs
      All-weaken [] h = tt
      All-weaken (x ∷ xs) (h, hs) = (others x h, All-weaken xs hs)

-- A row is not that of a member, or the member is inactive; or, the other way round, active with
-- a role.
abbrev pub is_out : ℕ → ℕ → MemberRow → Bool
is_out room member r =
    if (r.dataroom_id == room) && (r.member_address == member)
    then (if r.is_active then false else true)
    else true

abbrev pub is_in_with : ℕ → ℕ → ℕ → MemberRow → Bool
is_in_with room member role r =
    if (r.dataroom_id == room) && (r.member_address == member)
    then r.is_active && (r.role == role)
    else true

-- After a MemberRemoved event for a known dataroom no row of that dataroom and address is active.
pub member_removed-out :
    (ctx : EventContext) (room_id member removed_by : ℕ) (s : Store) (room : DataroomRow)
    → find_dataroom_by_sui room_id s ≡ some room
    → All
        (λ r. is_out room.id member r ≡ true)
        (handle_member_removed ctx room_id member removed_by s).1.members
unfolding handle_member_removed ◌⨾◌ deactivate insert_audit invalidate_members
member_removed-out ctx room_id member removed_by s room found = rw found (
    All-update_rows (λ r. (r.dataroom_id == room.id) && (r.member_address == member))
      (is_out room.id member) (λ r. record r { is_active = false; revoked_at = some ctx.now })
      (λ r h. ground arith) (λ r h. ground arith) s.members)

-- After a MemberAdded event with a valid role for a known dataroom there is a row of that dataroom
-- and address, and every such row is active with that role, also when the member had been removed.
pub member_added-in :
    (ctx : EventContext) (room_id member role added_by : ℕ) (s : Store) (room : DataroomRow)
    → find_dataroom_by_sui room_id s ≡ some room
    → is_role role ≡ true
    → let after = (handle_member_added ctx room_id member role added_by s).1 in
      All (λ r. is_in_with room.id member role r ≡ true) after.members
      × (any_row (λ r. (r.dataroom_id == room.id) && (r.member_address == member)) after.members
          ≡ true)
unfolding handle_member_added ◌⨾◌ upsert_member insert_audit invalidate_members checked
member_added-in ctx room_id member role added_by s room found valid = rw found (
    rw valid (
      upsert_row-lem same_member (is_in_with room.id member role)
        (λ r. (r.dataroom_id == room.id) && (r.member_address == member)) _ _ (λ x e. ground arith)
        (λ x e. ground arith) (λ x e. ground arith) (ground arith) (ground arith) s.members))
