-- ===== src/Api/Orgs/Joining.antt =====
-- What joining an organisation needs and does: joinOrg of apps/api/src/modules/orgs/orgs.service.ts.
use brine_vault.Base.{
  ℕ, ◌<◌, ltb, ◌==◌, ==_self, if◌then◌else◌, suc, Option, none, some, ◌≡◌, refl, sym, ap, ◌∙◌,
  arith, Result, ok, err, guard, or_throw, >>=-eq-ok, guard-eq-ok, or_throw-eq-ok,
}
use brine_vault.Shared.Roles.{viewer}
use brine_vault.Db.Tables.{find_row, update_rows, set_where}
use brine_vault.Db.Lookup.{find_row-update_rows, find_row-update_where, map_row}
use brine_vault.Api.Session.{UserRow}
use brine_vault.Api.Orgs.{
  InviteRow, OrgStore, OrgError, user_not_found, already_in_org, invalid_invite_code,
  invite_code_expired, free_user, set_org, use_once, create_org, join_org,
}

free_user-found :
    (user_id : ℕ) (s : OrgStore) (user : UserRow)
    → free_user user_id s ≡ ok user
    → (find_row (λ u. u.id == user_id) s.users ≡ some user) × (user.user_org_id ≡ none)
unfolding free_user
free_user-found user_id s user h =
    let (u, found, rest) =
      >>=-eq-ok (or_throw (find_row (λ u. u.id == user_id) s.users) user_not_found) _ h in
    let (equal, free) = same u.user_org_id u rest in
    (
      or_throw-eq-ok _ _ found ∙ ap some equal,
      sym (ap (λ (x : UserRow). x.user_org_id) equal) ∙ free,
    )
  where
    same :
        (o : Option ℕ) (u : UserRow)
        → (elim o as (λ x. Result OrgError UserRow) [ none ↦ ok u | some x ↦ err already_in_org ])
          ≡ ok user
        → (u ≡ user) × (o ≡ none)
    same none u e = (cc, refl)
    same (some x) u e = cc

-- Once a user is in an organisation, no call finds the user free.
free_user-taken :
    (user_id org_id role : ℕ) (s s' : OrgStore) (user : UserRow)
    → find_row (λ u. u.id == user_id) s.users ≡ some user
    → s'.users ≡ update_rows (λ u. u.id == user_id) (set_org org_id role) s.users
    → free_user user_id s' ≡ err already_in_org
unfolding free_user
free_user-taken user_id org_id role s s' user found users =
    let now_found : find_row (λ u. u.id == user_id) s'.users ≡ some (set_org org_id role user) =
      ap (find_row (λ u. u.id == user_id)) users
      ∙ find_row-update_rows (λ u. u.id == user_id) (set_org org_id role) (λ u. refl) s.users
      ∙ ap (map_row (set_org org_id role)) found in
    rw now_found refl

-- A call of joinOrg that succeeds had an invite of the given code that had not expired and had a
-- use left. It puts the user, who was in no organisation, into the invite's organisation as a viewer;
-- the invite counts one use more; and afterwards the same user can neither join nor create an
-- organisation: both fail with ALREADY_IN_ORG.
pub join_org-once :
    (now later user_id code code' name : ℕ) (legal_name : Option ℕ) (s s' : OrgStore) (org_id : ℕ)
    → join_org now user_id code s ≡ ok (org_id, s')
    → ((invite : InviteRow) × (user : UserRow) × (find_row (λ i. i.code == code) s.invites
          ≡ some invite)
        × (find_row (λ u. u.id == user_id) s.users ≡ some user)
        × (now < invite.expires_at)
        × (invite.current_uses < invite.max_uses)
        × (org_id ≡ invite.org_id)
        × (user.user_org_id ≡ none)
        × (find_row (λ u. u.id == user_id) s'.users
            ≡ some (record user { user_org_id = some invite.org_id; role_in_org = some viewer }))
        × (find_row (λ i. i.code == code) s'.invites
            ≡ some (record invite { current_uses = suc invite.current_uses })))
      × (join_org later user_id code' s' ≡ err already_in_org)
      × (create_org user_id name legal_name s' ≡ err already_in_org)
unfolding join_org create_org
join_org-once now later user_id code code' name legal_name s s' org_id h =
    let (user, free, h1) = >>=-eq-ok (free_user user_id s) _ h in
    let (invite, found, h2) =
      >>=-eq-ok (or_throw (find_row (λ i. i.code == code) s.invites) invalid_invite_code) _ h1 in
    let (u1, live, h3) = >>=-eq-ok (guard (ltb now invite.expires_at) invite_code_expired) _ h2 in
    let (u2, left, h4) =
      >>=-eq-ok (guard (ltb invite.current_uses invite.max_uses) invite_code_expired) _ h3 in
    let store : s' ≡ record s {
      users = update_rows (λ u. u.id == user_id) (set_org invite.org_id viewer) s.users;
      invites = update_rows (λ i. i.id == invite.id) use_once s.invites;
    } =
      cc in
    let org : org_id ≡ invite.org_id = cc in
    let live_test = guard-eq-ok _ _ live in
    let left_test = guard-eq-ok _ _ left in
    let taken =
      free_user-taken user_id invite.org_id viewer s s' user (free_user-found user_id s user free).0
        (ap (λ (x : OrgStore). x.users) store) in
    let has_invite = or_throw-eq-ok _ _ found in
    let (has_user, was_free) = free_user-found user_id s user free in
    let joined =
      ap (λ (x : OrgStore). find_row (λ u. u.id == user_id) x.users) store
      ∙ find_row-update_rows (λ u. u.id == user_id) (set_org invite.org_id viewer) (λ u. refl)
          s.users
      ∙ ap (map_row (set_org invite.org_id viewer)) has_user in
    let counted =
      ap (λ (x : OrgStore). find_row (λ i. i.code == code) x.invites) store
      ∙ find_row-update_where (λ i. i.code == code) (λ i. i.id == invite.id) use_once (λ i. refl)
          s.invites
      ∙ ap (map_row (set_where (λ i. i.id == invite.id) use_once)) has_invite
      ∙ ap (λ b. some (if b then use_once invite else invite)) (==_self invite.id) in
    (
      (
        invite,
        user,
        has_invite,
        has_user,
        ground arith,
        ground arith,
        org,
        was_free,
        joined,
        counted,
      ),
      rw taken refl,
      rw taken refl,
    )
