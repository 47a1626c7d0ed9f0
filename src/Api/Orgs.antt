-- ===== src/Api/Orgs.antt =====
-- OrgsService: apps/api/src/modules/orgs/orgs.service.ts, with the repositories of organisations,
-- users and invite codes. The code of a new invite and its expiry are arguments; a call runs
-- alone, from its reads to its writes.
pub mod Joining
use brine_vault.Base.{
  ℕ, suc, ◌-◌, ◌*◌, ltb, leb, ◌==◌, not, Option, none, some, List, [], ◌∷◌, take, drop, Bool, true,
  false, if◌then◌else◌, Result, ok, err, ◌>>=◌, ◌>>◌, guard, or_throw,
}
use brine_vault.Shared.Roles.{viewer, org_admin, has_role}
use brine_vault.Db.Tables.{find_row, rows_where, update_rows}
use brine_vault.Api.Session.{UserRow}

pub record OrgRow : Type 0 where
  pub id : ℕ
  pub name : ℕ
  pub legal_name : Option ℕ
  pub created_by_user_id : ℕ

pub record InviteRow : Type 0 where
  pub id : ℕ
  pub org_id : ℕ
  pub code : ℕ
  pub created_by_user_id : ℕ
  pub max_uses : ℕ
  pub current_uses : ℕ
  pub expires_at : ℕ

pub record OrgStore : Type 0 where
  pub organizations : List OrgRow
  pub users : List UserRow
  pub invites : List InviteRow
  pub next_id : ℕ

pub data OrgError : Type 0 where
  user_not_found already_in_org not_in_org org_not_found insufficient_role : OrgError
  invalid_invite_code invite_code_expired : OrgError

-- `userOrgId === orgId`.
abbrev pub is_own : Option ℕ → ℕ → Bool
is_own none org_id = false
is_own (some o) org_id = o == org_id

-- A user of the table that is in no organisation.
unfoldable pub free_user : ℕ → OrgStore → Result OrgError UserRow
free_user user_id s = do
  let found = find_row (λ u. u.id == user_id) s.users
  user ← or_throw found user_not_found
  elim user.user_org_id [ none ↦ ok user | some o ↦ err already_in_org ]

abbrev pub set_org : ℕ → ℕ → UserRow → UserRow
set_org org_id role u = record u { user_org_id = some org_id; role_in_org = some role }

unfoldable pub create_org : ℕ → ℕ → Option ℕ → OrgStore → Result OrgError (OrgRow × OrgStore)
create_org user_id name legal_name s = do
  user ← free_user user_id s
  let org : OrgRow = record {
    id = s.next_id;
    name = name;
    legal_name = legal_name;
    created_by_user_id = user_id;
  }
  ok (
    org,
    record s {
      organizations = org ∷ s.organizations;
      users = update_rows (λ u. u.id == user_id) (set_org org.id org_admin) s.users;
      next_id = suc s.next_id;
    },
  )

unfoldable pub get_org : ℕ → Option ℕ → OrgStore → Result OrgError OrgRow
get_org org_id user_org s = do
  guard (is_own user_org org_id) not_in_org
  or_throw (find_row (λ o. o.id == org_id) s.organizations) org_not_found

-- `change` is the update that the request asks for.
unfoldable pub update_org :
    ℕ → Option ℕ → ℕ → (OrgRow → OrgRow) → OrgStore → Result OrgError OrgStore
update_org org_id user_org user_role change s = do
  guard (is_own user_org org_id) not_in_org
  guard (has_role user_role org_admin) insufficient_role
  ok (record s { organizations = update_rows (λ o. o.id == org_id) change s.organizations })

unfoldable pub generate_invite :
    ℕ → ℕ → ℕ → ℕ → Option ℕ → ℕ → ℕ → OrgStore → Result OrgError (InviteRow × OrgStore)
generate_invite code expires_at org_id user_id user_org user_role max_uses s = do
  guard (is_own user_org org_id) not_in_org
  guard (has_role user_role org_admin) insufficient_role
  org ← or_throw (find_row (λ o. o.id == org_id) s.organizations) org_not_found
  let invite : InviteRow = record {
    id = s.next_id;
    org_id = org_id;
    code = code;
    created_by_user_id = user_id;
    max_uses = max_uses;
    current_uses = 0;
    expires_at = expires_at;
  }
  ok (invite, record s { invites = invite ∷ s.invites; next_id = suc s.next_id })

-- `incrementUses`.
abbrev pub use_once : InviteRow → InviteRow
use_once i = record i { current_uses = suc i.current_uses }

unfoldable pub join_org : ℕ → ℕ → ℕ → OrgStore → Result OrgError (ℕ × OrgStore)
join_org now user_id code s = do
  user ← free_user user_id s
  invite ← or_throw (find_row (λ i. i.code == code) s.invites) invalid_invite_code
  guard (ltb now invite.expires_at) invite_code_expired
  guard (ltb invite.current_uses invite.max_uses) invite_code_expired
  ok (
    invite.org_id,
    record s {
      users = update_rows (λ u. u.id == user_id) (set_org invite.org_id viewer) s.users;
      invites = update_rows (λ i. i.id == invite.id) use_once s.invites;
    },
  )

unfoldable pub list_org_members : ℕ → Option ℕ → ℕ → ℕ → OrgStore → Result OrgError (List UserRow)
list_org_members org_id user_org page limit s = do
  guard (is_own user_org org_id) not_in_org
  ok (
      take limit
        (drop ((page - 1) * limit) (rows_where (λ u. is_own u.user_org_id org_id) s.users)))
