-- ===== src/Tests/Orgs.antt =====
-- Organisations and guards of apps/api/src on small inputs.
use brine_vault.Base.{ℕ, suc, ◌<◌, ◌==◌, ◌≡◌, refl, Option, none, some, [], ◌∷◌, true, ok, err}
use brine_vault.Db.Tables.{Store, find_row, update_rows}
use brine_vault.Api.Session.{UserRow}
use brine_vault.Api.Orgs.{InviteRow, OrgStore, already_in_org, free_user, create_org, join_org}
use brine_vault.Api.Orgs.Joining.{join_org-once}
use brine_vault.Api.Guards.{RateLimit, RequestUser, role_guard}
use brine_vault.Api.Guards.Removed.{role_guard-after_removal}
use brine_vault.Indexer.Handlers.{EventContext, handle_member_removed}

abbrev newcomer : Option ℕ → Option ℕ → UserRow
newcomer org role = record {
  id = 1;
  primary_wallet_address = 77;
  user_org_id = org;
  role_in_org = role;
  display_name = none;
  last_login_at = 0;
}

abbrev invite : ℕ → InviteRow
invite uses = record {
  id = 5;
  org_id = 9;
  code = 33;
  created_by_user_id = 2;
  max_uses = 2;
  current_uses = uses;
  expires_at = 100;
}

abbrev before_joining : OrgStore
before_joining = record {
  organizations = [];
  users = newcomer none none ∷ [];
  invites = invite 1 ∷ [];
  next_id = 10;
}

abbrev after_joining : OrgStore
after_joining = record {
  organizations = [];
  users = newcomer (some 9) (some 1) ∷ [];
  invites = invite 2 ∷ [];
  next_id = 10;
}

joined : join_org 50 1 33 before_joining ≡ ok (9, after_joining)
unfolding join_org free_user find_row update_rows
joined = refl

join_org-once_example :
    ((i : InviteRow) × (u : UserRow) × (find_row (λ x. x.code == 33) before_joining.invites
        ≡ some i)
      × (find_row (λ x. x.id == 1) before_joining.users ≡ some u)
      × (50 < i.expires_at)
      × (i.current_uses < i.max_uses)
      × (9 ≡ i.org_id)
      × (u.user_org_id ≡ none)
      × (find_row (λ x. x.id == 1) after_joining.users
          ≡ some (record u { user_org_id = some i.org_id; role_in_org = some 1 }))
      × (find_row (λ x. x.code == 33) after_joining.invites
          ≡ some (record i { current_uses = suc i.current_uses })))
    × (join_org 60 1 34 after_joining ≡ err already_in_org)
    × (create_org 1 7 none after_joining ≡ err already_in_org)
join_org-once_example = join_org-once 50 60 1 33 34 7 none before_joining after_joining 9 joined

abbrev two_per_second : RateLimit
two_per_second = record { limit = 2; window = 1 }

abbrev with_member : Store
with_member = record {
  pools = [];
  datarooms = record { id = 2; sui_object_id = 102; pool_id = 1; owner_address = 9 } ∷ [];
  members =
      record {
        dataroom_id = 2;
        pool_id = 1;
        member_address = 7;
        role = 1;
        is_active = true;
        revoked_at = none;
        added_by_address = 9;
        added_at = 0;
      }
      ∷ [];
  documents = [];
  versions = [];
  reviews = [];
  decisions = [];
  audits = [];
  organizations = [];
  next_id = 3;
  cache = none;
}

abbrev removal : EventContext
removal = record { tx_digest = 62; event_seq = 0; now = 4 }

abbrev removed_member : RequestUser
removed_member = record { org_role = 0; user_address = 7 }

role_guard-after_removal_example :
    role_guard
      (some 1)
      (some removed_member)
      (some 2)
      (handle_member_removed removal 102 7 9 with_member).1
    ≡ role_guard (some 1) (some removed_member) (some 2) with_member
role_guard-after_removal_example =
    role_guard-after_removal removal 102 7 9 with_member (some 1) (some removed_member) (some 2)
