-- ===== src/Shared/Roles.antt =====
-- packages/shared/src/types/roles.ts: roles as bit masks. A mask is below 2 ^ 31, so `&` and `|` of
-- the source work on non-negative numbers.
pub mod Laws
use brine_vault.Base.{ℕ, Bool, bit_and, bit_or, if◌then◌else◌, ltb}

abbrev pub viewer : ℕ
viewer = 1

abbrev pub reviewer : ℕ
reviewer = 2

abbrev pub editor : ℕ
editor = 4

abbrev pub owner : ℕ
owner = 8

abbrev pub auditor : ℕ
auditor = 16

abbrev pub org_admin : ℕ
org_admin = 32

abbrev pub all_roles : ℕ
all_roles = 63

-- `(userRole & requiredRole) > 0`.
unfoldable pub has_role : ℕ → ℕ → Bool
has_role user_role required_role = ltb 0 (bit_and user_role required_role)

unfoldable pub owner_implies : ℕ → ℕ
unfolding has_role
owner_implies user_role =
    if has_role user_role owner
    then bit_or (bit_or (bit_or user_role editor) reviewer) viewer
    else user_role
