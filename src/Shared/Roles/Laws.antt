-- ===== src/Shared/Roles/Laws.antt =====
-- What the expansion of the owner role gives and keeps.
use brine_vault.Base.{
  ℕ, ◌<◌, ◌≡◌, refl, Bool, true, false, arith, if◌then◌else◌, every_below, every_below_sound,
}
use brine_vault.Shared.Roles.{has_role, owner_implies, owner}

-- Over all masks of the six roles.
bit_equal : Bool → Bool → Bool
bit_equal true b = b
bit_equal false true = false
bit_equal false false = true

bit_equal_sound : (a b : Bool) → bit_equal a b ≡ true → a ≡ b
unfolding bit_equal
bit_equal_sound true b h = ground arith
bit_equal_sound false true h = ground arith
bit_equal_sound false false h = refl

expected : ℕ → ℕ → Bool
unfolding has_role
expected u r =
    if has_role u owner then (if has_role u r then true else has_role 7 r) else has_role u r

owner_table :
    every_below 64
      (λ u. every_below 64 (λ r. bit_equal (has_role (owner_implies u) r) (expected u r)))
    ≡ true
unfolding every_below has_role owner_implies bit_equal expected
owner_table = refl

-- For every mask of roles and every requirement: the expanded mask meets it exactly when the mask
-- itself meets it, or the mask holds OWNER and the requirement names VIEWER, REVIEWER or EDITOR.
pub has_role-owner_implies :
    (u r : ℕ)
    → u < 64
    → r < 64
    → has_role (owner_implies u) r
      ≡ (if has_role u owner then (if has_role u r then true else has_role 7 r) else has_role u r)
unfolding expected
has_role-owner_implies u r p q =
    bit_equal_sound _ _ (every_below_sound 64 _ r (every_below_sound 64 _ u owner_table p) q)
