-- ===== src/Tests/Crypto.antt =====
-- The secret sharing of packages/encryption-sdk/src/keys/recovery.ts on small inputs.
use brine_vault.Base.{ℕ, ◌<◌, ◌≡◌, refl, arith, List, [], ◌∷◌, ok, bit_xor, some}
use brine_vault.Crypto.Gf256.{gf_mul, gf_inv}
use brine_vault.Crypto.Gf256.Field.{gf_inv-inverse, gf_mul-laws}
use brine_vault.Crypto.Shamir.{ShamirShare, split_secret, recover_secret}
use brine_vault.Crypto.Shamir.RoundTrip.{recover-split}

abbrev share : ℕ → ℕ → ℕ → ShamirShare
share i a b = record { index = i; share_data = a ∷ b ∷ [] }

abbrev three_shares : List ShamirShare
three_shares = share 1 2 207 ∷ share 2 11 198 ∷ share 3 12 193 ∷ []

abbrev two_shares : List ShamirShare
two_shares = share 3 12 193 ∷ share 1 2 207 ∷ []

split_three : split_secret (λ i k. 7) (5 ∷ 200 ∷ []) 3 2 ≡ ok three_shares
unfolding split_secret gf_mul
split_three = refl

-- The third and the first of three shares recover a secret of two bytes.
recover-split_example : recover_secret two_shares ≡ ok (5 ∷ 200 ∷ [])
recover-split_example =
    recover-split (λ i k. 7) (5 ∷ 200 ∷ []) 3 2 three_shares two_shares (λ i k. omega arith)
      (omega arith, (omega arith, tt)) split_three ((2, refl), ((0, refl), tt))
      ((λ e. omega arith, tt), (tt, tt)) (omega arith)

gf_inv-inverse_example : (i : ℕ) × (gf_inv 83 ≡ some i) × (i < 256) × (gf_mul 83 i ≡ 1)
gf_inv-inverse_example = gf_inv-inverse 83 (omega arith) (omega arith)

gf_mul-laws_example :
    (gf_mul 83 202 < 256)
    × (gf_mul 83 202 ≡ gf_mul 202 83)
    × (gf_mul (gf_mul 83 202) 7 ≡ gf_mul 83 (gf_mul 202 7))
    × (gf_mul 83 (bit_xor 202 7) ≡ bit_xor (gf_mul 83 202) (gf_mul 83 7))
    × (gf_mul 83 1 ≡ 83)
gf_mul-laws_example = gf_mul-laws 83 202 7 (omega arith) (omega arith) (omega arith)
