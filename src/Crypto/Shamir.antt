-- ===== src/Crypto/Shamir.antt =====
-- packages/encryption-sdk/src/keys/recovery.ts: `splitSecret` and `recoverSecret`.
-- Bytes, share indices and lengths are numbers; `crypto.getRandomValues` is a parameter, the byte
-- that it puts at each coefficient of each byte's polynomial.
pub mod Split
pub mod Bytes
pub mod Recover
pub mod RoundTrip
use brine_vault.Base.{
  ℕ, zero, suc, ◌-◌, ◌%◌, ◌≡◌, Bool, true, ◌&&◌, List, [], ◌∷◌, map, bit_xor, if◌then◌else◌, ltb,
  leb, ◌==◌, length, get_or, set, replicate, Result, ok, err, ◌>>=◌, ◌>>◌, guard, or_throw,
}
use brine_vault.Crypto.Gf256.{gf_mul, gf_inv}

-- `index` is the x-coordinate, from 1; `data` is a reserved word here.
pub record ShamirShare : Type 0 where
  pub index : ℕ
  pub share_data : List ℕ

-- The exceptions, in the source's order.
pub data ShamirError : Type 0 where
  cannot_invert_zero : ShamirError
  threshold_exceeds_total : ShamirError
  threshold_below_two : ShamirError
  too_many_shares : ShamirError
  empty_secret : ShamirError
  too_few_shares : ShamirError
  lengths_differ : ShamirError

abbrev Outcome : Type 0 → Type 0
Outcome A = Result ShamirError A

-- `for (k = threshold - 1; k >= 0; k--) y = gfMul(y, x) ^ coefficients[k]`, the list from
-- `coefficients[0]` on.
unfoldable pub eval_poly : List ℕ → ℕ → ℕ
eval_poly [] x = 0
eval_poly (c ∷ cs) x = bit_xor (gf_mul (eval_poly cs x) x) c

-- `coefficients[k..k + count)` for one byte of the secret.
unfoldable pub draw : (ℕ → ℕ) → ℕ → ℕ → List ℕ
draw random k zero = []
draw random k (suc count) = random k ∷ draw random (suc k) count

unfoldable pub coefficients : (ℕ → ℕ → ℕ) → ℕ → ℕ → ℕ → List ℕ
unfolding draw
coefficients random threshold byte_idx byte = byte ∷ draw (random byte_idx) 1 (threshold - 1)

-- `shares[shareIdx].data[byteIdx] = y`; a `Uint8Array` keeps the low eight bits.
unfoldable pub write_byte : List ℕ → ℕ → ShamirShare → ShamirShare
unfolding eval_poly
write_byte cs byte_idx s = record s {
  share_data = set s.share_data byte_idx (eval_poly cs s.index % 256);
}

-- The loop over the bytes of the secret, the loop over the shares inside it.
unfoldable pub fill_shares : (ℕ → ℕ → ℕ) → ℕ → ℕ → List ℕ → List ShamirShare → List ShamirShare
unfolding coefficients write_byte
fill_shares random threshold byte_idx [] shares = shares
fill_shares random threshold byte_idx (byte ∷ secret) shares =
    fill_shares random threshold (suc byte_idx) secret
      (map (write_byte (coefficients random threshold byte_idx byte) byte_idx) shares)

-- `shares.push({ index: i + 1, data: new Uint8Array(len) })`, `count` times from `i`.
unfoldable pub new_shares : ℕ → ℕ → ℕ → List ShamirShare
new_shares zero i len = []
new_shares (suc count) i len =
    record { index = suc i; share_data = replicate len 0 } ∷ new_shares count (suc i) len

unfoldable pub split_secret : (ℕ → ℕ → ℕ) → List ℕ → ℕ → ℕ → Outcome (List ShamirShare)
unfolding fill_shares new_shares
split_secret random secret n threshold = do
  guard (leb threshold n) threshold_exceeds_total
  guard (leb 2 threshold) threshold_below_two
  guard (leb n 255) too_many_shares
  guard (ltb 0 (length secret)) empty_secret
  ok (fill_shares random threshold 0 secret (new_shares n 0 (length secret)))

-- The loop over `j`: `continue` where `i === j`.
unfoldable pub lagrange_basis : ℕ → ℕ → ℕ → List ShamirShare → ℕ → ℕ → ℕ × ℕ
lagrange_basis i xi j [] numerator denominator = (numerator, denominator)
lagrange_basis i xi j (s ∷ shares) numerator denominator =
    lagrange_basis i xi (suc j) shares (if i == j then numerator else gf_mul numerator s.index)
      (if i == j then denominator else gf_mul denominator (bit_xor xi s.index))

-- The loop over `i`, for one byte of the secret.
unfoldable pub interpolate : List ShamirShare → ℕ → ℕ → List ShamirShare → ℕ → Outcome ℕ
unfolding lagrange_basis
interpolate all byte_idx i [] result = ok result
interpolate all byte_idx i (s ∷ shares) result =
    let (numerator, denominator) = lagrange_basis i s.index 0 all 1 1 in
    or_throw (gf_inv denominator) cannot_invert_zero >>= λ inverse.
    interpolate all byte_idx (suc i) shares
      (bit_xor result (gf_mul (get_or s.share_data byte_idx 0) (gf_mul numerator inverse)))

-- The loop over `byteIdx`, `left` rounds from `byte_idx`.
unfoldable pub recover_bytes : List ShamirShare → ℕ → ℕ → Outcome (List ℕ)
unfolding interpolate
recover_bytes shares zero byte_idx = ok []
recover_bytes shares (suc left) byte_idx = interpolate shares byte_idx 0 shares 0 >>= λ result.
    recover_bytes shares left (suc byte_idx) >>= λ rest. ok ((result % 256) ∷ rest)

-- `share.data.length !== secretLen` for none of the shares.
unfoldable pub same_lengths : ℕ → List ShamirShare → Bool
same_lengths len [] = true
same_lengths len (s ∷ shares) = (length s.share_data == len) && same_lengths len shares

unfoldable pub recover_secret : List ShamirShare → Outcome (List ℕ)
unfolding same_lengths recover_bytes
recover_secret [] = err too_few_shares
recover_secret (first ∷ rest) = do
  guard (leb 2 (length (first ∷ rest))) too_few_shares
  guard (same_lengths (length first.share_data) (first ∷ rest)) lengths_differ
  recover_bytes (first ∷ rest) (length first.share_data) 0
