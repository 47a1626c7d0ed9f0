-- ===== src/Crypto/Gf256.antt =====
-- packages/encryption-sdk/src/keys/recovery.ts: arithmetic in GF(256). The operands are bytes;
-- no value of the loops passes 2 ^ 9, so the 32-bit operators of the source do not wrap.
pub mod Linear
pub mod Field
use brine_vault.Base.{
  ℕ, zero, suc, ◌*◌, ◌/◌, bit_and, bit_xor, if◌then◌else◌, ltb, ◌==◌, Option, none, some,
}

abbrev pub gf_poly : ℕ
gf_poly = 0x11b

-- `_a <<= 1; if (_a & 0x100) _a ^= GF_POLY`.
unfoldable pub xtime : ℕ → ℕ
xtime a = let s = a * 2 in if ltb 0 (bit_and s 0x100) then bit_xor s gf_poly else s

-- The loop of `gfMul`, with fuel: a round halves `_b`.
unfoldable pub gf_mul_loop : ℕ → ℕ → ℕ → ℕ → ℕ
gf_mul_loop zero result a b = result
gf_mul_loop (suc fuel) result a b =
    let next = if ltb 0 (bit_and b 1) then bit_xor result a else result in
    let rest = gf_mul_loop fuel next (xtime a) (b / 2) in if ltb 0 b then rest else result

unfoldable pub gf_mul : ℕ → ℕ → ℕ
unfolding gf_mul_loop xtime
gf_mul a b = gf_mul_loop b 0 a b

-- The loop of `gfInv`: square and multiply.
unfoldable pub gf_pow_loop : ℕ → ℕ → ℕ → ℕ → ℕ
gf_pow_loop zero result base exp = result
gf_pow_loop (suc fuel) result base exp =
    let next = if ltb 0 (bit_and exp 1) then gf_mul result base else result in
    let rest = gf_pow_loop fuel next (gf_mul base base) (exp / 2) in
    if ltb 0 exp then rest else result

-- `none` is the exception "Cannot invert zero in GF(256)".
unfoldable pub gf_inv : ℕ → Option ℕ
unfolding gf_pow_loop gf_mul
gf_inv a = if a == 0 then none else some (gf_pow_loop 254 1 a 254)
