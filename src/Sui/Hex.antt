-- ===== src/Sui/Hex.antt =====
-- Hexadecimal texts: bufferToHex of packages/encryption-sdk/src/integrity/hash.ts against hexToBytes of
-- apps/api/src/infra/sui/sui-tx.service.ts.
use brine_vault.Base.{
  ℕ, ◌-◌, ◌/◌, ◌%◌, ◌<◌, List, [], ◌∷◌, map, ◌≡◌, refl, ap₂, leb, if◌then◌else◌, All, arith,
}
use brine_vault.Encryption.Hash.{hex_char, buffer_to_hex}
use brine_vault.Sui.Builders.{hex_to_bytes}

-- The value that `parseInt` gives a digit of either case.
abbrev pub hex_value : ℕ → ℕ
hex_value c = if leb c 57 then c - 48 else if leb c 70 then c - 55 else c - 87

hex_value-hex_char : (d : ℕ) → d < 16 → hex_value (hex_char d) ≡ d
hex_value-hex_char d below = ground arith

-- The bytes that the API puts into a transaction for a hash in the text that the SDK made of it are the
-- bytes of the hash, for every list of bytes.
pub hex_to_bytes-buffer_to_hex :
    (buffer : List ℕ)
    → All (λ b. b < 256) buffer
    → hex_to_bytes (map hex_value (buffer_to_hex buffer)) ≡ buffer
unfolding hex_to_bytes buffer_to_hex
hex_to_bytes-buffer_to_hex [] h = refl
hex_to_bytes-buffer_to_hex (b ∷ buffer) h =
    ap₂ ◌∷◌
      (rw (hex_value-hex_char (b / 16) (omega (arith, h.0)))
        (rw (hex_value-hex_char (b % 16) (omega arith)) (omega arith)))
      (hex_to_bytes-buffer_to_hex buffer h.1)
