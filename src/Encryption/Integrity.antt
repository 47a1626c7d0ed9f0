-- ===== src/Encryption/Integrity.antt =====
-- What a verified hash shows: verifyHash of packages/encryption-sdk/src/integrity/hash.ts.
use brine_vault.Base.{ℕ, ◌<◌, List, map, All, true, ◌≡◌, ◌↔◌, sym, ap, ◌∙◌}
use brine_vault.Sui.Builders.{hex_to_bytes}
use brine_vault.Sui.Hex.{hex_value, hex_to_bytes-buffer_to_hex}
use brine_vault.Encryption.Hash.{buffer_to_hex, constant_time_equal_iff, compute_hash, verify_hash}

abbrev pub IsBytes : List ℕ → Type 0
IsBytes bytes = All (λ b. b < 256) bytes

-- Two lists of bytes with the same text are the same.
buffer_to_hex_injective :
    (a b : List ℕ) → IsBytes a → IsBytes b → buffer_to_hex a ≡ buffer_to_hex b → a ≡ b
buffer_to_hex_injective a b p q e =
    sym (hex_to_bytes-buffer_to_hex a p)
    ∙ ap (λ t. hex_to_bytes (map hex_value t)) e
    ∙ hex_to_bytes-buffer_to_hex b q

-- For a digest that gives bytes, verifyHash accepts the text of some bytes exactly when the data has
-- that digest; the bytes that the transaction stores for the text are then the digest.
pub verify_hash_iff :
    (digest : List ℕ → List ℕ) (content hash : List ℕ)
    → IsBytes (digest content)
    → IsBytes hash
    → ((verify_hash digest content (buffer_to_hex hash) ≡ true) ↔ (digest content ≡ hash))
      × (hex_to_bytes (map hex_value (buffer_to_hex hash)) ≡ hash)
unfolding verify_hash compute_hash
verify_hash_iff digest content hash p q = (
  (
    λ h.
        buffer_to_hex_injective (digest content) hash p q
          ((constant_time_equal_iff (buffer_to_hex (digest content)) (buffer_to_hex hash)).0 h),
    λ e.
        (constant_time_equal_iff (buffer_to_hex (digest content)) (buffer_to_hex hash)).1
          (ap buffer_to_hex e),
  ),
  hex_to_bytes-buffer_to_hex hash q,
)
