-- ===== src/Encryption/Keys.antt =====
-- Folder keys and their rotation: packages/encryption-sdk/src/keys/folder-key.ts and
-- packages/encryption-sdk/src/keys/key-rotation.ts. The new key is an argument, and so is the
-- randomness of each wrapping.
pub mod Rotation
use brine_vault.Base.{ℕ, suc, Option, List, [], ◌∷◌, Result, ok, err, ◌>>=◌, or_throw}
use brine_vault.Encryption.Engine.{
  EncryptionError, WebCrypto, no_remaining_members, operation_error, data_error,
}

pub record KeyRotationResult (Key : Type 0) : Type 0 where
  pub new_key : Key
  pub encrypted_keys_for_members : List (List ℕ)

module _ {Key PublicKey PrivateKey : Type 0} (crypto : WebCrypto Key PublicKey PrivateKey) where
  unfoldable pub encrypt_key_for_member : ℕ → Key → List ℕ → Result EncryptionError (List ℕ)
  encrypt_key_for_member seed key member_public_key = do
    public_key ← or_throw (crypto.import_spki member_public_key) data_error
    ok (crypto.wrap_raw seed key public_key)

  unfoldable pub decrypt_key_with_keypair : List ℕ → PrivateKey → Result EncryptionError Key
  decrypt_key_with_keypair encrypted_key private_key =
      or_throw (crypto.unwrap_raw encrypted_key private_key) operation_error

  -- `Promise.all` over the members, from the position `i` on.
  unfoldable pub encrypt_for_all :
      (ℕ → ℕ) → ℕ → Key → List (List ℕ) → Result EncryptionError (List (List ℕ))
  encrypt_for_all seeds i key [] = ok []
  encrypt_for_all seeds i key (member ∷ members) = do
    wrapped ← encrypt_key_for_member (seeds i) key member
    rest ← encrypt_for_all seeds (suc i) key members
    ok (wrapped ∷ rest)

  unfoldable pub rotate_key :
      (ℕ → ℕ) → Key → List (List ℕ) → Result EncryptionError (KeyRotationResult Key)
  rotate_key seeds new_key [] = err no_remaining_members
  rotate_key seeds new_key (member ∷ members) = do
    wrapped ← encrypt_for_all seeds 0 new_key (member ∷ members)
    ok (record { new_key = new_key; encrypted_keys_for_members = wrapped })
