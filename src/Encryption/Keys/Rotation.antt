-- ===== src/Encryption/Keys/Rotation.antt =====
-- Who can read after a rotation: packages/encryption-sdk/src/keys/key-rotation.ts with the engine of
-- packages/encryption-sdk/src/engines/aes-engine.ts.
use brine_vault.Base.{ℕ, suc, some, List, [], ◌∷◌, map, All, ◌≡◌, refl, ok, ◌>>=◌}
use brine_vault.Encryption.Engine.{WebCrypto, EncryptedBlob, new_blob, aes_encrypt, aes_decrypt}
use brine_vault.Encryption.Engine.RoundTrip.{IsAead, aes_decrypt-aes_encrypt}
use brine_vault.Encryption.Keys.{
  KeyRotationResult, encrypt_key_for_member, decrypt_key_with_keypair, encrypt_for_all, rotate_key,
}

module _ {Key PublicKey PrivateKey : Type 0} (crypto : WebCrypto Key PublicKey PrivateKey) where
  -- A member: the bytes of its public key, and its private key. What Web Crypto says of a pair of RSA
  -- keys: the bytes import, and unwrapping gives the key that was wrapped.
  abbrev pub IsPair : List ℕ × PrivateKey → Type 0
  IsPair (spki, private_key) =
      (public_key : PublicKey) × (crypto.import_spki spki ≡ some public_key)
      × ((seed : ℕ) (key : Key)
          → crypto.unwrap_raw (crypto.wrap_raw seed key public_key) private_key ≡ some key)

  -- Each member, by its position, unwraps its key and decrypts the blob.
  abbrev pub AllRead : EncryptedBlob → List ℕ → List (List ℕ × PrivateKey) → List (List ℕ) → Type 0
  AllRead blob content [] [] = Unit
  AllRead blob content (m ∷ members) (w ∷ wrapped) =
      ((decrypt_key_with_keypair crypto w m.1 >>= λ key. aes_decrypt crypto blob key) ≡ ok content)
      × AllRead blob content members wrapped
  AllRead blob content [] (w ∷ wrapped) = ⊥
  AllRead blob content (m ∷ members) [] = ⊥

  abbrev public_keys : List (List ℕ × PrivateKey) → List (List ℕ)
  public_keys members = map (λ (m : List ℕ × PrivateKey). m.0) members

  encrypt_for_all-reads :
      (seeds : ℕ → ℕ) (i : ℕ) (new_key : Key) (members : List (List ℕ × PrivateKey))
      (blob : EncryptedBlob) (content : List ℕ)
      → All IsPair members
      → aes_decrypt crypto blob new_key ≡ ok content
      → (wrapped : List (List ℕ)) × (encrypt_for_all crypto seeds i new_key (public_keys members)
          ≡ ok wrapped)
        × AllRead blob content members wrapped
  unfolding encrypt_for_all encrypt_key_for_member decrypt_key_with_keypair
  encrypt_for_all-reads seeds i new_key [] blob content pairs reads = ([], refl, tt)
  encrypt_for_all-reads seeds i new_key (m ∷ members) blob content pairs reads =
      let (public_key, imports, unwraps) = pairs.0 in
      let (wrapped, made, others) =
        encrypt_for_all-reads seeds (suc i) new_key members blob content pairs.1 reads in
      (
        crypto.wrap_raw (seeds i) new_key public_key ∷ wrapped,
        rw imports (rw made refl),
        (rw (unwraps (seeds i) new_key) reads, others),
      )

  -- After a rotation for at least one member, whose keys are pairs, every remaining member opens its
  -- wrapped key, and with it decrypts each file that was encrypted again with the new key.
  pub rotate_key-reads :
      (seeds random : ℕ → ℕ) (new_key : Key) (m : List ℕ × PrivateKey)
      (members : List (List ℕ × PrivateKey)) (content : List ℕ)
      → IsAead crypto
      → All IsPair (m ∷ members)
      → (result : KeyRotationResult Key) × (blob : EncryptedBlob) × (rotate_key crypto seeds new_key
            (public_keys (m ∷ members))
          ≡ ok result)
        × (aes_encrypt crypto random content result.new_key ≡ ok blob)
        × AllRead blob content (m ∷ members) result.encrypted_keys_for_members
  unfolding rotate_key aes_encrypt
  rotate_key-reads seeds random new_key m members content law pairs =
      let blob = new_blob crypto random content new_key in
      let (wrapped, made, read) =
        encrypt_for_all-reads seeds 0 new_key (m ∷ members) blob content pairs
          (aes_decrypt-aes_encrypt crypto random content new_key law) in
      (
        record { new_key = new_key; encrypted_keys_for_members = wrapped },
        blob,
        rw made refl,
        refl,
        read,
      )
