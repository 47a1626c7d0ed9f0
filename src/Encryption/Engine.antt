-- ===== src/Encryption/Engine.antt =====
-- The engines: packages/encryption-sdk/src/engines, with the length of the initialisation vector of
-- packages/encryption-sdk/src/utils/iv.ts. Bytes are numbers; random bytes are an argument.
pub mod RoundTrip
use brine_vault.Base.{
  ℕ, zero, suc, leb, Option, List, [], ◌∷◌, ◌++◌, length, take, drop, Bool, if◌then◌else◌, Result,
  ok, err, or_throw,
}

pub data EncryptionScheme : Type 0 where
  aes seal : EncryptionScheme

pub data EncryptionError : Type 0 where
  blob_too_short seal_not_available no_remaining_members : EncryptionError
  operation_error data_error : EncryptionError

pub record EncryptedBlob : Type 0 where
  pub blob_data : List ℕ
  pub scheme : EncryptionScheme

-- The operations of Web Crypto on the keys of AES and of RSA: encrypt and decrypt with a vector, the
-- import of a public key, wrapping with some randomness, unwrapping.
pub record WebCrypto (Key PublicKey PrivateKey : Type 0) : Type 0 where
  pub subtle_encrypt : List ℕ → Key → List ℕ → List ℕ
  pub subtle_decrypt : List ℕ → Key → List ℕ → Option (List ℕ)
  pub import_spki : List ℕ → Option PublicKey
  pub wrap_raw : ℕ → Key → PublicKey → List ℕ
  pub unwrap_raw : List ℕ → PrivateKey → Option Key

-- EncryptionEngine; the first argument of `encrypt` is the random bytes that it draws.
pub record EncryptionEngine (Key : Type 0) : Type 0 where
  pub engine_scheme : EncryptionScheme
  pub encrypt : (ℕ → ℕ) → List ℕ → Key → Result EncryptionError EncryptedBlob
  pub decrypt : EncryptedBlob → Key → Result EncryptionError (List ℕ)

abbrev pub iv_length : ℕ
iv_length = 12

-- `crypto.getRandomValues` on an array of `n` bytes.
unfoldable pub random_bytes : ℕ → (ℕ → ℕ) → List ℕ
random_bytes zero random = []
random_bytes (suc n) random = random n ∷ random_bytes n random

abbrev pub generate_iv : (ℕ → ℕ) → List ℕ
generate_iv random = random_bytes iv_length random

module _ {Key PublicKey PrivateKey : Type 0} (crypto : WebCrypto Key PublicKey PrivateKey) where
  abbrev pub new_blob : (ℕ → ℕ) → List ℕ → Key → EncryptedBlob
  new_blob random plaintext key =
      let iv = generate_iv random in
      record { blob_data = iv ++ crypto.subtle_encrypt iv key plaintext; scheme = aes }

  -- The two `set` calls write the vector and then the ciphertext.
  unfoldable pub aes_encrypt : (ℕ → ℕ) → List ℕ → Key → Result EncryptionError EncryptedBlob
  aes_encrypt random plaintext key = ok (new_blob random plaintext key)

  unfoldable pub aes_decrypt : EncryptedBlob → Key → Result EncryptionError (List ℕ)
  aes_decrypt blob key =
      if leb (length blob.blob_data) iv_length
      then err blob_too_short
      else or_throw
          (crypto.subtle_decrypt (take iv_length blob.blob_data) key
            (drop iv_length blob.blob_data))
          operation_error

  abbrev pub aes_engine : EncryptionEngine Key
  aes_engine = record { engine_scheme = aes; encrypt = aes_encrypt; decrypt = aes_decrypt }

-- The stub.
abbrev pub seal_engine : {Key : Type 0} → EncryptionEngine Key
seal_engine = record {
  engine_scheme = seal;
  encrypt = λ random plaintext key. err seal_not_available;
  decrypt = λ blob key. err seal_not_available;
}
