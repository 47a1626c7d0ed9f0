-- ===== src/Encryption/Engine/RoundTrip.antt =====
-- Decryption undoes encryption: packages/encryption-sdk/src/engines/aes-engine.ts.
use brine_vault.Base.{
  ℕ, zero, suc, ◌+◌, leb, some, List, [], ◌∷◌, ◌++◌, length, take, drop, false, ◌≡◌, refl, sym, ap,
  ◌∙◌, ok, ◌>>=◌, length-append, arith,
}
use brine_vault.Encryption.Engine.{
  WebCrypto, iv_length, random_bytes, generate_iv, aes_encrypt, aes_decrypt,
}

-- What Web Crypto says of AES-GCM: decryption with the same key and vector gives the plaintext, and a
-- ciphertext is 16 bytes longer, for the tag.
abbrev pub IsAead :
    {Key PublicKey PrivateKey : Type 0} → WebCrypto Key PublicKey PrivateKey → Type 0
IsAead {Key} crypto =
    ((iv plaintext : List ℕ) (key : Key)
      → crypto.subtle_decrypt iv key (crypto.subtle_encrypt iv key plaintext) ≡ some plaintext)
    × ((iv plaintext : List ℕ) (key : Key)
        → length (crypto.subtle_encrypt iv key plaintext) ≡ length plaintext + 16)

length-random_bytes : (n : ℕ) (random : ℕ → ℕ) → length (random_bytes n random) ≡ n
unfolding random_bytes
length-random_bytes zero random = refl
length-random_bytes (suc n) random = ap suc (length-random_bytes n random)

take-append : (xs ys : List ℕ) → take (length xs) (xs ++ ys) ≡ xs
take-append [] ys = refl
take-append (x ∷ xs) ys = ap (◌∷◌ x) (take-append xs ys)

drop-append : (xs ys : List ℕ) → drop (length xs) (xs ++ ys) ≡ ys
drop-append [] ys = refl
drop-append (x ∷ xs) ys = drop-append xs ys

-- Every plaintext, the empty one included, comes back from a blob that the engine made of it with the
-- same key, whatever the random bytes.
pub aes_decrypt-aes_encrypt :
    {Key PublicKey PrivateKey : Type 0} (crypto : WebCrypto Key PublicKey PrivateKey)
    (random : ℕ → ℕ) (plaintext : List ℕ) (key : Key)
    → IsAead crypto
    → (aes_encrypt crypto random plaintext key >>= λ blob. aes_decrypt crypto blob key)
      ≡ ok plaintext
unfolding aes_encrypt aes_decrypt
aes_decrypt-aes_encrypt crypto random plaintext key law =
    let iv = generate_iv random in
    let cipher = crypto.subtle_encrypt iv key plaintext in
    let size : length iv ≡ iv_length = length-random_bytes iv_length random in
    let long : leb (length (iv ++ cipher)) iv_length ≡ false =
      ground (arith, length-append iv cipher, law.1 iv plaintext key) in
    let head : take iv_length (iv ++ cipher) ≡ iv =
      ap (λ n. take n (iv ++ cipher)) (sym size) ∙ take-append iv cipher in
    let tail : drop iv_length (iv ++ cipher) ≡ cipher =
      ap (λ n. drop n (iv ++ cipher)) (sym size) ∙ drop-append iv cipher in
    rw long (rw head (rw tail (rw (law.0 iv plaintext key) refl)))
