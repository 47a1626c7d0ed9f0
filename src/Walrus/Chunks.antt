-- ===== src/Walrus/Chunks.antt =====
-- Splitting data into chunks and joining them: split of packages/walrus-sdk/src/chunked-upload.ts,
-- reassemble of chunked-download.ts. A byte array is a list of bytes.
pub mod Joined
use brine_vault.Base.{
  ℕ, zero, suc, ◌+◌, ◌-◌, min, ltb, leb, ◌≤◌, if◌then◌else◌, List, [], ◌∷◌, ◌++◌, length, take,
  drop, take-append-drop, length-take, length-drop, Option, none, some, Result, ok, err, ◌≡◌, refl,
  sym, ap, ap₂, ◌∙◌, All, arith, replicate, if-elim,
}
use brine_vault.Walrus.Retry.{WalrusError, other_error}

abbrev pub concat : List (List ℕ) → List ℕ
concat [] = []
concat (x ∷ xs) = x ++ concat xs

-- `for (offset = ...; offset < data.byteLength; offset += chunkSize)`, on fuel.
unfoldable pub split_from : ℕ → ℕ → ℕ → List ℕ → List (List ℕ)
split_from zero chunk_size offset data_ = []
split_from (suc fuel) chunk_size offset data_ =
    let end = min (offset + chunk_size) (length data_) in
    let rest = split_from fuel chunk_size (offset + chunk_size) data_ in
    if ltb offset (length data_) then take (end - offset) (drop offset data_) ∷ rest else []

-- The loop makes at most one iteration for each byte.
unfoldable pub split : ℕ → List ℕ → List (List ℕ)
split chunk_size data_ = split_from (length data_) chunk_size 0 data_

-- What `set` throws on a hole of the array, and on a chunk that does not fit.
abbrev pub type_error : WalrusError
type_error = other_error 1

abbrev pub range_error : WalrusError
range_error = other_error 2

-- `result.set(chunk, offset)`.
unfoldable pub write_bytes : List ℕ → ℕ → List ℕ → List ℕ
write_bytes result offset chunk = take offset result ++ chunk ++ drop (offset + length chunk) result

unfoldable pub reassemble_from : ℕ → List ℕ → List (Option (List ℕ)) → Result WalrusError (List ℕ)
reassemble_from offset result [] = ok result
reassemble_from offset result (none ∷ chunks) = err type_error
reassemble_from offset result (some chunk ∷ chunks) =
    let rest = reassemble_from (offset + length chunk) (write_bytes result offset chunk) chunks in
    if leb (offset + length chunk) (length result) then rest else err range_error

unfoldable pub reassemble : List (Option (List ℕ)) → ℕ → Result WalrusError (List ℕ)
reassemble chunks total_size = reassemble_from 0 (replicate total_size 0) chunks

take-cong : (n m : ℕ) (xs : List ℕ) → n ≡ m → take n xs ≡ take m xs
take-cong n m xs e = ap (λ k. take k xs) e

drop-cong : (n m : ℕ) (xs : List ℕ) → n ≡ m → drop n xs ≡ drop m xs
drop-cong n m xs e = ap (λ k. drop k xs) e

take-min : (n : ℕ) (xs : List ℕ) → take (min n (length xs)) xs ≡ take n xs
take-min zero xs = take-cong (min 0 (length xs)) 0 xs (omega arith)
take-min (suc n) [] = take-cong (min (suc n) 0) 0 [] (omega arith)
take-min (suc n) (x ∷ xs) =
    take-cong (min (suc n) (suc (length xs))) (suc (min n (length xs))) (x ∷ xs) (omega arith)
    ∙ ap (◌∷◌ x) (take-min n xs)

drop-nil : (n : ℕ) → drop {A = ℕ} n [] ≡ []
drop-nil zero = refl
drop-nil (suc n) = refl

drop-drop : (n m : ℕ) (xs : List ℕ) → drop n (drop m xs) ≡ drop (m + n) xs
drop-drop n zero xs = drop-cong n (0 + n) xs (omega arith)
drop-drop zero (suc m) [] = sym (drop-nil (suc m + 0))
drop-drop (suc n) (suc m) [] = sym (drop-nil (suc m + suc n))
drop-drop n (suc m) (x ∷ xs) =
    drop-drop n m xs ∙ drop-cong (suc (m + n)) (suc m + n) (x ∷ xs) (omega arith)

drop-all : (n : ℕ) (xs : List ℕ) → length xs ≤ n → drop n xs ≡ []
drop-all zero [] h = refl
drop-all (suc n) [] h = refl
drop-all zero (x ∷ xs) h = absurd (omega arith)
drop-all (suc n) (x ∷ xs) h = drop-all n xs (omega arith)

-- A chunk that starts inside the data, written with its size alone.
chunk-eq :
    (size offset : ℕ) (xs : List ℕ)
    → take (min (offset + size) (length xs) - offset) (drop offset xs) ≡ take size (drop offset xs)
chunk-eq size offset xs = ap (λ n. take n (drop offset xs)) e ∙ take-min size (drop offset xs)
  where
    e : min (offset + size) (length xs) - offset ≡ min size (length (drop offset xs))
    e = omega (arith, length-drop offset xs)

split_from-concat :
    (fuel size offset : ℕ) (xs : List ℕ)
    → 1 ≤ size
    → length xs ≤ offset + fuel
    → concat (split_from fuel size offset xs) ≡ drop offset xs
unfolding split_from
split_from-concat zero size offset xs pos le = sym (drop-all offset xs (omega arith))
split_from-concat (suc fuel) size offset xs pos le =
    if-elim (λ cs. concat cs ≡ drop offset xs) (ltb offset (length xs)) _ []
      (λ h.
        ap₂ ◌++◌ (chunk-eq size offset xs) (
          split_from-concat fuel size (offset + size) xs pos (omega arith)
          ∙ sym (drop-drop size offset xs))
        ∙ take-append-drop size (drop offset xs))
      (λ h. sym (drop-all offset xs (ground arith)))

-- The chunks that `split` cuts, joined in order, are the data again, and every chunk has at
-- least one byte and at most chunkSize, when chunkSize is not 0.
pub concat-split :
    (size : ℕ) (xs : List ℕ)
    → 1 ≤ size
    → (concat (split size xs) ≡ xs) × All (λ c. (1 ≤ length c) × (length c ≤ size)) (split size xs)
unfolding split split_from
concat-split size xs pos =
    (split_from-concat (length xs) size 0 xs pos (omega arith), sizes (length xs) 0)
  where
    sizes :
        (fuel offset : ℕ)
        → All (λ c. (1 ≤ length c) × (length c ≤ size)) (split_from fuel size offset xs)
    sizes zero offset = tt
    sizes (suc fuel) offset =
        if-elim (All (λ c. (1 ≤ length c) × (length c ≤ size))) (ltb offset (length xs)) _ []
          (λ h. (
            (
              ground (
                arith,
                length-take (min (offset + size) (length xs) - offset) (drop offset xs),
                length-drop offset xs,
              ),
              ground (
                arith,
                length-take (min (offset + size) (length xs) - offset) (drop offset xs),
                length-drop offset xs,
              ),
            ),
            sizes fuel (offset + size),
          ))
          (λ h. tt)
