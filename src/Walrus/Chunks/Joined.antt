-- ===== src/Walrus/Chunks/Joined.antt =====
-- Joining what `split` of packages/walrus-sdk/src/chunked-upload.ts cut.
use brine_vault.Base.{
  ℕ, zero, suc, ◌+◌, some, List, [], ◌∷◌, ◌++◌, length, take, drop, replicate, map, ok, leb, true,
  ◌≡◌, refl, sym, ap, ap₂, ◌∙◌, length-append, arith,
}
use brine_vault.Walrus.Chunks.{concat, write_bytes, reassemble_from, reassemble}
use brine_vault.Walrus.Pieces.{append_assoc}

abbrev zeros : ℕ → List ℕ
zeros n = replicate n 0

take-append : (xs ys : List ℕ) → take (length xs) (xs ++ ys) ≡ xs
take-append [] ys = refl
take-append (x ∷ xs) ys = ap (◌∷◌ x) (take-append xs ys)

drop-append : (n : ℕ) (xs ys : List ℕ) → drop (length xs + n) (xs ++ ys) ≡ drop n ys
drop-append n [] ys = ap (λ k. drop k ys) (omega arith)
drop-append n (x ∷ xs) ys =
    let e : suc (length xs) + n ≡ suc (length xs + n) = omega arith in
    ap (λ k. drop k (x ∷ (xs ++ ys))) e ∙ drop-append n xs ys

drop-zeros : (n m : ℕ) → drop n (zeros (n + m)) ≡ zeros m
drop-zeros zero m = ap (λ k. zeros k) (omega arith)
drop-zeros (suc n) m =
    let e : suc n + m ≡ suc (n + m) = omega arith in
    ap (λ k. drop (suc n) (zeros k)) e ∙ drop-zeros n m

length-zeros : (n : ℕ) → length (zeros n) ≡ n
length-zeros zero = refl
length-zeros (suc n) = ap suc (length-zeros n)

-- Writing the chunks one after the other behind what is written fills the array.
reassemble_from_lem :
    (written : List ℕ) (chunks : List (List ℕ))
    → reassemble_from (length written) (written ++ zeros (length (concat chunks))) (map some chunks)
      ≡ ok (written ++ concat chunks)
unfolding reassemble_from write_bytes
reassemble_from_lem written [] = refl
reassemble_from_lem written (chunk ∷ chunks) =
    let room = length (concat chunks) in
    let size : length (chunk ++ concat chunks) ≡ length chunk + room =
      length-append chunk (concat chunks) in
    let array = written ++ zeros (length (chunk ++ concat chunks)) in
    let fits : leb (length written + length chunk) (length array) ≡ true = ground (
      arith,
      length-append written (zeros (length (chunk ++ concat chunks))),
      length-zeros (length (chunk ++ concat chunks)),
      size,
    ) in
    let rest : drop (length written + length chunk) array ≡ zeros room =
      drop-append (length chunk) written (zeros (length (chunk ++ concat chunks)))
      ∙ ap (λ k. drop (length chunk) (zeros k)) size
      ∙ drop-zeros (length chunk) room in
    let step : write_bytes array (length written) chunk ≡ (written ++ chunk) ++ zeros room =
      ap₂ (λ a b. (a ++ chunk) ++ b) (take-append written (zeros (length (chunk ++ concat chunks))))
        rest in
    rw fits (
      ap₂ (λ n result. reassemble_from n result (map some chunks))
        (sym (length-append written chunk)) step
      ∙ reassemble_from_lem (written ++ chunk) chunks
      ∙ ap ok (append_assoc written chunk (concat chunks)))

pub reassemble_lem :
    (chunks : List (List ℕ))
    → reassemble (map some chunks) (length (concat chunks)) ≡ ok (concat chunks)
unfolding reassemble
reassemble_lem chunks = reassemble_from_lem [] chunks
