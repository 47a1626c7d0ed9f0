-- ===== src/Walrus/Pieces.antt =====
-- Lists of chunks: what the transfers of packages/walrus-sdk/src do to them.
use brine_vault.Base.{
  ℕ, zero, suc, ◌+◌, ◌≤◌, List, [], ◌∷◌, ◌++◌, length, take, drop, replicate, set, ◌≡◌, refl, sym,
  ap, ◌∙◌, arith,
}
use brine_vault.Walrus.Client.{ChunkEntry, hole_entry}

pub set-append :
    (done : List ChunkEntry) (n : ℕ) (e : ChunkEntry)
    → set (done ++ replicate (suc n) hole_entry) (length done) e
      ≡ (done ++ (e ∷ [])) ++ replicate n hole_entry
set-append [] n e = refl
set-append (d ∷ done) n e = ap (◌∷◌ d) (set-append done n e)

pub append_assoc : {A : Type 0} (xs ys zs : List A) → (xs ++ ys) ++ zs ≡ xs ++ (ys ++ zs)
append_assoc [] ys zs = refl
append_assoc (x ∷ xs) ys zs = ap (◌∷◌ x) (append_assoc xs ys zs)

pub append_nil : {A : Type 0} (xs : List A) → xs ++ [] ≡ xs
append_nil [] = refl
append_nil (x ∷ xs) = ap (◌∷◌ x) (append_nil xs)

pub drop_past : (n : ℕ) (xs : List (List ℕ)) → length xs ≤ n → drop n xs ≡ []
drop_past zero [] h = refl
drop_past (suc n) [] h = refl
drop_past zero (x ∷ xs) h = absurd (omega arith)
drop_past (suc n) (x ∷ xs) h = drop_past n xs (omega arith)

pub drop-drop : (i k : ℕ) (xs : List (List ℕ)) → drop k (drop i xs) ≡ drop (i + k) xs
drop-drop zero k xs = ap (λ n. drop n xs) (omega arith)
drop-drop (suc i) zero [] = sym (drop_past (suc i + 0) [] (omega arith))
drop-drop (suc i) (suc k) [] = sym (drop_past (suc i + suc k) [] (omega arith))
drop-drop (suc i) k (x ∷ xs) =
    let same : suc (i + k) ≡ suc i + k = omega arith in
    drop-drop i k xs ∙ ap (λ n. drop n (x ∷ xs)) same

pub take_all : (n : ℕ) (xs : List (List ℕ)) → length xs ≤ n → take n xs ≡ xs
take_all zero [] h = refl
take_all zero (x ∷ xs) h = absurd (omega arith)
take_all (suc n) [] h = refl
take_all (suc n) (x ∷ xs) h = ap (◌∷◌ x) (take_all n xs (omega arith))

take_nil : (n : ℕ) → take {A = List ℕ} n [] ≡ []
take_nil zero = refl
take_nil (suc n) = refl

pub take_more : (n k : ℕ) (xs : List (List ℕ)) → take n xs ++ take k (drop n xs) ≡ take (n + k) xs
take_more zero k xs = let same : k ≡ 0 + k = omega arith in ap (λ i. take i xs) same
take_more (suc n) k [] = take_nil k ∙ sym (take_nil (suc n + k))
take_more (suc n) k (x ∷ xs) =
    let same : suc (n + k) ≡ suc n + k = omega arith in
    ap (◌∷◌ x) (take_more n k xs) ∙ ap (λ i. take i (x ∷ xs)) same
