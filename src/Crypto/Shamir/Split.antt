-- ===== src/Crypto/Shamir/Split.antt =====
-- What `split_secret` puts into each share.
use mathlib.Core.Path.{fun_ext, subst}
use mathlib.Core.Option.{some-injective}
use mathlib.Core.List.{append_assoc}
use brine_vault.Base.{
  length-append, ℕ, zero, suc, ◌+◌, ◌%◌, ◌≤◌, ◌<◌, ◌≡◌, refl, ap, ap₂, ◌∙◌, List, [], ◌∷◌, ◌++◌,
  map, length, set, get_elem?, get_or, some, replicate, arith, ok,
}
use brine_vault.Crypto.Shamir.{
  ShamirShare, eval_poly, coefficients, write_byte, fill_shares, new_shares, split_secret,
}

module _ (random : ℕ → ℕ → ℕ) (threshold : ℕ) where
  -- The bytes of the share at `x`: each byte's polynomial at `x`.
  pub values : ℕ → List ℕ → ℕ → List ℕ
  values i [] x = []
  values i (byte ∷ secret) x =
      (eval_poly (coefficients random threshold i byte) x % 256) ∷ values (suc i) secret x

  pub length-values : (i : ℕ) (secret : List ℕ) (x : ℕ) → length (values i secret x) ≡ length secret
  unfolding values
  length-values i [] x = refl
  length-values i (byte ∷ secret) x = ap suc (length-values (suc i) secret x)

  -- The share that holds what the loop has written so far.
  abbrev partial : ℕ → List ℕ → ℕ → ShamirShare
  partial x done left = record { index = x; share_data = done ++ replicate left 0 }

  set_next :
      (done : List ℕ) (left v : ℕ)
      → set (done ++ replicate (suc left) 0) (length done) v ≡ (done ++ v ∷ []) ++ replicate left 0
  set_next [] left v = refl
  set_next (d ∷ done) left v = ap (◌∷◌ d) (set_next done left v)

  abbrev pub share_at : List ℕ → ℕ → ShamirShare
  share_at secret x = record { index = x; share_data = values 0 secret x }

  abbrev pub indices : ℕ → ℕ → List ℕ
  indices zero i = []
  indices (suc count) i = suc i ∷ indices count (suc i)

  new_shares-eq :
      (count i len : ℕ) → new_shares count i len ≡ map (λ x. partial x [] len) (indices count i)
  unfolding new_shares
  new_shares-eq zero i len = refl
  new_shares-eq (suc count) i len =
      ap (◌∷◌ (partial (suc i) [] len)) (new_shares-eq count (suc i) len)

  write_partial :
      (cs done : List ℕ) (i left x : ℕ)
      → length done ≡ i
      → write_byte cs i (partial x done (suc left))
        ≡ partial x (done ++ (eval_poly cs x % 256) ∷ []) left
  unfolding write_byte
  write_partial cs done i left x e =
      rw (← e)
        (ap (λ d. record { index = x; share_data = d }) (set_next done left (eval_poly cs x % 256)))

  write_all :
      (cs : List ℕ) (i left : ℕ) (done : ℕ → List ℕ) (xs : List ℕ)
      → ((x : ℕ) → length (done x) ≡ i)
      → map (write_byte cs i) (map (λ x. partial x (done x) (suc left)) xs)
        ≡ map (λ x. partial x (done x ++ (eval_poly cs x % 256) ∷ []) left) xs
  write_all cs i left done [] h = refl
  write_all cs i left done (x ∷ xs) h =
      ap₂ ◌∷◌ (write_partial cs (done x) i left x (h x)) (write_all cs i left done xs h)

  fill-eq :
      (i : ℕ) (secret : List ℕ) (done : ℕ → List ℕ) (xs : List ℕ)
      → ((x : ℕ) → length (done x) ≡ i)
      → fill_shares random threshold i secret (map (λ x. partial x (done x) (length secret)) xs)
        ≡ map (λ x. record { index = x; share_data = done x ++ values i secret x }) xs
  unfolding fill_shares values
  fill-eq i [] done xs h = refl
  fill-eq i (byte ∷ secret) done xs h =
      let cs = coefficients random threshold i byte in
      let done' : ℕ → List ℕ = λ x. done x ++ (eval_poly cs x % 256) ∷ [] in
      ap (fill_shares random threshold (suc i) secret) (write_all cs i (length secret) done xs h)
      ∙ fill-eq (suc i) secret done' xs
          (λ x. omega (arith, length-append (done x) ((eval_poly cs x % 256) ∷ []), h x))
      ∙ ap (λ f. map f xs)
          (fun_ext λ x.
            ap (λ d. record { index = x; share_data = d })
              (append_assoc (done x) ((eval_poly cs x % 256) ∷ []) (values (suc i) secret x)))

  -- A split that succeeds gives the shares at 1, 2, …, n.
  pub split-eq :
      (secret : List ℕ) (n : ℕ) (shares : List ShamirShare)
      → split_secret random secret n threshold ≡ ok shares
      → (shares ≡ map (share_at secret) (indices n 0))
        × (2 ≤ threshold)
        × (threshold ≤ n)
        × (n ≤ 255)
        × (0 < length secret)
  unfolding split_secret
  split-eq secret n shares e =
      let made =
        ap (fill_shares random threshold 0 secret) (new_shares-eq n 0 (length secret))
        ∙ fill-eq 0 secret (λ x. []) (indices n 0) (λ x. refl) in
      (ground (arith, made), ground arith, ground arith, ground arith, ground arith)

  pub get_or-values :
      (n i : ℕ) (pre : List ℕ) (b : ℕ) (rest : List ℕ) (x : ℕ)
      → i + length pre ≡ n
      → get_or (values i (pre ++ b ∷ rest) x) (length pre) 0
        ≡ eval_poly (coefficients random threshold n b) x % 256
  unfolding values
  get_or-values n i [] b rest x e =
      ap (λ m. eval_poly (coefficients random threshold m b) x % 256) (omega arith)
  get_or-values n i (p ∷ pre) b rest x e = get_or-values n (suc i) pre b rest x (omega arith)

  -- The shares stand at the indices from `i + 1` on.
  pub get_elem?-shares :
      (secret : List ℕ) (count i j : ℕ) (s : ShamirShare)
      → get_elem? (map (share_at secret) (indices count i)) j ≡ some s
      → (s ≡ share_at secret s.index) × (s.index ≤ i + count)
  get_elem?-shares secret zero i j s e = cc
  get_elem?-shares secret (suc count) i zero s e =
      subst (λ t. (t ≡ share_at secret t.index) × (t.index ≤ i + suc count)) (some-injective _ _ e)
        (refl, omega arith)
  get_elem?-shares secret (suc count) i (suc j) s e =
      let r = get_elem?-shares secret count (suc i) j s e in (r.0, omega (arith, r.1))
