-- ===== src/Crypto/Shamir/RoundTrip.antt =====
-- The secret sharing of packages/encryption-sdk/src/keys/recovery.ts from end to end.
use mathlib.Core.List.{append_assoc}
use brine_vault.Base.{
  ℕ, zero, suc, ◌-◌, ◌%◌, ◌≤◌, ◌<◌, ◌≡◌, refl, sym, ap, ap₂, ◌∙◌, arith, true, some, List, [], ◌∷◌,
  ◌++◌, map, All, leb, length, length-append, get_elem?, get_or, ok, ◌>>◌, guard,
}
use brine_vault.Crypto.Lagrange.Sums.{Fresh, Distinct, All-map}
use brine_vault.Crypto.Lagrange.Sums
use brine_vault.Crypto.Shamir.{
  ShamirShare, eval_poly, draw, coefficients, split_secret, interpolate, recover_bytes,
  same_lengths, recover_secret, too_few_shares, lengths_differ,
}
use brine_vault.Crypto.Shamir.Split.{
  values, length-values, get_or-values, get_elem?-shares, share_at, indices, split-eq,
}
use brine_vault.Crypto.Shamir.Bytes.{
  Byte, byte_field, eval-byte, to_bytes, AreBytes, length-to_bytes, byte_values-to_bytes,
}
use brine_vault.Crypto.Shamir.Recover.{AreSmall, index_list, interpolate-zero}

-- A member of the list.
abbrev pub IsIn {ℓ} : {A : Type ℓ} → A → List A → Type ℓ
IsIn a xs = (i : ℕ) × (get_elem? xs i ≡ some a)

recover_secret-checked :
    (s : ShamirShare) (ss : List ShamirShare)
    → leb 2 (length (s ∷ ss)) ≡ true
    → same_lengths (length s.share_data) (s ∷ ss) ≡ true
    → recover_secret (s ∷ ss) ≡ recover_bytes (s ∷ ss) (length s.share_data) 0
unfolding recover_secret
recover_secret-checked s ss p q =
    ap₂
      (λ x y.
        guard x too_few_shares
        >> (guard y lengths_differ >> recover_bytes (s ∷ ss) (length s.share_data) 0))
      p q

module _ (random : ℕ → ℕ → ℕ) (threshold : ℕ) (bytes : (i k : ℕ) → random i k < 256) where
  length-draw : (f : ℕ → ℕ) (k count : ℕ) → length (draw f k count) ≡ count
  unfolding draw
  length-draw f k zero = refl
  length-draw f k (suc count) = ap suc (length-draw f (suc k) count)

  draw-AreBytes : (i k count : ℕ) → AreBytes (draw (random i) k count)
  unfolding draw
  draw-AreBytes i k zero = tt
  draw-AreBytes i k (suc count) = (bytes i k, draw-AreBytes i (suc k) count)

  -- One byte is recovered from enough distinct shares of it.
  interpolate-byte :
      (chosen : List ShamirShare) (small : AreSmall chosen) (k b : ℕ)
      → b < 256
      → Distinct (index_list chosen)
      → threshold - 1 < length chosen
      → All
          (λ s.
            get_or s.share_data k 0 ≡ eval_poly (coefficients random threshold k b) s.index % 256)
          chosen
      → interpolate chosen k 0 chosen 0 ≡ ok b
  unfolding coefficients
  interpolate-byte chosen small k b hb distinct enough v =
      interpolate-zero chosen small distinct cs (b, hb) k
        (omega (arith, length-to_bytes drawn small_drawn, length-draw (random k) 1 (threshold - 1)))
        (All-map chosen (λ s e x. e ∙ value s.index x) v)
    where
      drawn : List ℕ
      drawn = draw (random k) 1 (threshold - 1)

      small_drawn : AreBytes (draw (random k) 1 (threshold - 1))
      small_drawn = draw-AreBytes k 1 (threshold - 1)

      cs : List Byte
      cs = to_bytes (draw (random k) 1 (threshold - 1)) (draw-AreBytes k 1 (threshold - 1))

      value :
          (x : ℕ) (p : x < 256)
          → eval_poly (b ∷ draw (random k) 1 (threshold - 1)) x % 256
            ≡ (Sums.eval byte_field ((b, hb) ∷ cs) (x, p)).0
      value x p =
          let at = eval-byte ((b, hb) ∷ cs) (x, p) in
          let same =
            ap (λ ds. eval_poly (b ∷ ds) x)
              (byte_values-to_bytes (draw (random k) 1 (threshold - 1))
                (draw-AreBytes k 1 (threshold - 1))) in
          let e = at ∙ same in omega (arith, e, (Sums.eval byte_field ((b, hb) ∷ cs) (x, p)).1)

  module _ (secret : List ℕ) (chosen : List ShamirShare) (small : AreSmall chosen)
      (distinct : Distinct (index_list chosen)) (enough : threshold - 1 < length chosen)
      (genuine : All (λ s. s ≡ share_at random threshold secret s.index) chosen) where
    data-at :
        (pre rest : List ℕ) (b : ℕ) (s : ShamirShare)
        → pre ++ b ∷ rest ≡ secret
        → s ≡ share_at random threshold secret s.index
        → get_or s.share_data (length pre) 0
          ≡ eval_poly (coefficients random threshold (length pre) b) s.index % 256
    data-at pre rest b s e g =
        ap (λ (t : ShamirShare). get_or t.share_data (length pre) 0) g
        ∙ ap (λ z. get_or (values random threshold 0 z s.index) (length pre) 0) (sym e)
        ∙ get_or-values random threshold (length pre) 0 pre b rest s.index (omega arith)

    recover_bytes-eq :
        (pre rest : List ℕ)
        → pre ++ rest ≡ secret
        → AreBytes rest
        → recover_bytes chosen (length rest) (length pre) ≡ ok rest
    unfolding recover_bytes
    recover_bytes-eq pre [] e h = refl
    recover_bytes-eq pre (b ∷ rest) e h =
        let here =
          interpolate-byte chosen small (length pre) b h.0 distinct enough
            (All-map chosen (λ s g. data-at pre rest b s e g) genuine) in
        let more : length (pre ++ b ∷ []) ≡ suc (length pre) =
          omega (arith, length-append pre (b ∷ [])) in
        let later =
          recover_bytes-eq (pre ++ b ∷ []) rest (append_assoc pre (b ∷ []) rest ∙ e) h.1 in
        let later' = rw more at later in
        let byte : b % 256 ≡ b = omega arith in rw here (rw later' (ap (λ x. ok (x ∷ rest)) byte))

    same_lengths-chosen :
        (ss : List ShamirShare)
        → All (λ s. s ≡ share_at random threshold secret s.index) ss
        → same_lengths (length secret) ss ≡ true
    unfolding same_lengths
    same_lengths-chosen [] g = refl
    same_lengths-chosen (s ∷ ss) g =
        let len : length s.share_data ≡ length secret =
          ap (λ (t : ShamirShare). length t.share_data) g.0
          ∙ length-values random threshold 0 secret s.index in
        ground (arith, len, same_lengths-chosen ss g.1)

    length-first :
        (s : ShamirShare)
        → s ≡ share_at random threshold secret s.index
        → length s.share_data ≡ length secret
    length-first s g =
        ap (λ (t : ShamirShare). length t.share_data) g
        ∙ length-values random threshold 0 secret s.index

  recover-eq :
      (secret : List ℕ) (chosen : List ShamirShare) (small : AreSmall chosen)
      → Distinct (index_list chosen)
      → All (λ s. s ≡ share_at random threshold secret s.index) chosen
      → AreBytes secret
      → 2 ≤ threshold
      → threshold ≤ length chosen
      → recover_secret chosen ≡ ok secret
  recover-eq secret [] small distinct genuine b p q = absurd (omega arith)
  recover-eq secret (s ∷ ss) small distinct genuine b p q =
      let enough : threshold - 1 < length (s ∷ ss) = omega arith in
      let len = length-first secret (s ∷ ss) small distinct enough genuine s genuine.0 in
      let same =
        ap (λ n. same_lengths n (s ∷ ss)) len
        ∙ same_lengths-chosen secret (s ∷ ss) small distinct enough genuine (s ∷ ss) genuine in
      let bytes = recover_bytes-eq secret (s ∷ ss) small distinct enough genuine [] secret refl b in
      let two : leb 2 (length (s ∷ ss)) ≡ true = ground arith in
      recover_secret-checked s ss two same ∙ ap (λ n. recover_bytes (s ∷ ss) n 0) len ∙ bytes

-- Any selection of at least `threshold` distinct shares of a split recovers the secret: whatever
-- bytes the random source gives, if `split_secret` of a list of bytes succeeds and the selection
-- holds shares of that split, no two with one index, then `recover_secret` returns the secret.
pub recover-split :
    (random : ℕ → ℕ → ℕ) (secret : List ℕ) (n threshold : ℕ) (shares chosen : List ShamirShare)
    → ((i k : ℕ) → random i k < 256)
    → AreBytes secret
    → split_secret random secret n threshold ≡ ok shares
    → All (λ s. IsIn s shares) chosen
    → Distinct (index_list chosen)
    → threshold ≤ length chosen
    → recover_secret chosen ≡ ok secret
recover-split random secret n threshold shares chosen bytes small e within distinct enough =
    recover-eq random threshold bytes secret chosen
      (All-map chosen (λ s g. omega (arith, g.1)) facts) distinct
      (All-map chosen (λ s g. g.0) facts) small split.1 enough
  where
    split :
        (shares ≡ map (share_at random threshold secret) (indices random threshold n 0))
        × (2 ≤ threshold)
        × (threshold ≤ n)
        × (n ≤ 255)
        × (0 < length secret)
    split = split-eq random threshold secret n shares e

    fact :
        (s : ShamirShare)
        → IsIn s shares
        → (s ≡ share_at random threshold secret s.index) × (s.index < 256)
    fact s at =
        let r =
          get_elem?-shares random threshold secret n 0 at.0 s
            (ap (λ z. get_elem? z at.0) (sym split.0) ∙ at.1) in
        (r.0, omega (arith, r.1, split.3))

    facts : All (λ s. (s ≡ share_at random threshold secret s.index) × (s.index < 256)) chosen
    facts = All-map chosen fact within
