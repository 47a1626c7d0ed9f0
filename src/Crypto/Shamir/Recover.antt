-- ===== src/Crypto/Shamir/Recover.antt =====
-- `recover_secret` on distinct shares is Lagrange interpolation at zero.
use mathlib.Core.Logic.{ite, if_pos, if_neg}
use mathlib.Core.Path.{subst}
use brine_vault.Base.{
  ℕ, zero, suc, ◌+◌, ◌<◌, ◌≡◌, refl, sym, ap, ap₂, ◌∙◌, ◌≢◌, bit_xor, arith, Option, none, some,
  List, [], ◌∷◌, map, All, ◌==◌, if◌then◌else◌, length, get_elem?, get_or, ok,
}
use brine_vault.Crypto.Gf256.{gf_mul}
use brine_vault.Crypto.Lagrange.Field
use brine_vault.Crypto.Lagrange.Sums.{Fresh, Distinct}
use brine_vault.Crypto.Lagrange.Sums
use brine_vault.Crypto.Lagrange.AtZero
use brine_vault.Crypto.Shamir.{ShamirShare, lagrange_basis, interpolate}
use brine_vault.Crypto.Shamir.Bytes.{
  Byte, Byte-path, byte_field, xor_byte, mul_byte, Byte-eq?, gf_inv-byte, one_byte, null_byte,
  byte_mul-one, byte_mul_assoc, byte_add-null, byte_add_assoc,
}

abbrev pub AreSmall : List ShamirShare → Type 0
AreSmall = All (λ s. s.index < 256)

abbrev pub index_list : List ShamirShare → List ℕ
index_list = map (λ s. s.index)

pub points : (ss : List ShamirShare) → AreSmall ss → List Byte
points [] h = []
points (s ∷ ss) h = (s.index, h.0) ∷ points ss h.1

length-points : (ss : List ShamirShare) (h : AreSmall ss) → length (points ss h) ≡ length ss
unfolding points
length-points [] h = refl
length-points (s ∷ ss) h = ap suc (length-points ss h.1)

Fresh-points :
    (a : Byte) (ss : List ShamirShare) (h : AreSmall ss)
    → Fresh a.0 (index_list ss)
    → Fresh a (points ss h)
unfolding points
Fresh-points a [] h f = tt
Fresh-points a (s ∷ ss) h f = ((λ e. f.0 (ap (λ (b : Byte). b.0) e)), Fresh-points a ss h.1 f.1)

Distinct-points :
    (ss : List ShamirShare) (h : AreSmall ss) → Distinct (index_list ss) → Distinct (points ss h)
unfolding points
Distinct-points [] h d = tt
Distinct-points (s ∷ ss) h d = (Fresh-points (s.index, h.0) ss h.1 d.0, Distinct-points ss h.1 d.1)

-- From position `j` on, the position `i` is the only one that holds the index `xi`.
abbrev Aligned : ℕ → ℕ → ℕ → List ShamirShare → Type 0
Aligned i xi j [] = Unit
Aligned i xi j (s ∷ ss) = ((i == j) ≡ (xi == s.index)) × Aligned i xi (suc j) ss

Aligned-after :
    (i xi j : ℕ) (ss : List ShamirShare) → i < j → Fresh xi (index_list ss) → Aligned i xi j ss
Aligned-after i xi j [] h f = tt
Aligned-after i xi j (s ∷ ss) h f =
    (ground (arith, f.0), Aligned-after i xi (suc j) ss (omega arith) f.1)

Fresh-at :
    (a : ℕ) (k : ℕ) (ss : List ShamirShare) (s : ShamirShare)
    → Fresh a (index_list ss)
    → get_elem? ss k ≡ some s
    → s.index ≢ a
Fresh-at a k [] s f e = cc
Fresh-at a zero (t ∷ ss) s f e = λ p. f.0 (cc)
Fresh-at a (suc k) (t ∷ ss) s f e = Fresh-at a k ss s f.1 e

Aligned-at :
    (i j k : ℕ) (ss : List ShamirShare) (s : ShamirShare)
    → j + k ≡ i
    → get_elem? ss k ≡ some s
    → Distinct (index_list ss)
    → Aligned i s.index j ss
Aligned-at i j k [] s p e d = tt
Aligned-at i j zero (t ∷ ss) s p e d =
    let same : t.index ≡ s.index = ap (λ o. index_or o) e in
    (
      ground arith,
      subst (λ a. Aligned i a (suc j) ss) same
          (Aligned-after i t.index (suc j) ss (omega arith) d.0),
    )
  where
    index_or : Option ShamirShare → ℕ
    index_or none = 0
    index_or (some u) = u.index
Aligned-at i j (suc k) (t ∷ ss) s p e d =
    (ground (arith, Fresh-at t.index k ss s d.0 e), Aligned-at i (suc j) k ss s (omega arith) e d.1)

abbrev num : List Byte → Byte → Byte
num = Sums.num byte_field

abbrev den : List Byte → Byte → Byte
den = Sums.den byte_field

-- One round of the inner loop: the factor of a share, or one for the share itself.
factor-eq :
    (i j : ℕ) (x o n f : Byte)
    → (i == j) ≡ (x.0 == o.0)
    → (if i == j then n.0 else gf_mul n.0 f.0) ≡ (mul_byte n (ite (Byte-eq? x o) one_byte f)).0
factor-eq i j x o n f h = elim (Byte-eq? x o) [
  | yes p ↦
      let same : x.0 ≡ o.0 = ap (λ (b : Byte). b.0) p in
      ground (
        arith,
        same,
        ap (λ (b : Byte). (mul_byte n b).0) (if_pos (Byte-eq? x o) p one_byte f),
        ap (λ (b : Byte). b.0) (byte_mul-one n),
      )
  | no p ↦
      let differ : x.0 ≢ o.0 = λ e. p (Byte-path x o e) in
      let product : (mul_byte n f).0 ≡ gf_mul n.0 f.0 = unfold mul_byte in refl in
      ground (
        arith,
        differ,
        product,
        ap (λ (b : Byte). (mul_byte n b).0) (if_neg (Byte-eq? x o) p one_byte f),
      )
]

-- The inner loop multiplies up the numerator and the denominator of the weight.
lagrange_basis-eq :
    (i j : ℕ) (x n d : Byte) (ss : List ShamirShare) (h : AreSmall ss)
    → Aligned i x.0 j ss
    → lagrange_basis i x.0 j ss n.0 d.0
      ≡ ((mul_byte n (num (points ss h) x)).0, (mul_byte d (den (points ss h) x)).0)
unfolding lagrange_basis points Sums.num Sums.den
lagrange_basis-eq i j x n d [] h a =
    ap₂ (λ (u v : Byte). (u.0, v.0)) (sym (byte_mul-one n)) (sym (byte_mul-one d))
lagrange_basis-eq i j x n d (s ∷ ss) h a =
    ap₂ (lagrange_basis i x.0 (suc j) ss) (factor-eq i j x o n o a.0) (
      ap (λ u. if i == j then d.0 else gf_mul d.0 u) difference
      ∙ factor-eq i j x o d (xor_byte x o) a.0)
    ∙ lagrange_basis-eq i (suc j) x (mul_byte n (ite (Byte-eq? x o) one_byte o))
        (mul_byte d (ite (Byte-eq? x o) one_byte (xor_byte x o))) ss h.1 a.1
    ∙ ap₂ (λ (u v : Byte). (u.0, v.0)) (byte_mul_assoc n _ _) (byte_mul_assoc d _ _)
  where
    o : Byte
    o = (s.index, h.0)

    difference : bit_xor x.0 s.index ≡ (xor_byte x (s.index, h.0)).0
    difference = unfold xor_byte in refl

-- What is left of the list at a position.
abbrev IsSuffix : List ShamirShare → ℕ → List ShamirShare → Type 0
IsSuffix all i [] = Unit
IsSuffix all i (s ∷ ss) = (get_elem? all i ≡ some s) × IsSuffix all (suc i) ss

IsSuffix-cons :
    (a : ShamirShare) (all : List ShamirShare) (i : ℕ) (ss : List ShamirShare)
    → IsSuffix all i ss
    → IsSuffix (a ∷ all) (suc i) ss
IsSuffix-cons a all i [] h = tt
IsSuffix-cons a all i (s ∷ ss) h = (h.0, IsSuffix-cons a all (suc i) ss h.1)

IsSuffix-self : (ss : List ShamirShare) → IsSuffix ss 0 ss
IsSuffix-self [] = tt
IsSuffix-self (s ∷ ss) = (refl, IsSuffix-cons s ss 0 ss (IsSuffix-self ss))

abbrev weight : List Byte → Byte → Byte
weight = AtZero.weight byte_field

module _ (all : List ShamirShare) (small : AreSmall all)
    (distinct : Distinct (index_list all)) where
  basis_here :
      (i : ℕ) (s : ShamirShare) (b : s.index < 256)
      → get_elem? all i ≡ some s
      → lagrange_basis i s.index 0 all 1 1
        ≡ ((num (points all small) (s.index, b)).0, (den (points all small) (s.index, b)).0)
  basis_here i s b at =
      let x : Byte = (s.index, b) in
      lagrange_basis-eq i 0 x one_byte one_byte all small
        (Aligned-at i 0 i all s (omega arith) at distinct)
      ∙ ap₂ (λ (u v : Byte). (u.0, v.0)) (Field.one-mul byte_field _) (Field.one-mul byte_field _)

  -- The outer loop adds up the weighted values.
  interpolate-eq :
      (y : Byte → Byte) (k i : ℕ) (ss : List ShamirShare) (h : AreSmall ss) (r : Byte)
      → IsSuffix all i ss
      → All (λ s. (b : s.index < 256) → get_or s.share_data k 0 ≡ (y (s.index, b)).0) ss
      → interpolate all k i ss r.0
        ≡ ok
            (xor_byte r (
              Sums.sum byte_field
                (points ss h)
                (λ x. mul_byte (y x) (weight (points all small) x)))).0
  unfolding interpolate points Sums.sum xor_byte mul_byte AtZero.weight
  interpolate-eq y k i [] h r suffix v = ap (λ (b : Byte). ok b.0) (sym (byte_add-null r))
  interpolate-eq y k i (s ∷ ss) h r suffix v =
      let x : Byte = (s.index, h.0) in
      let n : Byte = num (points all small) x in
      let d : Byte = den (points all small) x in
      let w : Byte = mul_byte (y x) (weight (points all small) x) in
      let later = interpolate-eq y k (suc i) ss h.1 (xor_byte r w) suffix.1 v.1 in
      let inverse = (gf_inv-byte d (Sums.den-ne-null byte_field (points all small) x)).0 in
      let tail =
        Sums.sum byte_field (points ss h.1) (λ x. mul_byte (y x) (weight (points all small) x)) in
      rw (basis_here i s h.0 suffix.0)
        (rw inverse (rw (v.0 h.0) (later ∙ ap (λ (b : Byte). ok b.0) (byte_add_assoc r w tail))))

  -- So the value at zero of the polynomial through the shares is found.
  pub interpolate-zero :
      (cs : List Byte) (c : Byte) (k : ℕ)
      → length cs < length all
      → All
          (λ s.
            (b : s.index < 256)
            → get_or s.share_data k 0 ≡ (Sums.eval byte_field (c ∷ cs) (s.index, b)).0)
          all
      → interpolate all k 0 all 0 ≡ ok c.0
  interpolate-zero cs c k enough v =
      interpolate-eq (Sums.eval byte_field (c ∷ cs)) k 0 all small null_byte (IsSuffix-self all) v
      ∙ ap (λ (b : Byte). ok b.0)
          (Field.null-add byte_field _
            ∙ AtZero.at_zero byte_field (points all small) cs c
                (omega (arith, length-points all small)) (Distinct-points all small distinct))
