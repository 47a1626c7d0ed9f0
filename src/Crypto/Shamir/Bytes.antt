-- ===== src/Crypto/Shamir/Bytes.antt =====
-- The bytes as a field, with the operations of the secret sharing.
use mathlib.Core.HLevel.{Σ_prop_path}
use mathlib.Core.Logic.{dite, dif_pos}
use native.Mathlib.Bridge.{le_prop}
use native.Mathlib.Decide.{dec_lt, ℕ_discrete}
use brine_vault.Base.{
  ℕ, suc, ◌<◌, ◌≡◌, refl, sym, ap, ◌∙◌, ◌≢◌, bit_xor, arith, some, List, [], ◌∷◌, map, All, length,
}
use brine_vault.Crypto.Xor.{xor_assoc, xor_comm, xor-zero, xor_self, xor-lt}
use brine_vault.Crypto.Gf256.{gf_mul, gf_inv}
use brine_vault.Crypto.Gf256.Field.{
  gf_mul-lt, mul_assoc, mul_comm, mul-one, mul-zero, mul_add_right, gf_inv-inverse,
}
use brine_vault.Crypto.Lagrange.Field.{CharTwoField}
use brine_vault.Crypto.Lagrange.Sums
use brine_vault.Crypto.Shamir.{eval_poly}

abbrev pub Byte : Type 0
Byte = (n : ℕ) × (n < 256)

pub Byte-path : (a b : Byte) → a.0 ≡ b.0 → a ≡ b
Byte-path a b p = Σ_prop_path (λ n. le_prop) p

unfoldable pub xor_byte : Byte → Byte → Byte
xor_byte a b = (bit_xor a.0 b.0, xor-lt 8 a.0 b.0 a.1 b.1)

unfoldable pub mul_byte : Byte → Byte → Byte
mul_byte a b = (gf_mul a.0 b.0, gf_mul-lt a.0 b.0 a.1 b.1)

found_inverse : (a : Byte) → 0 < a.0 → Byte
found_inverse a p = let r = gf_inv-inverse a.0 p a.1 in (r.0, r.2)

pub inv_byte : Byte → Byte
inv_byte a = dite (dec_lt 0 a.0) (found_inverse a) (λ _. a)

pub Byte-eq? : Discrete Byte
Byte-eq? a b = elim (ℕ_discrete a.0 b.0) [
  | yes p ↦ yes (Byte-path a b p)
  | no p ↦ no (λ e. p (ap (λ (x : Byte). x.0) e))
]

abbrev pub null_byte : Byte
null_byte = (0, omega arith)

abbrev pub one_byte : Byte
one_byte = (1, omega arith)

pos_of_ne : (a : Byte) → a ≢ null_byte → 0 < a.0
pos_of_ne a h = elim (dec_lt 0 a.0) [
  | yes p ↦ p
  | no p ↦ absurd (h (Byte-path a null_byte (omega arith)))
]

-- `gf_inv` returns the inverse of a byte that is not zero.
pub gf_inv-byte :
    (a : Byte)
    → a ≢ null_byte
    → (gf_inv a.0 ≡ some (inv_byte a).0) × (gf_mul a.0 (inv_byte a).0 ≡ 1)
unfolding inv_byte found_inverse
gf_inv-byte a h =
    let p = pos_of_ne a h in
    let r = gf_inv-inverse a.0 p a.1 in
    let e : inv_byte a ≡ found_inverse a p =
      dif_pos (dec_lt 0 a.0) le_prop p (found_inverse a) (λ _. a) in
    let e0 = ap (λ (x : Byte). x.0) e in (r.1 ∙ ap some (sym e0), ap (gf_mul a.0) e0 ∙ r.3)

pub one-ne-null : one_byte ≢ null_byte
one-ne-null e = absurd (omega (arith, ap (λ (x : Byte). x.0) e))

pub byte_add_assoc : (a b c : Byte) → xor_byte (xor_byte a b) c ≡ xor_byte a (xor_byte b c)
unfolding xor_byte
byte_add_assoc a b c = Byte-path _ _ (xor_assoc a.0 b.0 c.0)

pub byte_add_comm : (a b : Byte) → xor_byte a b ≡ xor_byte b a
unfolding xor_byte
byte_add_comm a b = Byte-path _ _ (xor_comm a.0 b.0)

pub byte_add-null : (a : Byte) → xor_byte a null_byte ≡ a
unfolding xor_byte
byte_add-null a = Byte-path _ _ (xor-zero a.0)

pub byte_add_self : (a : Byte) → xor_byte a a ≡ null_byte
unfolding xor_byte
byte_add_self a = Byte-path _ _ (xor_self a.0)

pub byte_mul_assoc : (a b c : Byte) → mul_byte (mul_byte a b) c ≡ mul_byte a (mul_byte b c)
unfolding mul_byte
byte_mul_assoc a b c = Byte-path _ _ (mul_assoc a.0 b.0 c.0 a.1 b.1 c.1)

pub byte_mul_comm : (a b : Byte) → mul_byte a b ≡ mul_byte b a
unfolding mul_byte
byte_mul_comm a b = Byte-path _ _ (mul_comm a.0 b.0 a.1 b.1)

pub byte_mul-one : (a : Byte) → mul_byte a one_byte ≡ a
unfolding mul_byte
byte_mul-one a = Byte-path _ _ (mul-one a.0 a.1)

pub byte_mul-null : (a : Byte) → mul_byte a null_byte ≡ null_byte
unfolding mul_byte
byte_mul-null a = Byte-path _ _ (mul-zero a.0)

pub byte_distrib :
    (a b c : Byte) → mul_byte a (xor_byte b c) ≡ xor_byte (mul_byte a b) (mul_byte a c)
unfolding mul_byte xor_byte
byte_distrib a b c = Byte-path _ _ (mul_add_right a.0 b.0 c.0 a.1 b.1 c.1)

pub byte_mul-inv : (a : Byte) → a ≢ null_byte → mul_byte a (inv_byte a) ≡ one_byte
unfolding mul_byte
byte_mul-inv a h = Byte-path _ _ (gf_inv-byte a h).1

abbrev pub byte_field : CharTwoField Byte
byte_field = record {
  ◌⊕◌ = xor_byte;
  ◌⊗◌ = mul_byte;
  null = null_byte;
  one = one_byte;
  inv = inv_byte;
  eq? = Byte-eq?;
  add_assoc = byte_add_assoc;
  add_comm = byte_add_comm;
  add-null = byte_add-null;
  add-self = byte_add_self;
  mul_assoc = byte_mul_assoc;
  mul_comm = byte_mul_comm;
  mul-one = byte_mul-one;
  mul-null = byte_mul-null;
  distrib = byte_distrib;
  mul-inv = byte_mul-inv;
  one-ne-null = one-ne-null;
}

abbrev pub byte_values : List Byte → List ℕ
byte_values = map (λ b. b.0)

-- The field's polynomials are those of the shares.
pub eval-byte :
    (cs : List Byte) (x : Byte) → (Sums.eval byte_field cs x).0 ≡ eval_poly (byte_values cs) x.0
unfolding Sums.eval eval_poly xor_byte mul_byte
eval-byte [] x = refl
eval-byte (c ∷ cs) x = ap (λ y. bit_xor (gf_mul y x.0) c.0) (eval-byte cs x)

abbrev pub AreBytes : List ℕ → Type 0
AreBytes = All (λ n. n < 256)

pub to_bytes : (ns : List ℕ) → AreBytes ns → List Byte
to_bytes [] h = []
to_bytes (n ∷ ns) h = (n, h.0) ∷ to_bytes ns h.1

pub byte_values-to_bytes : (ns : List ℕ) (h : AreBytes ns) → byte_values (to_bytes ns h) ≡ ns
unfolding to_bytes
byte_values-to_bytes [] h = refl
byte_values-to_bytes (n ∷ ns) h = ap (◌∷◌ n) (byte_values-to_bytes ns h.1)

pub length-to_bytes : (ns : List ℕ) (h : AreBytes ns) → length (to_bytes ns h) ≡ length ns
unfolding to_bytes
length-to_bytes [] h = refl
length-to_bytes (n ∷ ns) h = ap suc (length-to_bytes ns h.1)
