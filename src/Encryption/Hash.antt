-- ===== src/Encryption/Hash.antt =====
-- Integrity: packages/encryption-sdk/src/integrity/hash.ts. A text is the list of its characters'
-- codes; the digest of Web Crypto is a parameter.
use brine_vault.Base.{
  ℕ, ◌+◌, ◌/◌, ◌%◌, ◌==◌, ltb, List, [], ◌∷◌, length, Bool, true, false, ◌≡◌, ◌↔◌, refl, ap₂, subst,
  if◌then◌else◌, if-elim, ==_iff, ==_self, bit_or, bit_xor, arith,
}
use brine_vault.Crypto.Xor.{xor_self, or-eq-zero, xor-eq-zero}

-- The character of a digit in `toString(16)`.
abbrev pub hex_char : ℕ → ℕ
hex_char d = if ltb d 10 then 48 + d else 87 + d

unfoldable pub buffer_to_hex : List ℕ → List ℕ
buffer_to_hex [] = []
buffer_to_hex (b ∷ buffer) = hex_char (b / 16) ∷ hex_char (b % 16) ∷ buffer_to_hex buffer

-- The loop: `result |= a.charCodeAt(i) ^ b.charCodeAt(i)`.
unfoldable pub or_differences : ℕ → List ℕ → List ℕ → ℕ
or_differences result [] b = result
or_differences result (x ∷ a) [] = result
or_differences result (x ∷ a) (y ∷ b) = or_differences (bit_or result (bit_xor x y)) a b

unfoldable pub constant_time_equal : List ℕ → List ℕ → Bool
constant_time_equal a b = if length a == length b then or_differences 0 a b == 0 else false

unfoldable pub compute_hash : (List ℕ → List ℕ) → List ℕ → List ℕ
compute_hash digest bytes = buffer_to_hex (digest bytes)

unfoldable pub verify_hash : (List ℕ → List ℕ) → List ℕ → List ℕ → Bool
verify_hash digest bytes expected = constant_time_equal (compute_hash digest bytes) expected

or_differences-zero :
    (result : ℕ) (a b : List ℕ)
    → length a ≡ length b
    → or_differences result a b ≡ 0
    → (result ≡ 0) × (a ≡ b)
unfolding or_differences
or_differences-zero result [] [] l h = (h, refl)
or_differences-zero result [] (y ∷ b) l h = absurd (omega arith)
or_differences-zero result (x ∷ a) [] l h = absurd (omega arith)
or_differences-zero result (x ∷ a) (y ∷ b) l h =
    let (before, same) = or_differences-zero (bit_or result (bit_xor x y)) a b (omega arith) h in
    let (none, equal) = or-eq-zero result (bit_xor x y) before in
    (none, ap₂ ◌∷◌ (xor-eq-zero x y equal) same)

or_differences_self : (a : List ℕ) → or_differences 0 a a ≡ 0
unfolding or_differences
or_differences_self [] = refl
or_differences_self (x ∷ a) = rw (xor_self x) (or_differences_self a)

-- The comparison in constant time is equality of the texts.
pub constant_time_equal_iff : (a b : List ℕ) → (constant_time_equal a b ≡ true) ↔ (a ≡ b)
unfolding constant_time_equal
constant_time_equal_iff a b = (
  if-elim (λ (c : Bool). c ≡ true → a ≡ b) (length a == length b) (or_differences 0 a b == 0) false
      (λ same h.
        (or_differences-zero 0 a b ((==_iff (length a) (length b)).0 same)
          ((==_iff (or_differences 0 a b) 0).0 h)).1)
      (λ differ h. cc),
  λ e.
      subst (λ x. constant_time_equal a x ≡ true) e
        (rw (==_self (length a)) (rw (or_differences_self a) refl)),
)
