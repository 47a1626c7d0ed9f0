-- ===== src/Crypto/Gf256/Field.antt =====
-- The bytes with exclusive or and `gf_mul` are a field.
use native.Mathlib.Decide.{dec_lt}
use mathlib.Core.Path.{◌≡⟨◌⟩◌, ◌∎}
use brine_vault.Base.{
  ℕ, zero, suc, ◌*◌, ◌/◌, ◌%◌, ◌≤◌, ◌<◌, ◌≡◌, refl, sym, ap, ap₂, ◌∙◌, true, bit_xor, arith,
  if◌then◌else◌, ltb, ◌==◌, ==_iff, every_below, every_below_sound, Option, none, some,
}
use brine_vault.Crypto.Xor.{xor-lt}
use brine_vault.Crypto.Gf256.{xtime, gf_mul, gf_inv}
use brine_vault.Crypto.Gf256.Linear.{
  xtime-lt, xtime_add, gf_mul-eq, digit_mul-lt, digit_mul_add_left, digit_mul_add_right,
  digit_mul-xtime, gf_mul_double,
}

pub gf_mul-lt : (a b : ℕ) → a < 256 → b < 256 → gf_mul a b < 256
gf_mul-lt a b p q = rw (gf_mul-eq a b q) (digit_mul-lt 8 a b p)

pub mul_add_left :
    (a c b : ℕ)
    → a < 256
    → c < 256
    → b < 256
    → gf_mul (bit_xor a c) b ≡ bit_xor (gf_mul a b) (gf_mul c b)
mul_add_left a c b p q r =
    rw (gf_mul-eq (bit_xor a c) b r, gf_mul-eq a b r, gf_mul-eq c b r)
      (digit_mul_add_left 8 a c b p q)

pub mul_add_right :
    (a b c : ℕ)
    → a < 256
    → b < 256
    → c < 256
    → gf_mul a (bit_xor b c) ≡ bit_xor (gf_mul a b) (gf_mul a c)
mul_add_right a b c p q r =
    rw (gf_mul-eq a (bit_xor b c) (xor-lt 8 b c q r), gf_mul-eq a b q, gf_mul-eq a c r)
      (digit_mul_add_right 8 a b c)

pub mul-xtime_left : (a b : ℕ) → a < 256 → b < 256 → gf_mul (xtime a) b ≡ xtime (gf_mul a b)
mul-xtime_left a b p q = rw (gf_mul-eq (xtime a) b q, gf_mul-eq a b q) (digit_mul-xtime 8 a b p)

-- Below 128 doubling is a shift; from 128 on it also reduces.
xtime_low_table : every_below 128 (λ b. xtime b == b * 2) ≡ true
unfolding every_below xtime
xtime_low_table = refl

reduce_table : every_below 256 (λ a. gf_mul a 0x1b == xtime (gf_mul a 128)) ≡ true
unfolding every_below gf_mul
reduce_table = refl

high_table : every_below 256 (λ b. (b == bit_xor (b % 128) (if ltb b 128 then 0 else 128))) ≡ true
unfolding every_below
high_table = refl

one_table : every_below 256 (λ a. gf_mul a 1 == a) ≡ true
unfolding every_below gf_mul
one_table = refl

one_left_table : every_below 256 (λ a. gf_mul 1 a == a) ≡ true
unfolding every_below gf_mul
one_left_table = refl

zero_left_table : every_below 256 (λ a. gf_mul 0 a == 0) ≡ true
unfolding every_below gf_mul
zero_left_table = refl

inverse_product : ℕ → ℕ
inverse_product a = elim (gf_inv a) [ none ↦ 0 | some i ↦ if ltb i 256 then gf_mul a i else 0 ]

inverse_table : every_below 256 (λ a. inverse_product a == (if a == 0 then 0 else 1)) ≡ true
unfolding every_below gf_mul gf_inv inverse_product
inverse_table = refl

xtime_low : (b : ℕ) → b < 128 → xtime b ≡ b * 2
xtime_low b p = (==_iff _ _).0 (every_below_sound 128 _ b xtime_low_table p)

reduce : (a : ℕ) → a < 256 → gf_mul a 0x1b ≡ xtime (gf_mul a 128)
reduce a p = (==_iff _ _).0 (every_below_sound 256 _ a reduce_table p)

pub mul-one : (a : ℕ) → a < 256 → gf_mul a 1 ≡ a
mul-one a p = (==_iff _ _).0 (every_below_sound 256 _ a one_table p)

pub one-mul : (a : ℕ) → a < 256 → gf_mul 1 a ≡ a
one-mul a p = (==_iff _ _).0 (every_below_sound 256 _ a one_left_table p)

pub mul-zero : (a : ℕ) → gf_mul a 0 ≡ 0
unfolding gf_mul
mul-zero a = refl

pub zero-mul : (a : ℕ) → a < 256 → gf_mul 0 a ≡ 0
zero-mul a p = (==_iff _ _).0 (every_below_sound 256 _ a zero_left_table p)

xtime_high_table : every_below 128 (λ b. xtime (bit_xor b 128) == bit_xor (b * 2) 0x1b) ≡ true
unfolding every_below xtime
xtime_high_table = refl

xtime_high : (b : ℕ) → b < 128 → xtime (bit_xor b 128) ≡ bit_xor (b * 2) 0x1b
xtime_high b p = (==_iff _ _).0 (every_below_sound 128 _ b xtime_high_table p)

mul-xtime_low : (a b : ℕ) → a < 256 → b < 128 → gf_mul a (xtime b) ≡ xtime (gf_mul a b)
mul-xtime_low a b p q = rw (xtime_low b q, gf_mul_double a b q) (mul-xtime_left a b p (omega arith))

mul-xtime_high :
    (a b : ℕ)
    → a < 256
    → b < 128
    → gf_mul a (xtime (bit_xor b 128)) ≡ xtime (gf_mul a (bit_xor b 128))
mul-xtime_high a b p q =
    gf_mul a (xtime (bit_xor b 128))
    ≡⟨ ap (gf_mul a) (xtime_high b q) ⟩ gf_mul a (bit_xor (b * 2) 0x1b)
    ≡⟨ mul_add_right a (b * 2) 0x1b p (omega arith) (omega arith) ⟩
      bit_xor (gf_mul a (b * 2)) (gf_mul a 0x1b)
    ≡⟨ ap₂ bit_xor (gf_mul_double a b q ∙ mul-xtime_left a b p (omega arith)) (reduce a p) ⟩
      bit_xor (xtime (gf_mul a b)) (xtime (gf_mul a 128))
    ≡⟨ sym (xtime_add _ _ (gf_mul-lt a b p (omega arith)) (gf_mul-lt a 128 p (omega arith))) ⟩
      xtime (bit_xor (gf_mul a b) (gf_mul a 128))
    ≡⟨ ap xtime (sym (mul_add_right a b 128 p (omega arith) (omega arith))) ⟩
      xtime (gf_mul a (bit_xor b 128)) ∎

high_digit : (b : ℕ) → b < 256 → 128 ≤ b → b ≡ bit_xor (b % 128) 128
high_digit b p h = ground (
  arith,
  every_below_sound 256 (λ b. b == bit_xor (b % 128) (if ltb b 128 then 0 else 128)) b high_table p,
)

pub mul-xtime_right : (a b : ℕ) → a < 256 → b < 256 → gf_mul a (xtime b) ≡ xtime (gf_mul a b)
mul-xtime_right a b p q = elim (dec_lt b 128) [
  | yes low ↦ mul-xtime_low a b p low
  | no high ↦ rw (high_digit b q (omega arith)) (mul-xtime_high a (b % 128) p (omega arith))
]

-- A byte is its lowest digit and the double of the rest.
digits_table : every_below 256 (λ b. b == bit_xor (b % 2) (xtime (b / 2))) ≡ true
unfolding every_below xtime
digits_table = refl

byte_digits : (b : ℕ) → b < 256 → b ≡ bit_xor (b % 2) (xtime (b / 2))
byte_digits b p = (==_iff _ _).0 (every_below_sound 256 _ b digits_table p)

pub mul_digits_right :
    (a b : ℕ)
    → a < 256
    → b < 256
    → gf_mul a b ≡ bit_xor (gf_mul a (b % 2)) (xtime (gf_mul a (b / 2)))
mul_digits_right a b p q =
    ap (gf_mul a) (byte_digits b q)
    ∙ mul_add_right a (b % 2) (xtime (b / 2)) p (omega arith) (xtime-lt _ (omega arith))
    ∙ ap (bit_xor (gf_mul a (b % 2))) (mul-xtime_right a (b / 2) p (omega arith))

mul_digits_left :
    (b a : ℕ)
    → b < 256
    → a < 256
    → gf_mul b a ≡ bit_xor (gf_mul (b % 2) a) (xtime (gf_mul (b / 2) a))
mul_digits_left b a p q =
    ap (λ x. gf_mul x a) (byte_digits b p)
    ∙ mul_add_left (b % 2) (xtime (b / 2)) a (omega arith) (xtime-lt _ (omega arith)) q
    ∙ ap (bit_xor (gf_mul (b % 2) a)) (mul-xtime_left (b / 2) a (omega arith) q)

digit_comm : (a d : ℕ) → a < 256 → d < 2 → gf_mul a d ≡ gf_mul d a
digit_comm a zero p q = mul-zero a ∙ sym (zero-mul a p)
digit_comm a (suc zero) p q = mul-one a p ∙ sym (one-mul a p)
digit_comm a (suc (suc d)) p q = absurd (omega arith)

mul_comm_fuel : (n a b : ℕ) → b ≤ n → a < 256 → b < 256 → gf_mul a b ≡ gf_mul b a
mul_comm_fuel n a zero h p q = mul-zero a ∙ sym (zero-mul a p)
mul_comm_fuel zero a (suc b) h p q = absurd (omega arith)
mul_comm_fuel (suc n) a (suc b) h p q =
    mul_digits_right a (suc b) p q
    ∙ ap₂ bit_xor (digit_comm a (suc b % 2) p (omega arith))
        (ap xtime (mul_comm_fuel n a (suc b / 2) (omega arith) p (omega arith)))
    ∙ sym (mul_digits_left (suc b) a q p)

pub mul_comm : (a b : ℕ) → a < 256 → b < 256 → gf_mul a b ≡ gf_mul b a
mul_comm a b p q = mul_comm_fuel b a b (omega arith) p q

digit_assoc :
    (a b d : ℕ) → a < 256 → b < 256 → d < 2 → gf_mul (gf_mul a b) d ≡ gf_mul a (gf_mul b d)
digit_assoc a b zero p q r = mul-zero _ ∙ sym (ap (gf_mul a) (mul-zero b) ∙ mul-zero a)
digit_assoc a b (suc zero) p q r = mul-one _ (gf_mul-lt a b p q) ∙ sym (ap (gf_mul a) (mul-one b q))
digit_assoc a b (suc (suc d)) p q r = absurd (omega arith)

mul_assoc_fuel :
    (n a b c : ℕ)
    → c ≤ n
    → a < 256
    → b < 256
    → c < 256
    → gf_mul (gf_mul a b) c ≡ gf_mul a (gf_mul b c)
mul_assoc_fuel n a b zero h p q r = digit_assoc a b zero p q (omega arith)
mul_assoc_fuel zero a b (suc c) h p q r = absurd (omega arith)
mul_assoc_fuel (suc n) a b (suc c) h p q r =
    let low : gf_mul b (suc c % 2) < 256 = gf_mul-lt b _ q (omega arith) in
    let high : gf_mul b (suc c / 2) < 256 = gf_mul-lt b _ q (omega arith) in
    gf_mul (gf_mul a b) (suc c)
    ≡⟨ mul_digits_right (gf_mul a b) (suc c) (gf_mul-lt a b p q) r ⟩
      bit_xor (gf_mul (gf_mul a b) (suc c % 2)) (xtime (gf_mul (gf_mul a b) (suc c / 2)))
    ≡⟨ ap₂ bit_xor (digit_assoc a b (suc c % 2) p q (omega arith))
        (ap xtime (mul_assoc_fuel n a b (suc c / 2) (omega arith) p q (omega arith))) ⟩
      bit_xor (gf_mul a (gf_mul b (suc c % 2))) (xtime (gf_mul a (gf_mul b (suc c / 2))))
    ≡⟨ ap (bit_xor (gf_mul a (gf_mul b (suc c % 2)))) (sym (mul-xtime_right a _ p high)) ⟩
      bit_xor (gf_mul a (gf_mul b (suc c % 2))) (gf_mul a (xtime (gf_mul b (suc c / 2))))
    ≡⟨ sym (mul_add_right a _ _ p low (xtime-lt _ high)) ⟩
      gf_mul a (bit_xor (gf_mul b (suc c % 2)) (xtime (gf_mul b (suc c / 2))))
    ≡⟨ ap (gf_mul a) (sym (mul_digits_right b (suc c) q r)) ⟩ gf_mul a (gf_mul b (suc c)) ∎

pub mul_assoc :
    (a b c : ℕ) → a < 256 → b < 256 → c < 256 → gf_mul (gf_mul a b) c ≡ gf_mul a (gf_mul b c)
mul_assoc a b c p q r = mul_assoc_fuel c a b c (omega arith) p q r

-- `gfInv` returns a byte for every byte but zero, and that byte is the multiplicative inverse.
pub gf_inv-inverse :
    (a : ℕ) → 0 < a → a < 256 → (i : ℕ) × (gf_inv a ≡ some i) × (i < 256) × (gf_mul a i ≡ 1)
unfolding inverse_product
gf_inv-inverse a pos p = split (gf_inv a) refl
  where
    entry : inverse_product a ≡ (if a == 0 then 0 else 1)
    entry = (==_iff _ _).0 (every_below_sound 256 _ a inverse_table p)

    split :
        (o : Option ℕ) → gf_inv a ≡ o → (i : ℕ) × (gf_inv a ≡ some i) × (i < 256) × (gf_mul a i ≡ 1)
    split none e = absurd (ground (arith, entry))
    split (some i) e = (i, e, ground (arith, entry), ground (arith, entry))

-- On bytes the multiplication stays in the bytes, is commutative and associative, distributes over
-- exclusive or, and has 1 as its unit.
pub gf_mul-laws :
    (a b c : ℕ)
    → a < 256
    → b < 256
    → c < 256
    → (gf_mul a b < 256)
      × (gf_mul a b ≡ gf_mul b a)
      × (gf_mul (gf_mul a b) c ≡ gf_mul a (gf_mul b c))
      × (gf_mul a (bit_xor b c) ≡ bit_xor (gf_mul a b) (gf_mul a c))
      × (gf_mul a 1 ≡ a)
gf_mul-laws a b c p q r = (
  gf_mul-lt a b p q,
  mul_comm a b p q,
  mul_assoc a b c p q r,
  mul_add_right a b c p q r,
  mul-one a p,
)
