-- ===== src/Crypto/Gf256/Linear.antt =====
-- The multiplication loop read as a fold over the digits of its second operand, and linear in each.
use native.Mathlib.Nat.{pow-suc}
use brine_vault.Base.{
  ℕ, zero, suc, ◌*◌, ◌/◌, ◌%◌, ◌^◌, ◌≤◌, ◌<◌, ◌≡◌, refl, sym, ap, ap₂, ◌∙◌, true, bit_xor, arith,
  if◌then◌else◌, ltb, ◌==◌, ==_iff, every_below, every_below_sound, inl, inr, Bool-cases,
}
use brine_vault.Crypto.Xor.{
  xor_assoc, xor_swap, xor-zero, zero-xor, xor_self, xor-lt, xor-div, xor-mod, and-one,
}
use brine_vault.Crypto.Gf256.{xtime, gf_mul_loop, gf_mul}

xtime_add_table :
    every_below 256 (λ a. every_below 256 (λ b. xtime (bit_xor a b) == bit_xor (xtime a) (xtime b)))
    ≡ true
unfolding every_below xtime
xtime_add_table = refl

xtime_byte_table : every_below 256 (λ a. ltb (xtime a) 256) ≡ true
unfolding every_below xtime
xtime_byte_table = refl

pub xtime_add : (a b : ℕ) → a < 256 → b < 256 → xtime (bit_xor a b) ≡ bit_xor (xtime a) (xtime b)
xtime_add a b p q =
    (==_iff _ _).0 (every_below_sound 256 _ b (every_below_sound 256 _ a xtime_add_table p) q)

pub xtime-lt : (a : ℕ) → a < 256 → xtime a < 256
xtime-lt a p = ground (arith, every_below_sound 256 (λ a. ltb (xtime a) 256) a xtime_byte_table p)

-- What one digit of the second operand contributes.
abbrev pub pick : ℕ → ℕ → ℕ
pick b a = if b % 2 == 1 then a else 0

-- The product over the first digits of `b`.
pub digit_mul : ℕ → ℕ → ℕ → ℕ
digit_mul zero a b = 0
digit_mul (suc n) a b = bit_xor (pick b a) (digit_mul n (xtime a) (b / 2))

digit_mul-zero : (n a : ℕ) → digit_mul n a 0 ≡ 0
unfolding digit_mul
digit_mul-zero zero a = refl
digit_mul-zero (suc n) a = zero-xor _ ∙ digit_mul-zero n (xtime a)

gf_mul_loop-zero : (fuel r a : ℕ) → gf_mul_loop fuel r a 0 ≡ r
unfolding gf_mul_loop
gf_mul_loop-zero zero r a = refl
gf_mul_loop-zero (suc fuel) r a = refl

-- The loop with enough fuel adds the product to its accumulator.
pub gf_mul_loop-eq :
    (fuel n r a b : ℕ) → b ≤ fuel → b < 2 ^ n → gf_mul_loop fuel r a b ≡ bit_xor r (digit_mul n a b)
unfolding gf_mul_loop digit_mul
gf_mul_loop-eq fuel n r a zero p q =
    gf_mul_loop-zero fuel r a ∙ sym (ap (bit_xor r) (digit_mul-zero n a) ∙ xor-zero r)
gf_mul_loop-eq zero n r a (suc b) p q = absurd (omega arith)
gf_mul_loop-eq (suc fuel) zero r a (suc b) p q = absurd (omega arith)
gf_mul_loop-eq (suc fuel) (suc n) r a (suc b) p q =
    let half : suc b / 2 < 2 ^ n = omega (arith, pow-suc 2 n) in
    let less : suc b / 2 ≤ fuel = omega arith in
    let rest = digit_mul n (xtime a) (suc b / 2) in
    ground (
      arith,
      and-one (suc b),
      gf_mul_loop-eq fuel n (bit_xor r a) (xtime a) (suc b / 2) less half,
      gf_mul_loop-eq fuel n r (xtime a) (suc b / 2) less half,
      xor_assoc r a rest,
      zero-xor rest,
    )

pub gf_mul-eq : (a b : ℕ) → b < 256 → gf_mul a b ≡ digit_mul 8 a b
unfolding gf_mul
gf_mul-eq a b p = gf_mul_loop-eq b 8 0 a b (omega arith) p ∙ zero-xor _

-- The same for a product whose second operand is doubled.
pub gf_mul_double : (a b : ℕ) → b < 128 → gf_mul a (b * 2) ≡ gf_mul (xtime a) b
unfolding gf_mul digit_mul
gf_mul_double a b p =
    let shifted = gf_mul_loop-eq (b * 2) 8 0 a (b * 2) (omega arith) (omega arith) in
    let short = gf_mul_loop-eq b 7 0 (xtime a) b (omega arith) p in
    let halved : b * 2 / 2 ≡ b = omega arith in
    shifted
    ∙ ap (bit_xor 0) (ground (arith, halved, zero-xor (digit_mul 7 (xtime a) (b * 2 / 2))))
    ∙ sym short

pick-lt : (a b : ℕ) → a < 256 → pick b a < 256
pick-lt a b h = ground arith

pub digit_mul-lt : (n a b : ℕ) → a < 256 → digit_mul n a b < 256
unfolding digit_mul
digit_mul-lt zero a b h = omega arith
digit_mul-lt (suc n) a b h =
    xor-lt 8 _ _ (pick-lt a b h) (digit_mul-lt n (xtime a) (b / 2) (xtime-lt a h))

pick_add_left : (b a c : ℕ) → pick b (bit_xor a c) ≡ bit_xor (pick b a) (pick b c)
pick_add_left b a c = elim (Bool-cases (b % 2 == 1)) [ inl e ↦ rw e | inr e ↦ rw e ]

pub digit_mul_add_left :
    (n a c b : ℕ)
    → a < 256
    → c < 256
    → digit_mul n (bit_xor a c) b ≡ bit_xor (digit_mul n a b) (digit_mul n c b)
unfolding digit_mul
digit_mul_add_left zero a c b p q = refl
digit_mul_add_left (suc n) a c b p q =
    ap₂ bit_xor (pick_add_left b a c) (
      ap (λ x. digit_mul n x (b / 2)) (xtime_add a c p q)
      ∙ digit_mul_add_left n (xtime a) (xtime c) (b / 2) (xtime-lt a p) (xtime-lt c q))
    ∙ xor_swap _ _ _ _

pick_add_right : (a b c : ℕ) → pick (bit_xor b c) a ≡ bit_xor (pick b a) (pick c a)
pick_add_right a b c = ground (arith, xor-mod b c, xor_self a, xor-zero a, zero-xor a)

pub digit_mul_add_right :
    (n a b c : ℕ) → digit_mul n a (bit_xor b c) ≡ bit_xor (digit_mul n a b) (digit_mul n a c)
unfolding digit_mul
digit_mul_add_right zero a b c = refl
digit_mul_add_right (suc n) a b c =
    ap₂ bit_xor (pick_add_right a b c)
      (ap (digit_mul n (xtime a)) (xor-div b c) ∙ digit_mul_add_right n (xtime a) (b / 2) (c / 2))
    ∙ xor_swap _ _ _ _

xtime-zero : xtime 0 ≡ 0
unfolding xtime
xtime-zero = refl

pick-xtime : (b a : ℕ) → pick b (xtime a) ≡ xtime (pick b a)
pick-xtime b a = elim (Bool-cases (b % 2 == 1)) [ inl e ↦ rw e | inr e ↦ rw e (sym xtime-zero) ]

pub digit_mul-xtime : (n a b : ℕ) → a < 256 → digit_mul n (xtime a) b ≡ xtime (digit_mul n a b)
unfolding digit_mul
digit_mul-xtime zero a b p = sym xtime-zero
digit_mul-xtime (suc n) a b p =
    ap₂ bit_xor (pick-xtime b a) (digit_mul-xtime n (xtime a) (b / 2) (xtime-lt a p))
    ∙ sym (xtime_add _ _ (pick-lt a b p) (digit_mul-lt n (xtime a) (b / 2) (xtime-lt a p)))
