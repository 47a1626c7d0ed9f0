-- ===== src/Crypto/Lagrange/Field.antt =====
-- The interface: a field of characteristic two with decidable equality, and its first laws.
use brine_vault.Base.{◌≡◌, ◌∙◌, ◌≢◌}

pub record CharTwoField (A : Type 0) : Type 0 where
  infixl 65 ◌⊕◌
  infixl 70 ◌⊗◌
  pub ◌⊕◌ : A → A → A
  pub ◌⊗◌ : A → A → A
  pub null : A
  pub one : A
  pub inv : A → A
  pub eq? : Discrete A
  pub add_assoc : (a b c : A) → (a ⊕ b) ⊕ c ≡ a ⊕ (b ⊕ c)
  pub add_comm : (a b : A) → a ⊕ b ≡ b ⊕ a
  pub add-null : (a : A) → a ⊕ null ≡ a
  pub add-self : (a : A) → a ⊕ a ≡ null
  pub mul_assoc : (a b c : A) → (a ⊗ b) ⊗ c ≡ a ⊗ (b ⊗ c)
  pub mul_comm : (a b : A) → a ⊗ b ≡ b ⊗ a
  pub mul-one : (a : A) → a ⊗ one ≡ a
  pub mul-null : (a : A) → a ⊗ null ≡ null
  pub distrib : (a b c : A) → a ⊗ (b ⊕ c) ≡ (a ⊗ b) ⊕ (a ⊗ c)
  pub mul-inv : (a : A) → a ≢ null → a ⊗ inv a ≡ one
  pub one-ne-null : one ≢ null

module _ {A : Type 0} (F : CharTwoField A) where
  infixl 65 ◌⊕◌
  infixl 70 ◌⊗◌
  open F use {
    ◌⊕◌, ◌⊗◌, null, one, inv, add_assoc, add_comm, add-null, add-self, mul_assoc, mul_comm, mul-one,
    mul-null, distrib, mul-inv,
  }

  pub null-add : (a : A) → null ⊕ a ≡ a
  null-add a = add_comm null a ∙ add-null a

  pub one-mul : (a : A) → one ⊗ a ≡ a
  one-mul a = mul_comm one a ∙ mul-one a

  pub null-mul : (a : A) → null ⊗ a ≡ null
  null-mul a = mul_comm null a ∙ mul-null a

  pub distrib_right : (a b c : A) → (a ⊕ b) ⊗ c ≡ (a ⊗ c) ⊕ (b ⊗ c)
  distrib_right a b c = cc (mul_comm (a ⊕ b) c, distrib c a b, mul_comm a c, mul_comm b c)

  pub add_left_comm : (a b c : A) → a ⊕ (b ⊕ c) ≡ b ⊕ (a ⊕ c)
  add_left_comm a b c = cc (add_assoc a b c, add_comm a b, add_assoc b a c)

  pub mul_left_comm : (a b c : A) → a ⊗ (b ⊗ c) ≡ b ⊗ (a ⊗ c)
  mul_left_comm a b c = cc (mul_assoc a b c, mul_comm a b, mul_assoc b a c)

  pub add_swap : (a b c d : A) → (a ⊕ b) ⊕ (c ⊕ d) ≡ (a ⊕ c) ⊕ (b ⊕ d)
  add_swap a b c d = cc (add_assoc a b (c ⊕ d), add_left_comm b c d, add_assoc a c (b ⊕ d))

  -- A term that occurs twice cancels.
  pub add_cancel : (a b : A) → a ⊕ (a ⊕ b) ≡ b
  add_cancel a b = cc (add_assoc a a b, add-self a, null-add b)

  pub eq_of_add_null : (a b : A) → a ⊕ b ≡ null → a ≡ b
  eq_of_add_null a b h = cc (add_cancel b a, add_comm b a, add-null b)

  pub add-ne-null : (a b : A) → a ≢ b → a ⊕ b ≢ null
  add-ne-null a b h e = h (eq_of_add_null a b e)

  pub mul-ne-null : (a b : A) → a ≢ null → b ≢ null → a ⊗ b ≢ null
  mul-ne-null a b p q e = p (cc (mul-one a, mul-inv b q, mul_assoc a b (inv b), null-mul (inv b)))

  pub eq_null_of_mul : (a b : A) → a ≢ null → a ⊗ b ≡ null → b ≡ null
  eq_null_of_mul a b p e =
      cc (one-mul b, mul-inv a p, mul_comm a (inv a), mul_assoc (inv a) a b, mul-null (inv a))

  -- A factor of the denominator is cancelled.
  pub mul-inv-mul : (a b : A) → a ≢ null → b ≢ null → a ⊗ inv (a ⊗ b) ≡ inv b
  mul-inv-mul a b p q = cc (
    mul-one (a ⊗ inv (a ⊗ b)),
    mul-inv b q,
    mul_assoc (a ⊗ inv (a ⊗ b)) b (inv b),
    mul_assoc a (inv (a ⊗ b)) b,
    mul_comm (inv (a ⊗ b)) b,
    mul_assoc a b (inv (a ⊗ b)),
    mul-inv (a ⊗ b) (mul-ne-null a b p q),
    one-mul (inv b),
  )
