-- ===== src/Crypto/Lagrange/AtZero.antt =====
-- Lagrange interpolation at zero: the weighted sum of the values of a polynomial at enough distinct
-- points is its constant coefficient.
use mathlib.Core.Logic.{if_pos, if_neg}
use brine_vault.Base.{◌<◌, ◌≡◌, refl, sym, ap, ap₂, ◌∙◌, ◌≢◌, List, [], ◌∷◌, All, length, arith}
use brine_vault.Crypto.Lagrange.Field.{CharTwoField}
use brine_vault.Crypto.Lagrange.Field
use brine_vault.Crypto.Lagrange.Sums.{Fresh, Distinct, All-map, All-map₂}
use brine_vault.Crypto.Lagrange.Sums

module _ {A : Type 0} (F : CharTwoField A) where
  infixl 65 ◌⊕◌
  infixl 70 ◌⊗◌
  open F use {
    ◌⊕◌, ◌⊗◌, null, one, inv, eq?, add_assoc, add_comm, add-null, add-self, mul_assoc, mul_comm,
    mul-one, mul-null, distrib, mul-inv, one-ne-null,
  }

  abbrev divided : List A → (A → A) → A
  divided = Sums.divided F

  step_one :
      (zs : List A) (a b : A)
      → Distinct (a ∷ b ∷ zs)
      → divided (b ∷ zs) (λ x. one) ⊕ divided (a ∷ zs) (λ x. one) ≡ null
      → divided (a ∷ b ∷ zs) (λ x. one) ≡ null
  step_one zs a b d rest =
      Field.eq_null_of_mul F (a ⊕ b) _ (Field.add-ne-null F a b (λ e. d.0.0 (sym e))) (
        sym (Sums.divided_scale F (a ∷ b ∷ zs) (a ⊕ b) (λ x. one))
        ∙ Sums.divided-ext F (a ∷ b ∷ zs) _ _ split
        ∙ Sums.divided_add F (a ∷ b ∷ zs) _ _
        ∙ ap₂ ◌⊕◌ (Sums.divided_drop F (b ∷ zs) a (λ x. one) d.0) (
            Sums.divided_swap F zs a b _
            ∙ Sums.divided_drop F (a ∷ zs) b (λ x. one) ((λ e. d.0.0 (sym e)), d.1.0))
        ∙ rest)
    where
      split : (x : A) → (a ⊕ b) ⊗ one ≡ (x ⊕ a) ⊗ one ⊕ (x ⊕ b) ⊗ one
      split x = cc (
        Field.distrib_right F (x ⊕ a) (x ⊕ b) one,
        Field.add_swap F x a x b,
        add-self x,
        Field.null-add F (a ⊕ b),
      )

  single : (a : A) → divided (a ∷ []) (λ x. one) ≡ one ⊗ inv (one ⊗ one) ⊕ null
  single a =
      unfold Sums.sum Sums.den in
      ap (λ g. one ⊗ inv (g ⊗ one) ⊕ null) (if_pos (eq? a a) refl one (a ⊕ a))

  -- The divided difference of a constant over two points or more.
  divided-one :
      (zs : List A) (a b : A) → Distinct (a ∷ b ∷ zs) → divided (a ∷ b ∷ zs) (λ x. one) ≡ null
  divided-one [] a b d = step_one [] a b d (ap₂ ◌⊕◌ (single b) (single a) ∙ add-self _)
  divided-one (c ∷ zs) a b d =
      step_one (c ∷ zs) a b d
        (ap₂ ◌⊕◌ (divided-one zs b c d.1) (divided-one zs a c (d.0.1, d.1.1)) ∙ add-self null)

  divided-const :
      (zs : List A) (a b c : A) → Distinct (a ∷ b ∷ zs) → divided (a ∷ b ∷ zs) (λ x. c) ≡ null
  divided-const zs a b c d =
      Sums.divided-ext F (a ∷ b ∷ zs) _ _ (λ x. sym (mul-one c))
      ∙ Sums.divided_scale F (a ∷ b ∷ zs) c (λ x. one)
      ∙ ap (◌⊗◌ c) (divided-one zs a b d)
      ∙ mul-null c

  divided-null : (xs : List A) → divided xs (λ x. null) ≡ null
  divided-null xs =
      Sums.divided-ext F xs _ _ (λ x. sym (mul-null null))
      ∙ Sums.divided_scale F xs null (λ x. null)
      ∙ Field.null-mul F _

  -- A polynomial with fewer coefficients than points has divided difference zero.
  divided-eval :
      (cs xs : List A) → length cs < length xs → Distinct xs → divided xs (Sums.eval F cs) ≡ null
  divided-eval [] xs h d = unfold Sums.eval in divided-null xs
  divided-eval (c ∷ cs) [] h d = absurd (omega arith)
  divided-eval (c ∷ cs) (a ∷ []) h d = absurd (omega arith)
  divided-eval (c ∷ cs) (a ∷ b ∷ zs) h d =
      Sums.divided-ext F (a ∷ b ∷ zs) _ _ split
      ∙ Sums.divided_add F (a ∷ b ∷ zs) _ _
      ∙ ap₂ ◌⊕◌ (Sums.divided_drop F (b ∷ zs) a q d.0 ∙ divided-eval cs (b ∷ zs) (omega arith) d.1)
          (Sums.divided_add F (a ∷ b ∷ zs) _ _
            ∙ ap₂ ◌⊕◌
                (Sums.divided_scale F (a ∷ b ∷ zs) a q
                  ∙ ap (◌⊗◌ a) (divided-eval cs (a ∷ b ∷ zs) (omega arith) d)
                  ∙ mul-null a)
                (divided-const zs a b c d)
            ∙ add-self null)
      ∙ add-self null
    where
      q : A → A
      q = Sums.eval F cs

      split : (x : A) → Sums.eval F (c ∷ cs) x ≡ (x ⊕ a) ⊗ q x ⊕ (a ⊗ q x ⊕ c)
      split x =
          unfold Sums.eval in
          cc (
            Field.distrib_right F x a (q x),
            add_assoc (x ⊗ q x) (a ⊗ q x) (a ⊗ q x ⊕ c),
            Field.add_cancel F (a ⊗ q x) c,
            mul_comm x (q x),
          )

  product : List A → A
  product [] = one
  product (x ∷ xs) = x ⊗ product xs

  num-Fresh : (xs : List A) (a : A) → Fresh a xs → Sums.num F xs a ≡ product xs
  unfolding Sums.num product
  num-Fresh [] a h = refl
  num-Fresh (x ∷ xs) a h = ap₂ ◌⊗◌ (if_neg (eq? a x) (λ e. h.0 (sym e)) one x) (num-Fresh xs a h.1)

  num-head : (xs : List A) (a : A) → Fresh a xs → Sums.num F (a ∷ xs) a ≡ product xs
  unfolding Sums.num
  num-head xs a h =
      ap₂ ◌⊗◌ (if_pos (eq? a a) refl one a) (num-Fresh xs a h) ∙ Field.one-mul F (product xs)

  num-tail : (xs : List A) (a x : A) → x ≢ a → Sums.num F (a ∷ xs) x ≡ a ⊗ Sums.num F xs x
  unfolding Sums.num
  num-tail xs a x h = ap (λ g. g ⊗ Sums.num F xs x) (if_neg (eq? x a) h one a)

  den-tail : (xs : List A) (a x : A) → x ≢ a → Sums.den F (a ∷ xs) x ≡ (x ⊕ a) ⊗ Sums.den F xs x
  unfolding Sums.den
  den-tail xs a x h = ap (λ g. g ⊗ Sums.den F xs x) (if_neg (eq? x a) h one (x ⊕ a))

  -- A point times the product of the others is the product of all.
  point-num : (xs : List A) → Distinct xs → All (λ x. x ⊗ Sums.num F xs x ≡ product xs) xs
  unfolding product
  point-num [] d = tt
  point-num (a ∷ xs) d = (
    ap (◌⊗◌ a) (num-head xs a d.0),
    All-map₂ xs
        (λ x p e. ap (◌⊗◌ x) (num-tail xs a x p) ∙ Field.mul_left_comm F x a _ ∙ ap (◌⊗◌ a) e) d.0
        (point-num xs d.1),
  )

  unfoldable pub weight : List A → A → A
  weight xs x = Sums.num F xs x ⊗ inv (Sums.den F xs x)

  weight-tail :
      (xs : List A) (a x : A)
      → x ≢ a
      → x ⊗ Sums.num F xs x ≡ product xs
      → weight (a ∷ xs) x ≡ weight xs x ⊕ product xs ⊗ (one ⊗ inv (Sums.den F (a ∷ xs) x))
  unfolding weight
  weight-tail xs a x p e =
      let n = Sums.num F xs x in
      let d = Sums.den F xs x in
      let u = x ⊕ a in
      let i = inv (u ⊗ d) in
      let whole : n ⊗ inv d ≡ x ⊗ n ⊗ i ⊕ a ⊗ n ⊗ i = cc (
        Field.mul-inv-mul F u d (Field.add-ne-null F x a p) (Sums.den-ne-null F xs x),
        mul_assoc n u i,
        mul_comm n u,
        Field.distrib_right F x a n,
        Field.distrib_right F (x ⊗ n) (a ⊗ n) i,
      ) in
      cc (
        num-tail xs a x p,
        den-tail xs a x p,
        whole,
        Field.one-mul F i,
        add_comm (x ⊗ n ⊗ i) (a ⊗ n ⊗ i),
        add_assoc (a ⊗ n ⊗ i) (x ⊗ n ⊗ i) (x ⊗ n ⊗ i),
        add-self (x ⊗ n ⊗ i),
        add-null (a ⊗ n ⊗ i),
      )

  den-head : (xs : List A) (a : A) → Sums.den F (a ∷ xs) a ≡ one ⊗ Sums.den F xs a
  unfolding Sums.den
  den-head xs a = ap (λ g. g ⊗ Sums.den F xs a) (if_pos (eq? a a) refl one (a ⊕ a))

  weight-single : (a : A) → weight (a ∷ []) a ≡ one
  unfolding weight Sums.den product
  weight-single a = cc (num-head [] a tt, den-head [] a, mul-one one, mul-inv one one-ne-null)

  -- The weights of distinct points add up to one.
  sum-weight :
      (zs : List A) (a : A) → Distinct (a ∷ zs) → Sums.sum F (a ∷ zs) (weight (a ∷ zs)) ≡ one
  unfolding Sums.sum
  sum-weight [] a d = add-null _ ∙ weight-single a
  sum-weight (b ∷ zs) a d =
      ap₂ ◌⊕◌ head (
        Sums.sum-congr F xs _ _
          (All-map₂ xs (λ x p e. weight-tail xs a x p e) d.0 (point-num xs d.1))
        ∙ Sums.sum_add F xs _ _
        ∙ ap₂ ◌⊕◌ (sum-weight zs b d.1) (Sums.sum_scale F xs (product xs) _ ∙ tail))
      ∙ Field.add_left_comm F t one t
      ∙ ap (◌⊕◌ one) (add-self t)
      ∙ add-null one
    where
      xs : List A
      xs = b ∷ zs

      i : A
      i = inv (Sums.den F (a ∷ b ∷ zs) a)

      t : A
      t = product (b ∷ zs) ⊗ i

      head : weight (a ∷ b ∷ zs) a ≡ t
      head = unfold weight in ap (λ n. n ⊗ i) (num-head (b ∷ zs) a d.0)

      tail : product (b ∷ zs) ⊗ Sums.sum F (b ∷ zs) (λ x. one ⊗ inv (Sums.den F (a ∷ b ∷ zs) x)) ≡ t
      tail = ap (◌⊗◌ (product (b ∷ zs))) (
          sym (
            Field.eq_of_add_null F (one ⊗ i)
              (Sums.sum F (b ∷ zs) (λ x. one ⊗ inv (Sums.den F (a ∷ b ∷ zs) x)))
              (divided-one zs a b d))
          ∙ Field.one-mul F i)

  value-split :
      (xs cs : List A) (c x : A)
      → x ⊗ Sums.num F xs x ≡ product xs
      → Sums.eval F (c ∷ cs) x ⊗ weight xs x
        ≡ product xs ⊗ (Sums.eval F cs x ⊗ inv (Sums.den F xs x)) ⊕ c ⊗ weight xs x
  unfolding weight Sums.eval
  value-split xs cs c x e =
      let q = Sums.eval F cs x in
      let n = Sums.num F xs x in
      let i = inv (Sums.den F xs x) in
      cc (
        Field.distrib_right F (q ⊗ x) c (n ⊗ i),
        mul_assoc q x (n ⊗ i),
        mul_assoc x n i,
        Field.mul_left_comm F q (product xs) i,
      )

  -- The constant coefficient is recovered from the values at as many distinct points as there are
  -- coefficients, or more.
  pub at_zero :
      (xs cs : List A) (c : A)
      → length cs < length xs
      → Distinct xs
      → Sums.sum F xs (λ x. Sums.eval F (c ∷ cs) x ⊗ weight xs x) ≡ c
  at_zero [] cs c h d = absurd (omega arith)
  at_zero (a ∷ zs) cs c h d =
      Sums.sum-congr F (a ∷ zs) _ _
        (All-map (a ∷ zs) (λ x e. value-split (a ∷ zs) cs c x e) (point-num (a ∷ zs) d))
      ∙ Sums.sum_add F (a ∷ zs) _ _
      ∙ ap₂ ◌⊕◌
          (Sums.sum_scale F (a ∷ zs) (product (a ∷ zs)) _
            ∙ ap (◌⊗◌ (product (a ∷ zs))) (divided-eval cs (a ∷ zs) h d)
            ∙ mul-null _)
          (Sums.sum_scale F (a ∷ zs) c _ ∙ ap (◌⊗◌ c) (sum-weight zs a d) ∙ mul-one c)
      ∙ Field.null-add F c
