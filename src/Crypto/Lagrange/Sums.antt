-- ===== src/Crypto/Lagrange/Sums.antt =====
-- Sums over the points, weighted by the inverse products of differences (divided differences).
use mathlib.Core.Path.{fun_ext}
use mathlib.Core.Logic.{ite, if_pos, if_neg}
use brine_vault.Base.{◌≡◌, refl, sym, ap, ap₂, ◌∙◌, ◌≢◌, List, [], ◌∷◌, All}
use brine_vault.Crypto.Lagrange.Field.{CharTwoField}
use brine_vault.Crypto.Lagrange.Field

pub All-map {ℓ κ ι} :
    {A : Type ℓ} {P : A → Type κ} {Q : A → Type ι} (xs : List A)
    → ((x : A) → P x → Q x)
    → All P xs
    → All Q xs
All-map [] f h = tt
All-map (x ∷ xs) f h = (f x h.0, All-map xs f h.1)

pub All-map₂ {ℓ κ ι μ} :
    {A : Type ℓ} {P : A → Type κ} {Q : A → Type ι} {R : A → Type μ} (xs : List A)
    → ((x : A) → P x → Q x → R x)
    → All P xs
    → All Q xs
    → All R xs
All-map₂ [] f h k = tt
All-map₂ (x ∷ xs) f h k = (f x h.0 k.0, All-map₂ xs f h.1 k.1)

-- `a` is none of the points; no two points are equal.
abbrev pub Fresh {ℓ} : {A : Type ℓ} → A → List A → Type ℓ
Fresh a xs = All (λ o. o ≢ a) xs

abbrev pub Distinct {ℓ} : {A : Type ℓ} → List A → Type ℓ
Distinct [] = Unit
Distinct (x ∷ xs) = Fresh x xs × Distinct xs

module _ {A : Type 0} (F : CharTwoField A) where
  infixl 65 ◌⊕◌
  infixl 70 ◌⊗◌
  open F use {
    ◌⊕◌, ◌⊗◌, null, one, inv, eq?, add_assoc, add_comm, add-null, add-self, mul_assoc, mul_comm,
    mul-one, mul-null, distrib, mul-inv, one-ne-null,
  }

  unfoldable pub sum : List A → (A → A) → A
  sum [] f = null
  sum (x ∷ xs) f = f x ⊕ sum xs f

  -- The difference of two points, and one in place of the difference of a point from itself.
  abbrev pub gap : A → A → A
  gap x o = ite (eq? x o) one (x ⊕ o)

  unfoldable pub den : List A → A → A
  den [] x = one
  den (o ∷ os) x = gap x o ⊗ den os x

  -- The product of the other points.
  unfoldable pub num : List A → A → A
  num [] x = one
  num (o ∷ os) x = ite (eq? x o) one o ⊗ num os x

  abbrev pub divided : List A → (A → A) → A
  divided xs f = sum xs (λ x. f x ⊗ inv (den xs x))

  unfoldable pub eval : List A → A → A
  eval [] x = null
  eval (c ∷ cs) x = eval cs x ⊗ x ⊕ c

  pub sum-congr : (xs : List A) (f g : A → A) → All (λ x. f x ≡ g x) xs → sum xs f ≡ sum xs g
  unfolding sum
  sum-congr [] f g h = refl
  sum-congr (x ∷ xs) f g h = ap₂ ◌⊕◌ h.0 (sum-congr xs f g h.1)

  pub sum-ext : (xs : List A) (f g : A → A) → ((x : A) → f x ≡ g x) → sum xs f ≡ sum xs g
  sum-ext xs f g h = ap (sum xs) (fun_ext h)

  pub sum_add : (xs : List A) (f g : A → A) → sum xs (λ x. f x ⊕ g x) ≡ sum xs f ⊕ sum xs g
  unfolding sum
  sum_add [] f g = sym (add-null null)
  sum_add (x ∷ xs) f g =
      ap (◌⊕◌ (f x ⊕ g x)) (sum_add xs f g) ∙ Field.add_swap F (f x) (g x) (sum xs f) (sum xs g)

  pub sum_scale : (xs : List A) (c : A) (f : A → A) → sum xs (λ x. c ⊗ f x) ≡ c ⊗ sum xs f
  unfolding sum
  sum_scale [] c f = sym (mul-null c)
  sum_scale (x ∷ xs) c f = ap (◌⊕◌ (c ⊗ f x)) (sum_scale xs c f) ∙ sym (distrib c (f x) (sum xs f))

  pub gap-ne-null : (x o : A) → gap x o ≢ null
  gap-ne-null x o = elim (eq? x o) [
    | yes p ↦ rw (if_pos _ p) one-ne-null
    | no p ↦ rw (if_neg _ p) (Field.add-ne-null F x o p)
  ]

  pub den-ne-null : (xs : List A) (x : A) → den xs x ≢ null
  unfolding den
  den-ne-null [] x = one-ne-null
  den-ne-null (o ∷ os) x = Field.mul-ne-null F _ _ (gap-ne-null x o) (den-ne-null os x)

  pub divided_add :
      (xs : List A) (f g : A → A) → divided xs (λ x. f x ⊕ g x) ≡ divided xs f ⊕ divided xs g
  divided_add xs f g =
      sum-ext xs _ _ (λ x. Field.distrib_right F (f x) (g x) (inv (den xs x))) ∙ sum_add xs _ _

  pub divided_scale :
      (xs : List A) (c : A) (f : A → A) → divided xs (λ x. c ⊗ f x) ≡ c ⊗ divided xs f
  divided_scale xs c f = sum-ext xs _ _ (λ x. mul_assoc c (f x) (inv (den xs x))) ∙ sum_scale xs c _

  pub divided-ext :
      (xs : List A) (f g : A → A) → ((x : A) → f x ≡ g x) → divided xs f ≡ divided xs g
  divided-ext xs f g h = ap (divided xs) (fun_ext h)

  den-cons : (xs : List A) (a x : A) → x ≢ a → den (a ∷ xs) x ≡ (x ⊕ a) ⊗ den xs x
  unfolding den
  den-cons xs a x p = ap (λ g. g ⊗ den xs x) (if_neg (eq? x a) p one (x ⊕ a))

  drop_term :
      (xs : List A) (a x : A) (f : A → A)
      → x ≢ a
      → (x ⊕ a) ⊗ f x ⊗ inv (den (a ∷ xs) x) ≡ f x ⊗ inv (den xs x)
  drop_term xs a x f p =
      let u = x ⊕ a in
      let d = den xs x in
      cc (
        den-cons xs a x p,
        mul_comm u (f x),
        mul_assoc (f x) u (inv (u ⊗ d)),
        Field.mul-inv-mul F u d (Field.add-ne-null F x a p) (den-ne-null xs x),
      )

  -- The factor that vanishes at a point takes the point away.
  pub divided_drop :
      (xs : List A) (a : A) (f : A → A)
      → Fresh a xs
      → divided (a ∷ xs) (λ x. (x ⊕ a) ⊗ f x) ≡ divided xs f
  unfolding sum
  divided_drop xs a f fresh =
      ap₂ ◌⊕◌ (cc (add-self a, Field.null-mul F (f a), Field.null-mul F (inv (den (a ∷ xs) a))))
        (sum-congr xs _ _ (All-map xs (λ x p. drop_term xs a x f p) fresh))
      ∙ Field.null-add F (divided xs f)

  den_swap : (xs : List A) (a b x : A) → den (a ∷ b ∷ xs) x ≡ den (b ∷ a ∷ xs) x
  unfolding den
  den_swap xs a b x = Field.mul_left_comm F (gap x a) (gap x b) (den xs x)

  pub divided_swap :
      (xs : List A) (a b : A) (f : A → A) → divided (a ∷ b ∷ xs) f ≡ divided (b ∷ a ∷ xs) f
  unfolding sum
  divided_swap xs a b f =
      sum-ext (a ∷ b ∷ xs) _ _ (λ x. ap (λ d. f x ⊗ inv d) (den_swap xs a b x))
      ∙ Field.add_left_comm F _ _ _
