-- ===== src/Db/Lookup.antt =====
-- Lookups after updates and insertions: the statements of packages/db/src/repositories.
use brine_vault.Base.{
  Option, none, some, List, [], ◌∷◌, Bool, true, false, ◌||◌, ◌≡◌, refl, sym, ap, ap₂, ◌∙◌, All,
  Bool-cases, inl, inr, arith, if◌then◌else◌, if-elim,
}
use brine_vault.Db.Tables.{any_row, find_row, update_rows, set_where, insert_new}

module _ {A : Type 0} where
  abbrev pub map_row : (A → A) → Option A → Option A
  map_row f none = none
  map_row f (some r) = some (f r)

  pub any_row-none : (p : A → Bool) (rs : List A) → any_row p rs ≡ false → All (λ x. p x ≡ false) rs
  unfolding any_row
  any_row-none p [] h = tt
  any_row-none p (r ∷ rs) h = elim (Bool-cases (p r)) [
    | inl e ↦ absurd (ground (arith, h))
    | inr e ↦ (e, any_row-none p rs (sym (ap (λ b. b || any_row p rs) e) ∙ h))
  ]

  -- An update that keeps its own condition shows in the next lookup.
  pub find_row-update_rows :
      (p : A → Bool) (f : A → A)
      → ((r : A) → p (f r) ≡ p r)
      → (rs : List A) → find_row p (update_rows p f rs) ≡ map_row f (find_row p rs)
  unfolding find_row update_rows
  find_row-update_rows p f k [] = refl
  find_row-update_rows p f k (r ∷ rs) = go (find_row-update_rows p f k rs) (p r) refl
    where
      go :
          find_row p (update_rows p f rs) ≡ map_row f (find_row p rs)
          → (b : Bool) → p r ≡ b
          → find_row p (update_rows p f (r ∷ rs)) ≡ map_row f (if b then some r else find_row p rs)
      go rest true e =
          ap
            (λ c.
              if p (if c then f r else r)
              then some (if c then f r else r)
              else find_row p (update_rows p f rs))
            e
          ∙ ap (λ c. if c then some (f r) else find_row p (update_rows p f rs)) (k r ∙ e)
      go rest false e =
          ap
            (λ c.
              if p (if c then f r else r)
              then some (if c then f r else r)
              else find_row p (update_rows p f rs))
            e
          ∙ ap (λ c. if c then some r else find_row p (update_rows p f rs)) e
          ∙ rest

  -- An update that keeps another condition, seen by a lookup with that condition.
  pub find_row-update_where :
      (p q : A → Bool) (f : A → A)
      → ((r : A) → p (f r) ≡ p r)
      → (rs : List A) → find_row p (update_rows q f rs) ≡ map_row (set_where q f) (find_row p rs)
  unfolding find_row update_rows
  find_row-update_where p q f k [] = refl
  find_row-update_where p q f k (r ∷ rs) =
      let kept : p (set_where q f r) ≡ p r =
        if-elim (λ x. p x ≡ p r) (q r) (f r) r (λ e. k r) (λ e. refl) in
      ap₂ (λ b rest. if b then some (set_where q f r) else rest) kept
        (find_row-update_where p q f k rs)
      ∙ pushed (p r)
    where
      pushed :
          (b : Bool)
          → (if b then some (set_where q f r) else map_row (set_where q f) (find_row p rs))
            ≡ map_row (set_where q f) (if b then some r else find_row p rs)
      pushed true = refl
      pushed false = refl

  any_row-insert_new :
      (same : A → A → Bool) (r : A) (rs : List A)
      → same r r ≡ true
      → any_row (same r) (insert_new same r rs) ≡ true
  unfolding any_row insert_new
  any_row-insert_new same r rs h =
      if-elim (λ t. any_row (same r) t ≡ true) (any_row (same r) rs) rs (r ∷ rs) (λ e. e)
        (λ e. ap (λ b. b || any_row (same r) rs) h)

  pub insert_new-twice :
      (same : A → A → Bool) (r : A) (rs : List A)
      → same r r ≡ true
      → insert_new same r (insert_new same r rs) ≡ insert_new same r rs
  unfolding insert_new
  insert_new-twice same r rs h =
      ap (λ b. if b then insert_new same r rs else r ∷ insert_new same r rs)
        (any_row-insert_new same r rs h)
