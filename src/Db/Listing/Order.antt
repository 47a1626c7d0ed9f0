-- ===== src/Db/Listing/Order.antt =====
-- `orderBy` and pages of a listing: packages/db/src/repositories.
use brine_vault.Base.{
  ℕ, zero, suc, ◌+◌, ◌-◌, ◌*◌, ◌/◌, ◌%◌, ◌<◌, ◌≤◌, List, [], ◌∷◌, length, take, drop, get_elem?,
  Bool, leb, if◌then◌else◌, if-elim, ◌≡◌, refl, ap, ◌∙◌, All, arith,
}
use native.Mathlib.Nat.{mod-lt, div-add-mod'}
use brine_vault.Db.Tables.{rows_where}
use brine_vault.Db.Listing.{insert_by, order_by, limit_offset}

sub_suc : (n : ℕ) → suc n - 1 ≡ n
sub_suc n = omega arith

abbrev pub one_if : Bool → ℕ
one_if b = if b then 1 else 0

module _ {A : Type 0} where
  -- No key is larger than the next.
  abbrev pub IsOrdered : (A → ℕ) → List A → Type 0
  IsOrdered key [] = Unit
  IsOrdered key (r ∷ rows) = All (λ x. key r ≤ key x) rows × IsOrdered key rows

  All-insert_by :
      (key : A → ℕ) (n : ℕ) (r : A) (rows : List A)
      → n ≤ key r
      → All (λ x. n ≤ key x) rows
      → All (λ x. n ≤ key x) (insert_by key r rows)
  unfolding insert_by
  All-insert_by key n r [] h hs = (h, tt)
  All-insert_by key n r (x ∷ rows) h hs =
      if-elim (All (λ y. n ≤ key y)) (leb (key r) (key x)) (r ∷ x ∷ rows) (x ∷ insert_by key r rows)
        (λ e. (h, hs)) (λ e. (hs.0, All-insert_by key n r rows h hs.1))

  All-weaken :
      (key : A → ℕ) (n m : ℕ) (rows : List A)
      → n ≤ m
      → All (λ x. m ≤ key x) rows
      → All (λ x. n ≤ key x) rows
  All-weaken key n m [] h hs = tt
  All-weaken key n m (x ∷ rows) h hs = (omega (arith, hs.0), All-weaken key n m rows h hs.1)

  insert_by-IsOrdered :
      (key : A → ℕ) (r : A) (rows : List A)
      → IsOrdered key rows
      → IsOrdered key (insert_by key r rows)
  unfolding insert_by
  insert_by-IsOrdered key r [] h = (tt, tt)
  insert_by-IsOrdered key r (x ∷ rows) h =
      if-elim (IsOrdered key) (leb (key r) (key x)) (r ∷ x ∷ rows) (x ∷ insert_by key r rows)
        (λ e. ((ground arith, All-weaken key (key r) (key x) rows (ground arith) h.0), h))
        (λ e.
          (All-insert_by key (key x) r rows (ground arith) h.0, insert_by-IsOrdered key r rows h.1))

  pub order_by-IsOrdered : (key : A → ℕ) (rows : List A) → IsOrdered key (order_by key rows)
  unfolding order_by
  order_by-IsOrdered key [] = tt
  order_by-IsOrdered key (r ∷ rows) =
      insert_by-IsOrdered key r (order_by key rows) (order_by-IsOrdered key rows)

  -- How many rows pass a test.
  abbrev pub count_where : (A → Bool) → List A → ℕ
  count_where p rows = length (rows_where p rows)

  pub count_where-cons :
      (p : A → Bool) (r : A) (rows : List A)
      → count_where p (r ∷ rows) ≡ one_if (p r) + count_where p rows
  unfolding rows_where
  count_where-cons p r rows =
      if-elim (λ t. length t ≡ one_if (p r) + count_where p rows) (p r) (r ∷ rows_where p rows)
        (rows_where p rows) (λ e. rw e (omega arith)) (λ e. rw e (omega arith))

  count_where-insert_by :
      (key : A → ℕ) (p : A → Bool) (r : A) (rows : List A)
      → count_where p (insert_by key r rows) ≡ one_if (p r) + count_where p rows
  unfolding insert_by
  count_where-insert_by key p r [] = count_where-cons p r []
  count_where-insert_by key p r (x ∷ rows) =
      if-elim (λ t. count_where p t ≡ one_if (p r) + count_where p (x ∷ rows)) (leb (key r) (key x))
        (r ∷ x ∷ rows) (x ∷ insert_by key r rows) (λ e. count_where-cons p r (x ∷ rows))
        (λ e. omega (
          arith,
          count_where-cons p x (insert_by key r rows),
          count_where-insert_by key p r rows,
          count_where-cons p x rows,
        ))

  pub count_where-order_by :
      (key : A → ℕ) (p : A → Bool) (rows : List A)
      → count_where p (order_by key rows) ≡ count_where p rows
  unfolding order_by
  count_where-order_by key p [] = refl
  count_where-order_by key p (r ∷ rows) = omega (
    arith,
    count_where-insert_by key p r (order_by key rows),
    count_where-order_by key p rows,
    count_where-cons p r rows,
  )

  get_elem?-drop : (n i : ℕ) (rows : List A) → get_elem? (drop n rows) i ≡ get_elem? rows (n + i)
  get_elem?-drop zero i rows = ap (get_elem? rows) (omega arith)
  get_elem?-drop (suc n) i [] = refl
  get_elem?-drop (suc n) i (r ∷ rows) =
      let shift : suc (n + i) ≡ suc n + i = omega arith in
      get_elem?-drop n i rows ∙ ap (get_elem? (r ∷ rows)) shift

  get_elem?-take : (n i : ℕ) (rows : List A) → i < n → get_elem? (take n rows) i ≡ get_elem? rows i
  get_elem?-take zero i rows h = absurd (omega arith)
  get_elem?-take (suc n) i [] h = refl
  get_elem?-take (suc n) zero (r ∷ rows) h = refl
  get_elem?-take (suc n) (suc i) (r ∷ rows) h = get_elem?-take n i rows (omega arith)

  -- Row `i` of a listing is on page `i / limit + 1`, at place `i % limit`.
  pub page-row :
      (limit i : ℕ) (rows : List A)
      → 0 < limit
      → get_elem? (limit_offset limit ((suc (i / limit) - 1) * limit) rows) (i % limit)
        ≡ get_elem? rows i
  page-row limit i rows h =
      get_elem?-take limit (i % limit) (drop ((suc (i / limit) - 1) * limit) rows) (mod-lt i h)
      ∙ get_elem?-drop ((suc (i / limit) - 1) * limit) (i % limit) rows
      ∙ ap (get_elem? rows) (rw (sub_suc (i / limit)) (div-add-mod' i limit))
