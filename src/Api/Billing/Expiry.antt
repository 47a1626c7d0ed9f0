-- ===== src/Api/Billing/Expiry.antt =====
-- What the subscription monitor leaves behind: apps/api/src/workers/subscription-monitor.service.ts.
use brine_vault.Base.{
  ℕ, ◌==◌, ==_self, ==_iff, not, ◌&&◌, List, [], ◌∷◌, Bool, true, false, ◌||◌, ◌≡◌, refl, sym, ap,
  ◌∙◌, All, if◌then◌else◌, if-elim, arith, Bool-cases, inl, inr,
}
use brine_vault.Db.Tables.{any_row, rows_where, update_rows, set_where}
use brine_vault.Api.Billing.{
  SubscriptionRow, BillingStore, Notice, Outage, is_expiring, is_grace_expired, to_grace,
  to_suspended, update_each, check_expiring, check_grace_period_expired, handle_cron,
}

-- A row that meets the test has its id among the rows found.
abbrev pub Found : (SubscriptionRow → Bool) → List SubscriptionRow → SubscriptionRow → Type 0
Found p found r = p r ≡ true → any_row (λ x. r.id == x.id) found ≡ true

All-map_rows :
    (P Q : SubscriptionRow → Type 0) (p : SubscriptionRow → Bool)
    (f : SubscriptionRow → SubscriptionRow)
    → ((r : SubscriptionRow) → P r → Q (set_where p f r))
    → (rs : List SubscriptionRow) → All P rs
    → All Q (update_rows p f rs)
unfolding update_rows
All-map_rows P Q p f h [] a = tt
All-map_rows P Q p f h (r ∷ rs) (a, rest_a) = (h r a, All-map_rows P Q p f h rs rest_a)

All-imp :
    {P Q : SubscriptionRow → Type 0}
    → ((r : SubscriptionRow) → P r → Q r)
    → (rs : List SubscriptionRow) → All P rs
    → All Q rs
All-imp h [] a = tt
All-imp h (r ∷ rs) (a, rest_a) = (h r a, All-imp h rs rest_a)

rows_where-Found :
    (p : SubscriptionRow → Bool) (rs : List SubscriptionRow) → All (Found p (rows_where p rs)) rs
unfolding rows_where any_row
rows_where-Found p [] = tt
rows_where-Found p (r ∷ rs) = (
  λ h.
      ap (λ b. any_row (λ x. r.id == x.id) (if b then r ∷ rows_where p rs else rows_where p rs)) h
      ∙ ap (λ b. b || any_row (λ x. r.id == x.id) (rows_where p rs)) (==_self r.id),
  All-imp
      (λ x found h.
        if-elim (λ xs. any_row (λ y. x.id == y.id) xs ≡ true) (p r) (r ∷ rows_where p rs)
          (rows_where p rs) (λ e. ap (λ b. (x.id == r.id) || b) (found h) ∙ or-true (x.id == r.id))
          (λ e. found h))
      rs (rows_where-Found p rs),
)
  where
    or-true : (b : Bool) → (b || true) ≡ true
    or-true true = refl
    or-true false = refl

-- Past its time, and not one of those whose update throws.
abbrev pub is_unsettled : (SubscriptionRow → Bool) → (ℕ → Bool) → SubscriptionRow → Bool
is_unsettled p stuck r = p r && not (stuck r.id)

skipped :
    (p : SubscriptionRow → Bool) (stuck : ℕ → Bool) (sub : SubscriptionRow)
    (subs : List SubscriptionRow) (r : SubscriptionRow)
    → stuck sub.id ≡ true
    → Found (is_unsettled p stuck) (sub ∷ subs) r
    → Found (is_unsettled p stuck) subs r
unfolding any_row
skipped p stuck sub subs r e found h = elim (Bool-cases (r.id == sub.id)) [
  | inl same ↦
      let equal : stuck r.id ≡ true = ap stuck ((==_iff r.id sub.id).0 same) ∙ e in
      absurd (ground (arith, h, equal))
  | inr differ ↦ sym (ap (λ b. b || any_row (λ x. r.id == x.id) subs) differ) ∙ found h
]

updated :
    (p : SubscriptionRow → Bool) (stuck : ℕ → Bool) (change : SubscriptionRow → SubscriptionRow)
    (sub : SubscriptionRow) (subs : List SubscriptionRow) (r : SubscriptionRow)
    → p (change r) ≡ false
    → Found (is_unsettled p stuck) (sub ∷ subs) r
    → Found (is_unsettled p stuck) subs (set_where (λ x. x.id == sub.id) change r)
unfolding any_row
updated p stuck change sub subs r k found =
    if-elim (Found (is_unsettled p stuck) subs) (r.id == sub.id) (change r) r
      (λ e h. absurd (ground (arith, k, h)))
      (λ e h. sym (ap (λ b. b || any_row (λ x. r.id == x.id) subs) e) ∙ found h)

update_each-none :
    (p : SubscriptionRow → Bool) (stuck : ℕ → Bool) (change : SubscriptionRow → SubscriptionRow)
    (notice : ℕ → Notice)
    → ((r : SubscriptionRow) → p (change r) ≡ false)
    → (subs : List SubscriptionRow) (s : BillingStore)
    → All (Found (is_unsettled p stuck) subs) s.subscriptions
    → All
        (λ r. is_unsettled p stuck r ≡ false)
        (update_each stuck change notice subs s).subscriptions
unfolding update_each any_row
update_each-none p stuck change notice k [] s a =
    All-imp
      (λ r found. elim (Bool-cases (is_unsettled p stuck r)) [
        | inl e ↦ absurd (ground (arith, found e))
        | inr e ↦ e
      ])
      s.subscriptions a
update_each-none p stuck change notice k (sub ∷ subs) s a =
    update_each-none p stuck change notice k subs _ (
      if-elim (λ (t : BillingStore). All (Found (is_unsettled p stuck) subs) t.subscriptions)
        (stuck sub.id) s _ (λ e. All-imp (λ r. skipped p stuck sub subs r e) s.subscriptions a)
        (λ e.
          All-map_rows (Found (is_unsettled p stuck) (sub ∷ subs))
            (Found (is_unsettled p stuck) subs) (λ r. r.id == sub.id) change
            (λ r. updated p stuck change sub subs r (k r)) s.subscriptions a))

update_each-keeps :
    {P : SubscriptionRow → Type 0} (stuck : ℕ → Bool) (change : SubscriptionRow → SubscriptionRow)
    (notice : ℕ → Notice)
    → ((r : SubscriptionRow) → P r → P (change r))
    → (subs : List SubscriptionRow) (s : BillingStore) → All P s.subscriptions
    → All P (update_each stuck change notice subs s).subscriptions
unfolding update_each
update_each-keeps stuck change notice k [] s a = a
update_each-keeps {P} stuck change notice k (sub ∷ subs) s a =
    update_each-keeps {P = P} stuck change notice k subs _ (
      if-elim (λ (t : BillingStore). All P t.subscriptions) (stuck sub.id) s _ (λ e. a)
        (λ e.
          All-map_rows P P (λ r. r.id == sub.id) change
            (λ r h. if-elim P (r.id == sub.id) (change r) r (λ e2. k r h) (λ e2. h)) s.subscriptions
            a))

read_rows_lem :
    (p : SubscriptionRow → Bool) (stuck : ℕ → Bool) (rs : List SubscriptionRow)
    → All (Found (is_unsettled p stuck) (rows_where p rs)) rs
read_rows_lem p stuck rs =
    All-imp (λ r found h. found (ground (arith, h))) rs (rows_where-Found p rs)

-- After a run of the monitor whose two queries succeed, every subscription that is still overdue is
-- one whose update threw: none other is active or on trial with its period ended by the time of the
-- first check, and none other is in a grace period that had ended by the time of the second.
pub handle_cron-settles :
    (add_months add_days : ℕ → ℕ → ℕ) (outage : Outage) (now later : ℕ) (s : BillingStore)
    → outage.expiring_unread ≡ false
    → outage.grace_unread ≡ false
    → let rows = (handle_cron add_months add_days outage now later s).subscriptions in
      All (λ r. (is_expiring now r && not (outage.expiring_stuck r.id)) ≡ false) rows
      × All (λ r. (is_grace_expired later r && not (outage.grace_stuck r.id)) ≡ false) rows
unfolding handle_cron check_expiring check_grace_period_expired
handle_cron-settles add_months add_days outage now later s first second = rw first (
    rw second (
      update_each-keeps {P = λ r. is_unsettled (is_expiring now) outage.expiring_stuck r ≡ false}
          outage.grace_stuck to_suspended _ (λ r h. refl) _ _
          (update_each-none (is_expiring now) outage.expiring_stuck (to_grace (add_days now 14)) _
            (λ r. refl) _ s
            (read_rows_lem (is_expiring now) outage.expiring_stuck s.subscriptions)),
      update_each-none (is_grace_expired later) outage.grace_stuck to_suspended _ (λ r. refl) _ _
          (read_rows_lem (is_grace_expired later) outage.grace_stuck _),
    ))
