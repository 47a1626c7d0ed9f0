-- ===== src/Api/Billing.antt =====
-- Billing: apps/api/src/modules/billing/billing.service.ts, the subscription monitor
-- apps/api/src/workers/subscription-monitor.service.ts, and the repository
-- packages/db/src/repositories/subscriptions.repository.ts. Dates are numbers; the calendar of
-- JavaScript (setMonth, setDate) is a parameter. The notifications that a worker dispatches are
-- recorded; a failure to dispatch one is caught and changes nothing. What of the database fails in
-- a run of the monitor is a parameter.
pub mod Expiry
pub mod Payment
use brine_vault.Base.{
  ℕ, zero, suc, ◌-◌, ◌*◌, ◌==◌, leb, Option, none, some, List, [], ◌∷◌, ◌++◌, take, drop, Bool,
  true, false, ◌||◌, ◌&&◌, if◌then◌else◌, Result, ok, err,
}
use brine_vault.Db.Tables.{find_row, rows_where, update_rows}

pub data SubscriptionStatus : Type 0 where
  trial active expired grace_period suspended : SubscriptionStatus

pub data InvoiceStatus : Type 0 where
  pending paid overdue cancelled : InvoiceStatus

pub record SubscriptionRow : Type 0 where
  pub id : ℕ
  pub org_id : ℕ
  pub plan : ℕ
  pub status : SubscriptionStatus
  pub current_period_start : Option ℕ
  pub current_period_end : Option ℕ
  pub grace_period_end : Option ℕ
  pub amount : ℕ

pub record InvoiceRow : Type 0 where
  pub id : ℕ
  pub org_id : ℕ
  pub subscription_id : ℕ
  pub invoice_amount : ℕ
  pub invoice_status : InvoiceStatus
  pub due_at : ℕ
  pub paid_at : Option ℕ

pub data Notice : Type 0 where
  subscription_expiring : ℕ → Notice
  subscription_expired : ℕ → Notice

pub record BillingStore : Type 0 where
  pub subscriptions : List SubscriptionRow
  pub invoices : List InvoiceRow
  pub next_id : ℕ
  pub notices : List Notice

pub data BillingError : Type 0 where
  not_in_org subscription_not_found invoice_not_found invoice_not_payable : BillingError

abbrev pub is_current : SubscriptionStatus → Bool
is_current active = true
is_current trial = true
is_current grace_period = false
is_current suspended = false
is_current expired = false

abbrev pub is_grace : SubscriptionStatus → Bool
is_grace grace_period = true
is_grace active = false
is_grace trial = false
is_grace suspended = false
is_grace expired = false

-- `lte(column, date)`, which a null column does not meet.
abbrev pub is_past : Option ℕ → ℕ → Bool
is_past none date = false
is_past (some t) date = leb t date

-- `findExpiring` and `findGracePeriodExpired`.
abbrev pub is_expiring : ℕ → SubscriptionRow → Bool
is_expiring before r = is_current r.status && is_past r.current_period_end before

abbrev pub is_grace_expired : ℕ → SubscriptionRow → Bool
is_grace_expired before r = is_grace r.status && is_past r.grace_period_end before

abbrev pub to_grace : ℕ → SubscriptionRow → SubscriptionRow
to_grace end_ r = record r { status = grace_period; grace_period_end = some end_ }

abbrev pub to_suspended : SubscriptionRow → SubscriptionRow
to_suspended r = record r { status = suspended }

-- The loop over the rows found: one update by id for each, whose rows found stay as they were read.
-- The update of an id in `stuck` throws; it is caught, the row stays and nothing is dispatched.
unfoldable pub update_each :
    (ℕ → Bool)
    → (SubscriptionRow → SubscriptionRow)
    → (ℕ → Notice)
    → List SubscriptionRow
    → BillingStore
    → BillingStore
update_each stuck change notice [] s = s
update_each stuck change notice (sub ∷ subs) s = update_each stuck change notice subs (
    if stuck sub.id then s else record s {
      subscriptions = update_rows (λ r. r.id == sub.id) change s.subscriptions;
      notices = s.notices ++ (notice sub.org_id ∷ []);
    })

-- What of the database fails in a run: a query that throws ends the run, an update that throws is
-- skipped.
pub record Outage : Type 0 where
  pub expiring_unread : Bool
  pub expiring_stuck : ℕ → Bool
  pub grace_unread : Bool
  pub grace_stuck : ℕ → Bool

-- `userOrgId !== orgId`.
abbrev pub is_org : Option ℕ → ℕ → Bool
is_org none org_id = false
is_org (some o) org_id = o == org_id

-- The guards of an invoice: the access, the row, its organisation.
abbrev pub owned_invoice : ℕ → Option InvoiceRow → Result BillingError InvoiceRow
owned_invoice org_id none = err invoice_not_found
owned_invoice org_id (some i) = if i.org_id == org_id then ok i else err not_in_org

unfoldable pub get_invoice : ℕ → ℕ → Option ℕ → BillingStore → Result BillingError InvoiceRow
get_invoice org_id invoice_id user_org s =
    if is_org user_org org_id
    then owned_invoice org_id (find_row (λ i. i.id == invoice_id) s.invoices)
    else err not_in_org

abbrev pub is_settled : InvoiceStatus → Bool
is_settled paid = true
is_settled cancelled = true
is_settled pending = false
is_settled overdue = false

abbrev pub as_paid : ℕ → InvoiceRow → InvoiceRow
as_paid now i = record i { invoice_status = paid; paid_at = some now }

unfoldable pub settle_invoice :
    ℕ
    → ℕ
    → Result BillingError InvoiceRow
    → BillingStore
    → Result BillingError InvoiceRow × BillingStore
settle_invoice now invoice_id (err e) s = (err e, s)
settle_invoice now invoice_id (ok i) s =
    if is_settled i.invoice_status then (err invoice_not_payable, s) else (
      ok (as_paid now i),
      record s { invoices = update_rows (λ r. r.id == invoice_id) (as_paid now) s.invoices },
    )

unfoldable pub pay_invoice :
    ℕ → ℕ → ℕ → Option ℕ → BillingStore → Result BillingError InvoiceRow × BillingStore
pay_invoice now org_id invoice_id user_org s =
    settle_invoice now invoice_id (get_invoice org_id invoice_id user_org s) s

unfoldable pub get_subscription : ℕ → Option ℕ → BillingStore → Result BillingError SubscriptionRow
get_subscription org_id user_org s =
    if is_org user_org org_id
    then elim (find_row (λ r. r.org_id == org_id) s.subscriptions) [
      | none ↦ err subscription_not_found
      | some r ↦ ok r
    ]
    else err not_in_org

unfoldable pub list_invoices :
    ℕ → Option ℕ → ℕ → ℕ → BillingStore → Result BillingError (List InvoiceRow)
list_invoices org_id user_org page limit s =
    if is_org user_org org_id
    then ok
        (take limit (drop ((page - 1) * limit) (rows_where (λ i. i.org_id == org_id) s.invoices)))
    else err not_in_org

module _ (add_months : ℕ → ℕ → ℕ) (add_days : ℕ → ℕ → ℕ) where
  unfoldable pub check_expiring : (ℕ → Bool) → ℕ → BillingStore → BillingStore
  check_expiring stuck now s =
      update_each stuck (to_grace (add_days now 14)) subscription_expiring
        (rows_where (is_expiring now) s.subscriptions) s

  unfoldable pub check_grace_period_expired : (ℕ → Bool) → ℕ → BillingStore → BillingStore
  check_grace_period_expired stuck now s =
      update_each stuck to_suspended subscription_expired
        (rows_where (is_grace_expired now) s.subscriptions) s

  -- The two checks read the clock one after the other.
  unfoldable pub handle_cron : Outage → ℕ → ℕ → BillingStore → BillingStore
  handle_cron outage now later s =
      let checked = check_expiring outage.expiring_stuck now s in
      if outage.expiring_unread
      then s
      else if outage.grace_unread
      then checked
      else check_grace_period_expired outage.grace_stuck later checked

  -- A new subscription, or the one of the organisation renewed.
  unfoldable pub renewed_row : ℕ → ℕ → ℕ → ℕ → ℕ → Option SubscriptionRow → SubscriptionRow
  renewed_row now id org_id plan months none = record {
    id = id;
    org_id = org_id;
    plan = plan;
    status = active;
    current_period_start = some now;
    current_period_end = some (add_months now months);
    grace_period_end = none;
    amount = 0;
  }
  renewed_row now id org_id plan months (some r) = record r {
    plan = plan;
    status = active;
    current_period_start = some now;
    current_period_end = some (add_months now months);
  }

  unfoldable pub put_subscription :
      SubscriptionRow → Option SubscriptionRow → List SubscriptionRow → List SubscriptionRow
  put_subscription row none rows = row ∷ rows
  put_subscription row (some r) rows =
      update_rows (λ x. x.id == r.id)
        (λ x. record x {
          plan = row.plan;
          status = row.status;
          current_period_start = row.current_period_start;
          current_period_end = row.current_period_end;
        })
        rows

  unfoldable pub renew_subscription :
      ℕ
      → ℕ
      → Option ℕ
      → ℕ
      → ℕ
      → BillingStore
      → Result BillingError (SubscriptionRow × InvoiceRow) × BillingStore
  renew_subscription now org_id user_org plan months s =
      let found = find_row (λ r. r.org_id == org_id) s.subscriptions in
      let row = renewed_row now s.next_id org_id plan months found in
      let invoice : InvoiceRow = record {
        id = suc s.next_id;
        org_id = org_id;
        subscription_id = row.id;
        invoice_amount = row.amount;
        invoice_status = pending;
        due_at = add_days now 30;
        paid_at = none;
      } in
      if is_org user_org org_id
      then (
        ok (row, invoice),
        record s {
          subscriptions = put_subscription row found s.subscriptions;
          invoices = invoice ∷ s.invoices;
          next_id = suc (suc s.next_id);
        },
      )
      else (err not_in_org, s)
