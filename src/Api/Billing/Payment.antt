-- ===== src/Api/Billing/Payment.antt =====
-- Paying an invoice: payInvoice of apps/api/src/modules/billing/billing.service.ts.
use brine_vault.Base.{
  ℕ, ◌==◌, Option, none, some, Bool, true, false, ◌≡◌, refl, ap, ◌∙◌, if◌then◌else◌, Result, ok,
  err,
}
use brine_vault.Db.Tables.{find_row, update_rows}
use brine_vault.Api.Billing.{
  InvoiceRow, BillingStore, BillingError, invoice_not_payable, not_in_org, is_org, owned_invoice,
  get_invoice, is_settled, as_paid, settle_invoice, pay_invoice,
}
use brine_vault.Db.Lookup.{find_row-update_rows, map_row}

paid_owned :
    (b : Bool) (x i : InvoiceRow) (now : ℕ)
    → (if◌then◌else◌ {A = Result BillingError InvoiceRow} b (ok x) (err not_in_org)) ≡ ok i
    → (if◌then◌else◌ {A = Result BillingError InvoiceRow} b (ok (as_paid now x)) (err not_in_org))
      ≡ ok (as_paid now i)
paid_owned true x i now h = cc
paid_owned false x i now h = cc

paid_found :
    (b : Bool) (o : Option InvoiceRow) (org_id now : ℕ) (i : InvoiceRow)
    → (if b then owned_invoice org_id o else err not_in_org) ≡ ok i
    → (if b then owned_invoice org_id (map_row (as_paid now) o) else err not_in_org)
      ≡ ok (as_paid now i)
paid_found true none org_id now i h = cc
paid_found true (some x) org_id now i h = paid_owned (x.org_id == org_id) x i now h
paid_found false o org_id now i h = cc

abbrev after_payment : ℕ → ℕ → BillingStore → BillingStore
after_payment now invoice_id s = record s {
  invoices = update_rows (λ r. r.id == invoice_id) (as_paid now) s.invoices;
}

get_invoice-after_payment :
    (now org_id invoice_id : ℕ) (user_org : Option ℕ) (s : BillingStore) (i : InvoiceRow)
    → get_invoice org_id invoice_id user_org s ≡ ok i
    → get_invoice org_id invoice_id user_org (after_payment now invoice_id s) ≡ ok (as_paid now i)
unfolding get_invoice
get_invoice-after_payment now org_id invoice_id user_org s i owned =
    ap (λ o. if is_org user_org org_id then owned_invoice org_id o else err not_in_org)
      (find_row-update_rows (λ r. r.id == invoice_id) (as_paid now) (λ r. refl) s.invoices)
    ∙ paid_found (is_org user_org org_id) (find_row (λ r. r.id == invoice_id) s.invoices) org_id now
        i owned

pay_invoice-open :
    (now org_id invoice_id : ℕ) (user_org : Option ℕ) (s : BillingStore) (i : InvoiceRow)
    → get_invoice org_id invoice_id user_org s ≡ ok i
    → is_settled i.invoice_status ≡ false
    → pay_invoice now org_id invoice_id user_org s
      ≡ (ok (as_paid now i), after_payment now invoice_id s)
unfolding pay_invoice settle_invoice
pay_invoice-open now org_id invoice_id user_org s i owned unsettled = rw owned (rw unsettled refl)

pay_invoice-settled :
    (now org_id invoice_id : ℕ) (user_org : Option ℕ) (s : BillingStore) (i : InvoiceRow)
    → get_invoice org_id invoice_id user_org s ≡ ok i
    → is_settled i.invoice_status ≡ true
    → pay_invoice now org_id invoice_id user_org s ≡ (err invoice_not_payable, s)
unfolding pay_invoice settle_invoice
pay_invoice-settled now org_id invoice_id user_org s i owned settled = rw owned (rw settled refl)

-- An invoice that the caller's organisation owns and that is pending or overdue is paid by
-- payInvoice: the row read back is the paid one, and a second payment is refused with
-- INVOICE_NOT_PAYABLE and changes nothing.
pub pay_invoice-once :
    (now later org_id invoice_id : ℕ) (user_org : Option ℕ) (s : BillingStore) (i : InvoiceRow)
    → get_invoice org_id invoice_id user_org s ≡ ok i
    → is_settled i.invoice_status ≡ false
    → let s' = (pay_invoice now org_id invoice_id user_org s).1 in
      ((pay_invoice now org_id invoice_id user_org s).0 ≡ ok (as_paid now i))
      × (get_invoice org_id invoice_id user_org s' ≡ ok (as_paid now i))
      × (pay_invoice later org_id invoice_id user_org s' ≡ (err invoice_not_payable, s'))
pay_invoice-once now later org_id invoice_id user_org s i owned unsettled =
    let first = pay_invoice-open now org_id invoice_id user_org s i owned unsettled in
    let again =
      ap
        (λ (r : Result BillingError InvoiceRow × BillingStore).
          get_invoice org_id invoice_id user_org r.1)
        first
      ∙ get_invoice-after_payment now org_id invoice_id user_org s i owned in
    (
      ap (λ (r : Result BillingError InvoiceRow × BillingStore). r.0) first,
      again,
      pay_invoice-settled later org_id invoice_id user_org _ (as_paid now i) again refl,
    )
