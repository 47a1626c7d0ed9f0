-- ===== src/Tests/Api.antt =====
-- The API services of apps/api/src on small inputs.
use brine_vault.Base.{
  ℕ, ◌+◌, ◌==◌, ◌&&◌, not, ◌≡◌, refl, arith, Option, none, some, [], ◌∷◌, All, true, false, ok, err,
}
use brine_vault.Db.Tables.{find_row}
use brine_vault.Api.Session.{
  Entry, Challenge, Session, AuthStore, redis_get, value_of, get_session, is_token_blacklisted,
  consume_challenge, create_session,
}
use brine_vault.Api.Auth.{
  LoginRequest, Tokens, Draw, invalid_nonce, token_reuse_detected, renewed, upsert_user,
  start_session, login_with, verify_and_login, refresh, logout,
}
use brine_vault.Api.Auth.Login.{verify_and_login-once, verify_and_login_sound}
use brine_vault.Api.Auth.Refresh.{rotated, refresh-rotates, logout-ends}
use brine_vault.Api.Billing.{
  InvoiceRow, BillingStore, active, pending, get_invoice, pay_invoice, as_paid, invoice_not_payable,
  is_expiring, is_grace_expired, handle_cron, Outage,
}
use brine_vault.Api.Billing.Expiry.{handle_cron-settles}
use brine_vault.Api.Billing.Payment.{pay_invoice-once}

-- A signature that names its signer, and a hash.
abbrev recover : ℕ → ℕ → ℕ → Option ℕ
recover nonce timestamp signature = some signature

abbrev hash : ℕ → ℕ
hash token = token + 1000

abbrev session : Session
session = record {
  user_id = 1;
  address = 77;
  org_id = none;
  refresh_token_hash = 1005;
  created_at = 0;
  last_active_at = 0;
  session_ip = 3;
  user_agent = 4;
}

abbrev session_entry : Entry Session
session_entry = record { key = 20; value = session; expires_at = 500 }

abbrev store : AuthStore
store = record {
  challenges =
      record { key = 11; value = record { timestamp = 90; ip = 3 }; expires_at = 390 } ∷ [];
  sessions = session_entry ∷ [];
  blacklist = [];
  users = [];
  next_user_id = 1;
}

abbrev draw : Draw
draw = record { now = 100; new_sid = 21; new_token = 6 }

abbrev draw_later : Draw
draw_later = record { now = 200; new_sid = 22; new_token = 8 }

abbrev request : LoginRequest
request = record { login_address = 77; signature = 77; nonce = 11 }

verify_and_login-once_example :
    (verify_and_login recover hash draw_later request 3 4
      (verify_and_login recover hash draw request 3 4 store).1).0
    ≡ err invalid_nonce
verify_and_login-once_example =
    verify_and_login-once recover hash draw draw_later request request 3 4 3 4 store refl

abbrev first_tokens : Tokens
first_tokens = record {
  access_token = record {
    sub = 1;
    claim_address = 77;
    claim_org_id = none;
    org_role = 0;
    sid = 21;
  };
  refresh_token = 6;
  role_in_org = 0;
}

logged_in : (verify_and_login recover hash draw request 3 4 store).0 ≡ ok first_tokens
unfolding verify_and_login consume_challenge redis_get login_with start_session upsert_user
    create_session
logged_in = refl

verify_and_login_sound_example :
    (ch : Challenge) × (value_of (redis_get 100 11 store.challenges) ≡ some ch)
    × (recover 11 ch.timestamp 77 ≡ some 77)
    × (first_tokens.access_token.claim_address ≡ 77)
verify_and_login_sound_example =
    verify_and_login_sound recover hash draw request 3 4 store first_tokens logged_in

found_session : redis_get 100 20 store.sessions ≡ some session_entry
unfolding redis_get
found_session = refl

refresh-rotates_example :
    let s' = (refresh hash draw 5 20 store).1 in
    ((refresh hash draw 5 20 store).0 ≡ ok (renewed draw 20 session store))
    × ((refresh hash draw_later 6 20 s').0
        ≡ ok (renewed draw_later 20 (rotated 100 20 1006 session_entry).value s'))
    × ((refresh hash draw_later 5 20 s').0 ≡ err token_reuse_detected)
    × (get_session 300 20 (refresh hash draw_later 5 20 s').1 ≡ none)
refresh-rotates_example =
    refresh-rotates hash draw draw_later 5 20 300 store session_entry found_session refl
      (λ e. omega arith) (omega arith)

logout_test :
    (get_session 200 20 (logout 100 20 30 900 store) ≡ none)
    × (is_token_blacklisted 200 30 (logout 100 20 30 900 store) ≡ true)
logout_test = logout-ends 100 200 20 30 900 store (omega arith) (omega arith)

abbrev invoice : InvoiceRow
invoice = record {
  id = 40;
  org_id = 2;
  subscription_id = 41;
  invoice_amount = 10;
  invoice_status = pending;
  due_at = 99;
  paid_at = none;
}

abbrev billing : BillingStore
billing = record {
  subscriptions =
      record {
        id = 41;
        org_id = 2;
        plan = 1;
        status = active;
        current_period_start = some 0;
        current_period_end = some 50;
        grace_period_end = none;
        amount = 10;
      }
      ∷ record {
        id = 43;
        org_id = 3;
        plan = 1;
        status = active;
        current_period_start = some 0;
        current_period_end = some 50;
        grace_period_end = none;
        amount = 10;
      }
      ∷ [];
  invoices = invoice ∷ [];
  next_id = 42;
  notices = [];
}

owned_invoice_read : get_invoice 2 40 (some 2) billing ≡ ok invoice
unfolding get_invoice find_row
owned_invoice_read = refl

pay_invoice-once_example :
    let s' = (pay_invoice 60 2 40 (some 2) billing).1 in
    ((pay_invoice 60 2 40 (some 2) billing).0 ≡ ok (as_paid 60 invoice))
    × (get_invoice 2 40 (some 2) s' ≡ ok (as_paid 60 invoice))
    × (pay_invoice 61 2 40 (some 2) s' ≡ (err invoice_not_payable, s'))
pay_invoice-once_example =
    pay_invoice-once 60 61 2 40 (some 2) billing invoice owned_invoice_read refl

-- The update of the subscription 43 throws.
abbrev outage : Outage
outage = record {
  expiring_unread = false;
  expiring_stuck = λ id. id == 43;
  grace_unread = false;
  grace_stuck = λ id. false;
}

handle_cron-settles_example :
    let rows = (handle_cron ◌+◌ ◌+◌ outage 60 60 billing).subscriptions in
    All (λ r. (is_expiring 60 r && not (r.id == 43)) ≡ false) rows
    × All (λ r. (is_grace_expired 60 r && not false) ≡ false) rows
handle_cron-settles_example = handle_cron-settles ◌+◌ ◌+◌ outage 60 60 billing refl refl
