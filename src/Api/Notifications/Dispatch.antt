-- ===== src/Api/Notifications/Dispatch.antt =====
-- Who gets a dispatched notification: apps/api/src/workers/notification-dispatcher.service.ts.
use brine_vault.Base.{
  ℕ, suc, ◌+◌, ◌<◌, ◌==◌, ◌&&◌, List, [], ◌∷◌, Bool, true, false, ◌≡◌, refl, sym, ap, ◌∙◌,
  if◌then◌else◌, if-elim, Bool-cases, inl, inr, ok, ◌>>◌, guard, ==_iff, arith,
}
use brine_vault.Db.Tables.{foreign_key_violation}
use brine_vault.Db.Listing.Order.{count_where, one_if, count_where-cons}
use brine_vault.Api.Notifications.{
  NotificationRow, NotificationStore, DispatchPayload, is_user, is_related, find_preferences,
  create_notification, is_mandatory, should_send_in_app, or_unchanged, dispatch_to, dispatch_each,
  dispatch,
}

-- How often a user is among the recipients.
unfoldable pub occurrences : ℕ → List ℕ → ℕ
occurrences user_id [] = 0
occurrences user_id (u ∷ users) =
    let rest = occurrences user_id users in if u == user_id then suc rest else rest

-- The notifications of a user.
unfoldable pub inbox_size : ℕ → NotificationStore → ℕ
inbox_size user_id s = count_where (λ (n : NotificationRow). n.user_id == user_id) s.notifications

-- The pool and the document that the payload refers to exist.
abbrev pub related : DispatchPayload → NotificationStore → Bool
related payload s =
    is_related payload.related_pool_id s.pools && is_related payload.related_document_id s.documents

-- The users that a notification of the payload's type gets to.
abbrev pub gets : DispatchPayload → ℕ → NotificationStore → Bool
gets payload user_id s =
    should_send_in_app user_id payload.payload_type s && (is_user user_id s && related payload s)

abbrev notice : DispatchPayload → ℕ → ℕ → NotificationRow
notice payload recipient id = record {
  id = id;
  user_id = recipient;
  notification_type = payload.payload_type;
  title = payload.title;
  body = payload.body;
  related_pool_id = payload.related_pool_id;
  related_document_id = payload.related_document_id;
  is_read = false;
}

abbrev added : DispatchPayload → ℕ → NotificationStore → NotificationStore
added payload recipient s = record s {
  notifications = notice payload recipient s.next_id ∷ s.notifications;
  next_id = suc s.next_id;
}

two_tests :
    (sends exists : Bool) (after s : NotificationStore)
    → (if sends then or_unchanged (guard exists foreign_key_violation >> ok after) s else s)
      ≡ (if sends && exists then after else s)
two_tests false exists after s = refl
two_tests true false after s = refl
two_tests true true after s = refl

dispatch_to_lem :
    (payload : DispatchPayload) (recipient : ℕ) (s : NotificationStore)
    → dispatch_to payload recipient s
      ≡ (if gets payload recipient s then added payload recipient s else s)
unfolding dispatch_to create_notification
dispatch_to_lem payload recipient s =
    two_tests (should_send_in_app recipient payload.payload_type s)
      (is_user recipient s && related payload s) (added payload recipient s) s

-- What one recipient adds to the inbox of a user.
abbrev share : DispatchPayload → ℕ → ℕ → NotificationStore → ℕ
share payload recipient user_id s =
    if (recipient == user_id) && gets payload user_id s then 1 else 0

share-added :
    (payload : DispatchPayload) (recipient user_id : ℕ) (s : NotificationStore)
    → gets payload recipient s ≡ true
    → one_if (recipient == user_id) ≡ share payload recipient user_id s
share-added payload recipient user_id s e = elim (Bool-cases (recipient == user_id)) [
  | inl same ↦
      let equal : recipient ≡ user_id = (==_iff recipient user_id).0 same in
      let got : gets payload user_id s ≡ true = ap (λ u. gets payload u s) (sym equal) ∙ e in
      rw same (rw got refl)
  | inr differ ↦ rw differ refl
]

share-none :
    (payload : DispatchPayload) (recipient user_id : ℕ) (s : NotificationStore)
    → gets payload recipient s ≡ false
    → 0 ≡ share payload recipient user_id s
share-none payload recipient user_id s e = elim (Bool-cases (recipient == user_id)) [
  | inl same ↦
      let equal : recipient ≡ user_id = (==_iff recipient user_id).0 same in
      let got : gets payload user_id s ≡ false = ap (λ u. gets payload u s) (sym equal) ∙ e in
      rw same (rw got refl)
  | inr differ ↦ rw differ refl
]

-- One recipient: who gets the payload stays the same, and the inbox of that user alone grows.
dispatch_to-grows :
    (payload : DispatchPayload) (recipient user_id : ℕ) (s : NotificationStore)
    → (inbox_size user_id (dispatch_to payload recipient s)
        ≡ share payload recipient user_id s + inbox_size user_id s)
      × (gets payload user_id (dispatch_to payload recipient s) ≡ gets payload user_id s)
unfolding inbox_size should_send_in_app find_preferences
dispatch_to-grows payload recipient user_id s = rw (dispatch_to_lem payload recipient s) (
    if-elim
      (λ (after : NotificationStore).
        (inbox_size user_id after ≡ share payload recipient user_id s + inbox_size user_id s)
        × (gets payload user_id after ≡ gets payload user_id s))
      (gets payload recipient s) (added payload recipient s) s
      (λ e. (
        count_where-cons (λ (n : NotificationRow). n.user_id == user_id)
              (notice payload recipient s.next_id) s.notifications
            ∙ ap (λ n. n + inbox_size user_id s) (share-added payload recipient user_id s e),
        refl,
      ))
      (λ e. (omega (arith, share-none payload recipient user_id s e), refl)))

share_sum :
    (named gets_it : Bool) (times inbox : ℕ)
    → (if gets_it then times else 0) + ((if named && gets_it then 1 else 0) + inbox)
      ≡ (if gets_it then (if named then suc times else times) else 0) + inbox
share_sum named false times inbox = ground arith
share_sum false true times inbox = omega arith
share_sum true true times inbox = omega arith

dispatch_each-grows :
    (payload : DispatchPayload) (users : List ℕ) (user_id : ℕ) (s : NotificationStore)
    → inbox_size user_id (dispatch_each payload users s)
      ≡ (if gets payload user_id s then occurrences user_id users else 0) + inbox_size user_id s
unfolding dispatch_each occurrences
dispatch_each-grows payload [] user_id s = ground arith
dispatch_each-grows payload (recipient ∷ users) user_id s =
    let (grows, same) = dispatch_to-grows payload recipient user_id s in
    let rest = dispatch_each-grows payload users user_id (dispatch_to payload recipient s) in
    rest
    ∙ rw same (
        rw grows (
          share_sum (recipient == user_id) (gets payload user_id s) (occurrences user_id users)
            (inbox_size user_id s)))

-- Every dispatch adds to the inbox of a user exactly as many notifications as the payload names that
-- user, when the user, the related pool and the related document exist and the user's preferences let
-- the type through, and none otherwise: a failure for one recipient does not touch the others.
pub dispatch-counts :
    (payload : DispatchPayload) (user_id : ℕ) (s : NotificationStore)
    → inbox_size user_id (dispatch payload s)
      ≡ (if should_send_in_app user_id payload.payload_type s
            && (is_user user_id s && related payload s)
          then occurrences user_id payload.recipient_user_ids
          else 0)
        + inbox_size user_id s
unfolding dispatch
dispatch-counts payload user_id s = dispatch_each-grows payload payload.recipient_user_ids user_id s

-- A mandatory notification whose related pool and document, if it names any, exist reaches every
-- recipient that is a user, whatever the preferences say.
pub dispatch-mandatory :
    (payload : DispatchPayload) (user_id : ℕ) (s : NotificationStore)
    → is_mandatory payload.payload_type ≡ true
    → is_user user_id s ≡ true
    → related payload s ≡ true
    → 0 < occurrences user_id payload.recipient_user_ids
    → inbox_size user_id s < inbox_size user_id (dispatch payload s)
unfolding should_send_in_app
dispatch-mandatory payload user_id s mandatory exists known named =
    rw (dispatch-counts payload user_id s)
      (rw mandatory (rw exists (rw known (omega (arith, named)))))
