-- ===== src/Api/Notifications/Reading.antt =====
-- Reading notifications: markAsRead and markAllAsRead of
-- apps/api/src/modules/notifications/notifications.service.ts.
use brine_vault.Base.{
  ℕ, ◌==◌, ◌&&◌, List, [], ◌∷◌, All, Bool, true, false, not, ◌≡◌, ◌≢◌, refl, ap, if◌then◌else◌,
  if-elim, arith,
}
use brine_vault.Db.Tables.{rows_where, update_rows}
use brine_vault.Api.Notifications.{
  NotificationRow, NotificationStore, set_read, mark_as_read, mark_all_as_read,
}

-- The notifications of a user, the newest first.
abbrev pub inbox : ℕ → List NotificationRow → List NotificationRow
inbox user_id rows = rows_where (λ n. n.user_id == user_id) rows

-- Reading rows of one user leaves the inbox of another as it is.
inbox-update_rows :
    (user_id other : ℕ) (p : NotificationRow → Bool) (rows : List NotificationRow)
    → other ≢ user_id
    → ((n : NotificationRow) → p n ≡ true → (n.user_id == user_id) ≡ true)
    → inbox other (update_rows p set_read rows) ≡ inbox other rows
unfolding rows_where update_rows
inbox-update_rows user_id other p [] differ own = refl
inbox-update_rows user_id other p (n ∷ rows) differ own =
    let rest = inbox-update_rows user_id other p rows differ own in
    if-elim
      (λ (x : NotificationRow).
        (if x.user_id == other
          then x ∷ inbox other (update_rows p set_read rows)
          else inbox other (update_rows p set_read rows))
        ≡ (if n.user_id == other then n ∷ inbox other rows else inbox other rows))
      (p n) (set_read n) n
      (λ e.
        let mine = own n e in
        let skipped : (n.user_id == other) ≡ false = ground arith in rw skipped rest)
      (λ e. ap (λ t. if n.user_id == other then n ∷ t else t) rest)

-- A user reads only notifications of its own: whatever id it names, the inboxes of the other users stay
-- as they are.
pub mark_as_read-isolated :
    (id user_id other : ℕ) (s : NotificationStore)
    → other ≢ user_id
    → inbox other (mark_as_read id user_id s).notifications ≡ inbox other s.notifications
unfolding mark_as_read
mark_as_read-isolated id user_id other s differ =
    inbox-update_rows user_id other (λ n. (n.id == id) && (n.user_id == user_id)) s.notifications
      differ (λ n e. ground arith)

abbrev is_unread : ℕ → NotificationRow → Bool
is_unread user_id n = (n.user_id == user_id) && not n.is_read

none_unread :
    (user_id : ℕ) (rows : List NotificationRow)
    → All (λ n. is_unread user_id n ≡ false) (update_rows (is_unread user_id) set_read rows)
unfolding update_rows
none_unread user_id [] = tt
none_unread user_id (n ∷ rows) = (
  if-elim (λ x. is_unread user_id x ≡ false) (is_unread user_id n) (set_read n) n
      (λ e. ground arith) (λ e. e),
  none_unread user_id rows,
)

-- After markAllAsRead no notification of the user is unread, and the inboxes of the other users stay as
-- they are.
pub mark_all_as_read-clears :
    (user_id other : ℕ) (s : NotificationStore)
    → other ≢ user_id
    → All
        (λ n. ((n.user_id == user_id) && not n.is_read) ≡ false)
        (mark_all_as_read user_id s).notifications
      × (inbox other (mark_all_as_read user_id s).notifications ≡ inbox other s.notifications)
unfolding mark_all_as_read
mark_all_as_read-clears user_id other s differ = (
  none_unread user_id s.notifications,
  inbox-update_rows user_id other (is_unread user_id) s.notifications differ (λ n e. ground arith),
)
