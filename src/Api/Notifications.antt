-- ===== src/Api/Notifications.antt =====
-- Notifications: apps/api/src/modules/notifications/notifications.service.ts and
-- apps/api/src/workers/notification-dispatcher.service.ts, with the tables and repositories of
-- notifications and preferences in packages/db/src. An object that maps types to preferences is the list of its
-- entries.
pub mod Preferences
pub mod Dispatch
pub mod Reading
use brine_vault.Base.{
  ℕ, suc, ◌+◌, ◌==◌, ◌&&◌, ◌||◌, not, Option, none, some, List, [], ◌∷◌, Bool, true, false,
  if◌then◌else◌, Result, ok, err, ◌>>=◌, ◌>>◌, guard,
}
use brine_vault.Db.Tables.{
  DbError, foreign_key_violation, any_row, find_row, rows_where, update_rows,
}
use brine_vault.Db.Listing.{limit_offset}
use brine_vault.Api.Access.{PageQuery, offset}

-- The three mandatory types, and any other.
pub data NotificationType : Type 0 where
  subscription_expiring subscription_expired invoice_overdue : NotificationType
  optional_type : ℕ → NotificationType

-- The number of a type, for the keys of an object.
abbrev pub type_key : NotificationType → ℕ
type_key subscription_expiring = 0
type_key subscription_expired = 1
type_key invoice_overdue = 2
type_key (optional_type n) = 3 + n

pub record NotificationRow : Type 0 where
  pub id : ℕ
  pub user_id : ℕ
  pub notification_type : NotificationType
  pub title : ℕ
  pub body : Option ℕ
  pub related_pool_id : Option ℕ
  pub related_document_id : Option ℕ
  pub is_read : Bool

pub record TypePreference : Type 0 where
  pub email : Option Bool
  pub in_app : Option Bool

pub record PreferenceRow : Type 0 where
  pub user_id : ℕ
  pub email_enabled : Bool
  pub in_app_enabled : Bool
  pub preferences : List (ℕ × TypePreference)

pub record NotificationStore : Type 0 where
  pub users : List ℕ
  pub pools : List ℕ
  pub documents : List ℕ
  pub notifications : List NotificationRow
  pub preferences : List PreferenceRow
  pub next_id : ℕ

-- The entry of a key, and `object[key] = value`.
unfoldable pub get_entry : ℕ → List (ℕ × TypePreference) → Option TypePreference
get_entry key [] = none
get_entry key (e ∷ entries) = if e.0 == key then some e.1 else get_entry key entries

unfoldable pub set_entry :
    ℕ → TypePreference → List (ℕ × TypePreference) → List (ℕ × TypePreference)
set_entry key value [] = (key, value) ∷ []
set_entry key value (e ∷ entries) =
    if e.0 == key then (key, value) ∷ entries else e ∷ set_entry key value entries

-- NotificationPreferencesRepository.
unfoldable pub find_preferences : ℕ → NotificationStore → Option PreferenceRow
find_preferences user_id s = find_row (λ p. p.user_id == user_id) s.preferences

abbrev pub is_user : ℕ → NotificationStore → Bool
is_user user_id s = any_row (λ u. u == user_id) s.users

-- What the service shows a user without a row, and what the schema fills a new row with.
abbrev pub default_row : ℕ → PreferenceRow
default_row user_id = record {
  user_id = user_id;
  email_enabled = true;
  in_app_enabled = true;
  preferences = [];
}

abbrev pub or_default : ℕ → Option PreferenceRow → PreferenceRow
or_default user_id none = default_row user_id
or_default user_id (some row) = row

-- The update of the row that was found, or the insert of a new one.
unfoldable pub upsert_found :
    Option PreferenceRow
    → ℕ
    → (PreferenceRow → PreferenceRow)
    → NotificationStore
    → Result DbError NotificationStore
upsert_found (some row) user_id change s =
    ok (record s { preferences = update_rows (λ p. p.user_id == user_id) change s.preferences })
upsert_found none user_id change s = do
  guard (is_user user_id s) foreign_key_violation
  ok (record s { preferences = change (default_row user_id) ∷ s.preferences })

unfoldable pub upsert_preferences :
    ℕ → (PreferenceRow → PreferenceRow) → NotificationStore → Result DbError NotificationStore
upsert_preferences user_id change s = upsert_found (find_preferences user_id s) user_id change s

-- A reference that may be null: the foreign keys of the related pool and document.
abbrev pub is_related : Option ℕ → List ℕ → Bool
is_related none ids = true
is_related (some id) ids = any_row (λ i. i == id) ids

-- NotificationsRepository. An insert fails when one of its three references is of no row.
unfoldable pub create_notification :
    NotificationRow → NotificationStore → Result DbError NotificationStore
create_notification row s = do
  guard
      (is_user row.user_id s
        && (is_related row.related_pool_id s.pools
            && is_related row.related_document_id s.documents))
      foreign_key_violation
  ok (record s { notifications = row ∷ s.notifications; next_id = suc s.next_id })

abbrev pub set_read : NotificationRow → NotificationRow
set_read n = record n { is_read = true }

-- NotificationsService.
unfoldable pub list_notifications : ℕ → PageQuery → NotificationStore → List NotificationRow
list_notifications user_id query s =
    limit_offset query.limit (offset query) (rows_where (λ n. n.user_id == user_id) s.notifications)

unfoldable pub mark_as_read : ℕ → ℕ → NotificationStore → NotificationStore
mark_as_read id user_id s = record s {
  notifications =
      update_rows (λ n. (n.id == id) && (n.user_id == user_id)) set_read s.notifications;
}

unfoldable pub mark_all_as_read : ℕ → NotificationStore → NotificationStore
mark_all_as_read user_id s = record s {
  notifications =
      update_rows (λ n. (n.user_id == user_id) && not n.is_read) set_read s.notifications;
}

unfoldable pub get_preferences : ℕ → NotificationStore → PreferenceRow
get_preferences user_id s = or_default user_id (find_preferences user_id s)

pub record UpdatePreferencesDto : Type 0 where
  pub email_enabled : Option Bool
  pub in_app_enabled : Option Bool
  pub preferences : List (ℕ × TypePreference)

abbrev pub or_old : Option Bool → Option Bool → Option Bool
or_old none old = old
or_old (some new) old = some new

-- `{ ...(existing ?? {}), ...value }`.
abbrev pub merge_entry : Option TypePreference → TypePreference → TypePreference
merge_entry none value = value
merge_entry (some old) value = record {
  email = or_old value.email old.email;
  in_app = or_old value.in_app old.in_app;
}

-- The loop over the entries of the request.
unfoldable pub merge_entries :
    List (ℕ × TypePreference)
    → List (ℕ × TypePreference)
    → List (ℕ × TypePreference)
    → List (ℕ × TypePreference)
merge_entries existing [] merged = merged
merge_entries existing (e ∷ entries) merged =
    merge_entries existing entries (set_entry e.0 (merge_entry (get_entry e.0 existing) e.1) merged)

abbrev pub or_same : Option Bool → Bool → Bool
or_same none old = old
or_same (some new) old = new

abbrev pub entries_of : Option PreferenceRow → List (ℕ × TypePreference)
entries_of none = []
entries_of (some row) = row.preferences

unfoldable pub update_preferences :
    ℕ → UpdatePreferencesDto → NotificationStore → Result DbError NotificationStore
update_preferences user_id dto s =
    let existing = entries_of (find_preferences user_id s) in
    upsert_preferences user_id
      (λ row. record row {
        preferences = merge_entries existing dto.preferences existing;
        email_enabled = or_same dto.email_enabled row.email_enabled;
        in_app_enabled = or_same dto.in_app_enabled row.in_app_enabled;
      })
      s

-- NotificationDispatcherService.
pub record DispatchPayload : Type 0 where
  pub payload_type : NotificationType
  pub title : ℕ
  pub body : Option ℕ
  pub recipient_user_ids : List ℕ
  pub related_pool_id : Option ℕ
  pub related_document_id : Option ℕ

-- `MANDATORY_TYPES.has(type)`.
unfoldable pub is_mandatory : NotificationType → Bool
is_mandatory (optional_type n) = false
is_mandatory _ = true

-- `typePrefs && typePrefs.in_app === false`.
abbrev pub is_muted : Option TypePreference → Bool
is_muted none = false
is_muted (some p) = elim p.in_app [ none ↦ false | some b ↦ not b ]

abbrev pub wants_in_app : NotificationType → Option PreferenceRow → Bool
wants_in_app t none = true
wants_in_app t (some row) =
    if row.in_app_enabled then not (is_muted (get_entry (type_key t) row.preferences)) else false

unfoldable pub should_send_in_app : ℕ → NotificationType → NotificationStore → Bool
should_send_in_app user_id t s =
    if is_mandatory t then true else wants_in_app t (find_preferences user_id s)

-- A failure is logged and the loop goes on.
abbrev pub or_unchanged : Result DbError NotificationStore → NotificationStore → NotificationStore
or_unchanged (ok after) s = after
or_unchanged (err e) s = s

unfoldable pub dispatch_to : DispatchPayload → ℕ → NotificationStore → NotificationStore
dispatch_to payload user_id s =
    if should_send_in_app user_id payload.payload_type s
    then or_unchanged
        (create_notification
          (record {
            id = s.next_id;
            user_id = user_id;
            notification_type = payload.payload_type;
            title = payload.title;
            body = payload.body;
            related_pool_id = payload.related_pool_id;
            related_document_id = payload.related_document_id;
            is_read = false;
          })
          s)
        s
    else s

unfoldable pub dispatch_each : DispatchPayload → List ℕ → NotificationStore → NotificationStore
dispatch_each payload [] s = s
dispatch_each payload (user_id ∷ users) s =
    dispatch_each payload users (dispatch_to payload user_id s)

unfoldable pub dispatch : DispatchPayload → NotificationStore → NotificationStore
dispatch payload s = dispatch_each payload payload.recipient_user_ids s
