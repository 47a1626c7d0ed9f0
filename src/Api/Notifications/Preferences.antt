-- ===== src/Api/Notifications/Preferences.antt =====
-- Preferences and what they mute: updatePreferences of
-- apps/api/src/modules/notifications/notifications.service.ts and the dispatcher of
-- apps/api/src/workers/notification-dispatcher.service.ts.
use brine_vault.Base.{
  ℕ, ◌==◌, Option, none, some, List, [], ◌∷◌, true, false, ◌≡◌, refl, ap, subst, ◌∙◌, if◌then◌else◌,
  if-elim, Bool-cases, inl, inr, ok, guard, >>=-eq-ok, ==_iff, ==_self, arith,
}
use brine_vault.Db.Tables.{foreign_key_violation, find_row, update_rows}
use brine_vault.Api.Notifications.Dispatch.{inbox_size, dispatch-counts}
use brine_vault.Db.Lookup.{map_row, find_row-update_rows}
use brine_vault.Api.Notifications.{
  TypePreference, PreferenceRow, NotificationStore, UpdatePreferencesDto, NotificationType,
  DispatchPayload, type_key, get_entry, set_entry, find_preferences, is_user, default_row,
  or_default, wants_in_app, upsert_found, upsert_preferences, or_same, entries_of, merge_entry,
  merge_entries, update_preferences, get_preferences, is_mandatory, is_muted, should_send_in_app,
  dispatch,
}

get_entry-set_entry_same :
    (key : ℕ) (value : TypePreference) (entries : List (ℕ × TypePreference))
    → get_entry key (set_entry key value entries) ≡ some value
unfolding get_entry set_entry
get_entry-set_entry_same key value [] = rw (==_self key) refl
get_entry-set_entry_same key value (e ∷ entries) =
    if-elim (λ t. get_entry key t ≡ some value) (e.0 == key) ((key, value) ∷ entries)
      (e ∷ set_entry key value entries) (λ same. rw (==_self key) refl)
      (λ differ. rw differ (get_entry-set_entry_same key value entries))

get_entry-set_entry_other :
    (key other : ℕ) (value : TypePreference) (entries : List (ℕ × TypePreference))
    → (key == other) ≡ false
    → get_entry other (set_entry key value entries) ≡ get_entry other entries
unfolding get_entry set_entry
get_entry-set_entry_other key other value [] h = rw h refl
get_entry-set_entry_other key other value (e ∷ entries) h =
    if-elim (λ t. get_entry other t ≡ get_entry other (e ∷ entries)) (e.0 == key)
      ((key, value) ∷ entries) (e ∷ set_entry key value entries)
      (λ same.
        let skipped : (e.0 == other) ≡ false = ground (arith, (==_iff e.0 key).0 same) in
        rw h (rw skipped refl))
      (λ differ.
        ap (λ t. if e.0 == other then some e.1 else t)
          (get_entry-set_entry_other key other value entries h))

-- The entry of a key after the loop: that of the request over the old one, or the one before.
abbrev merged_entry :
    Option TypePreference → Option TypePreference → Option TypePreference → Option TypePreference
merged_entry none old before = before
merged_entry (some value) old before = some (merge_entry old value)

-- An object names a key once.
abbrev pub IsObject : List (ℕ × TypePreference) → Type 0
IsObject [] = Unit
IsObject (e ∷ entries) = (get_entry e.0 entries ≡ none) × IsObject entries

merge_entries_lem :
    (key : ℕ) (existing requested merged : List (ℕ × TypePreference))
    → IsObject requested
    → get_entry key (merge_entries existing requested merged)
      ≡ merged_entry (get_entry key requested) (get_entry key existing) (get_entry key merged)
unfolding merge_entries get_entry
merge_entries_lem key existing [] merged h = refl
merge_entries_lem key existing (e ∷ requested) merged h =
    let next = set_entry e.0 (merge_entry (get_entry e.0 existing) e.1) merged in
    let rest = merge_entries_lem key existing requested next h.1 in
    elim (Bool-cases (e.0 == key)) [
      | inl same ↦ rw same (
          subst
            (λ x.
              get_entry x (merge_entries existing requested next)
              ≡ some (merge_entry (get_entry x existing) e.1))
            ((==_iff e.0 key).0 same)
            (merge_entries_lem e.0 existing requested next h.1
              ∙ ap (λ o. merged_entry o (get_entry e.0 existing) (get_entry e.0 next)) h.0
              ∙ get_entry-set_entry_same e.0 (merge_entry (get_entry e.0 existing) e.1) merged))
      | inr differ ↦ rw differ (
          rest
          ∙ ap (merged_entry (get_entry key requested) (get_entry key existing))
              (get_entry-set_entry_other e.0 key _ merged differ))
    ]

upsert_found_lem :
    (found : Option PreferenceRow) (user_id : ℕ) (change : PreferenceRow → PreferenceRow)
    (s after : NotificationStore)
    → ((row : PreferenceRow) → (change row).user_id ≡ row.user_id)
    → find_preferences user_id s ≡ found
    → upsert_found found user_id change s ≡ ok after
    → find_preferences user_id after ≡ some (change (or_default user_id found))
unfolding upsert_found find_preferences find_row
upsert_found_lem none user_id change s after keeps e h =
    let (u, exists, last) = >>=-eq-ok (guard (is_user user_id s) foreign_key_violation) _ h in
    let made : (record s { preferences = change (default_row user_id) ∷ s.preferences }) ≡ after =
      cc in
    let mine : ((change (default_row user_id)).user_id == user_id) ≡ true =
      ap (λ n. n == user_id) (keeps (default_row user_id)) ∙ ==_self user_id in
    subst
      (λ (x : NotificationStore).
        find_row (λ p. p.user_id == user_id) x.preferences ≡ some (change (default_row user_id)))
      made (rw mine refl)
upsert_found_lem (some row) user_id change s after keeps e h =
    let made : (record s {
      preferences = update_rows (λ p. p.user_id == user_id) change s.preferences;
    })
        ≡ after =
      cc in
    subst
      (λ (x : NotificationStore).
        find_row (λ p. p.user_id == user_id) x.preferences ≡ some (change row))
      made
      (find_row-update_rows (λ p. p.user_id == user_id) change
          (λ r. ap (λ n. n == user_id) (keeps r)) s.preferences
        ∙ ap (map_row change) e)

same_entries :
    (user_id : ℕ) (found : Option PreferenceRow)
    → entries_of found ≡ (or_default user_id found).preferences
same_entries user_id none = refl
same_entries user_id (some row) = refl

-- After an update that succeeds, whose entries name each type once: the entry of a type is the entry
-- of the request laid over the old one, field by field, or the old one where the request has none, and
-- each of the two switches is the one of the request, or the old one.
pub update_preferences-merges :
    (user_id : ℕ) (dto : UpdatePreferencesDto) (s after : NotificationStore) (key : ℕ)
    → IsObject dto.preferences
    → update_preferences user_id dto s ≡ ok after
    → (get_entry key (get_preferences user_id after).preferences
        ≡ merged_entry
            (get_entry key dto.preferences)
            (get_entry key (get_preferences user_id s).preferences)
            (get_entry key (get_preferences user_id s).preferences))
      × ((get_preferences user_id after).email_enabled
          ≡ or_same dto.email_enabled (get_preferences user_id s).email_enabled)
      × ((get_preferences user_id after).in_app_enabled
          ≡ or_same dto.in_app_enabled (get_preferences user_id s).in_app_enabled)
unfolding update_preferences upsert_preferences get_preferences
update_preferences-merges user_id dto s after key object h =
    let found = find_preferences user_id s in
    let existing = entries_of found in
    let change : PreferenceRow → PreferenceRow = λ row. record row {
      preferences = merge_entries existing dto.preferences existing;
      email_enabled = or_same dto.email_enabled row.email_enabled;
      in_app_enabled = or_same dto.in_app_enabled row.in_app_enabled;
    } in
    let now = upsert_found_lem found user_id change s after (λ r. refl) refl h in
    rw now (
      (
        merge_entries_lem key existing dto.preferences existing object
            ∙ ap
                (λ es.
                  merged_entry (get_entry key dto.preferences) (get_entry key es)
                    (get_entry key es))
                (same_entries user_id found),
        refl,
        refl,
      ))

muted_entry :
    (old : Option TypePreference) (value : TypePreference)
    → value.in_app ≡ some false
    → is_muted (some (merge_entry old value)) ≡ true
muted_entry none value h = rw h refl
muted_entry (some old) value h = rw h refl

wants_not :
    (t : NotificationType) (user_id : ℕ) (found : Option PreferenceRow)
    → is_muted (get_entry (type_key t) (or_default user_id found).preferences) ≡ true
    → wants_in_app t found ≡ false
unfolding get_entry
wants_not t user_id none h = cc
wants_not t user_id (some row) h =
    rw h (if-elim (λ b. b ≡ false) row.in_app_enabled false false (λ e. refl) (λ e. refl))

-- A type that a user mutes stays silent: after an update that sets `in_app` of a type to false, a
-- dispatch of that type adds nothing to the inbox of the user, unless the type is mandatory.
pub update_preferences-mutes :
    (user_id : ℕ) (dto : UpdatePreferencesDto) (value : TypePreference) (payload : DispatchPayload)
    (s after : NotificationStore)
    → IsObject dto.preferences
    → get_entry (type_key payload.payload_type) dto.preferences ≡ some value
    → value.in_app ≡ some false
    → is_mandatory payload.payload_type ≡ false
    → update_preferences user_id dto s ≡ ok after
    → inbox_size user_id (dispatch payload after) ≡ inbox_size user_id after
unfolding should_send_in_app get_preferences
update_preferences-mutes user_id dto value payload s after object named off optional h =
    let key = type_key payload.payload_type in
    let old = get_entry key (get_preferences user_id s).preferences in
    let entry = (update_preferences-merges user_id dto s after key object h).0 in
    let muted : is_muted (get_entry key (get_preferences user_id after).preferences) ≡ true =
      ap is_muted (entry ∙ ap (λ o. merged_entry o old old) named) ∙ muted_entry old value off in
    let silent = wants_not payload.payload_type user_id (find_preferences user_id after) muted in
    dispatch-counts payload user_id after ∙ rw optional (rw silent (omega arith))
