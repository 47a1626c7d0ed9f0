-- ===== src/Tests/Clients.antt =====
-- Notifications, the CSV export, the guards, the encryption SDK and the browser client on small inputs.
use brine_vault.Base.{
  Result, ℕ, ◌+◌, ◌<◌, ◌≡◌, ◌≢◌, ◌↔◌, refl, arith, Option, none, some, List, [], ◌∷◌, ◌++◌, Bool,
  true, false, length, replicate, drop, map, ◌==◌, if◌then◌else◌, ok, err,
}
use brine_vault.Api.Notifications.{
  NotificationStore, PreferenceRow, TypePreference, UpdatePreferencesDto, DispatchPayload,
  subscription_expired, optional_type, is_mandatory, get_entry, dispatch, update_preferences,
}
use brine_vault.Api.Notifications.Dispatch.{occurrences, inbox_size, dispatch-mandatory}
use brine_vault.Api.Notifications.Preferences.{update_preferences-mutes}
use brine_vault.Api.Session.{AuthStore, create_session}
use brine_vault.Api.Auth.{Draw, Tokens, start_session, logout}
use brine_vault.Api.Auth.ZkLogin.{
  DecodedJwt, ZkError, ZkLoginRequest, epoch, Accepts, verify_zk_login, verify_zk_login_iff,
}
use brine_vault.Api.Guards.Authorised.{JwtPayload, bearer, auth_guard, auth_guard-after_logout}
use brine_vault.Api.Audit.{or_blank, has_char, Text, quote, comma, to_csv}
use brine_vault.Api.Audit.Csv.Lines.{NoNewline, read_csv, to_csv-read}
use brine_vault.Encryption.Engine.{WebCrypto, EncryptedBlob, aes_encrypt}
use brine_vault.Encryption.Engine.RoundTrip.{IsAead}
use brine_vault.Encryption.Hash.{buffer_to_hex, verify_hash}
use brine_vault.Encryption.Integrity.{verify_hash_iff}
use brine_vault.Encryption.Keys.{KeyRotationResult, rotate_key}
use brine_vault.Encryption.Keys.Rotation.{AllRead, rotate_key-reads}
use brine_vault.Sui.Builders.{hex_to_bytes}
use brine_vault.Sui.Hex.{hex_value}
use brine_vault.Web.Client.{
  ApiRequest, ApiClient, Outcome, Response, answered, parsed, unauthorised_error, api_call,
  refresh_call, syntax_error, network_error, fetch,
}
use brine_vault.Web.Client.Bounds.{Within, fetch-Within}

-- User 1 has switched in-app notifications off, user 2 has no preferences.
abbrev people : NotificationStore
people = record {
  users = 1 ∷ 2 ∷ [];
  pools = 7 ∷ [];
  documents = [];
  notifications = [];
  preferences =
      record { user_id = 1; email_enabled = true; in_app_enabled = false; preferences = [] } ∷ [];
  next_id = 0;
}

abbrev expired : DispatchPayload
expired = record {
  payload_type = subscription_expired;
  title = 3;
  body = none;
  recipient_user_ids = 9 ∷ 1 ∷ [];
  related_pool_id = none;
  related_document_id = none;
}

dispatch-mandatory_example : inbox_size 1 people < inbox_size 1 (dispatch expired people)
unfolding is_mandatory occurrences brine_vault.Db.Tables.any_row
dispatch-mandatory_example = dispatch-mandatory expired 1 people refl refl refl (omega arith)

abbrev muting : TypePreference
muting = record { email = none; in_app = some false }

abbrev mute_request : UpdatePreferencesDto
mute_request = record {
  email_enabled = none;
  in_app_enabled = none;
  preferences = (7, muting) ∷ [];
}

abbrev muted : NotificationStore
muted = record people {
  preferences =
      record {
        user_id = 2;
        email_enabled = true;
        in_app_enabled = true;
        preferences = (7, muting) ∷ [];
      }
      ∷ record { user_id = 1; email_enabled = true; in_app_enabled = false; preferences = [] }
      ∷ [];
}

abbrev uploaded_notice : DispatchPayload
uploaded_notice = record expired { payload_type = optional_type 4; recipient_user_ids = 2 ∷ 2 ∷ [] }

update_preferences-mutes_example :
    inbox_size 2 (dispatch uploaded_notice muted) ≡ inbox_size 2 muted
unfolding is_mandatory update_preferences get_entry brine_vault.Api.Notifications.upsert_preferences
    brine_vault.Api.Notifications.upsert_found brine_vault.Api.Notifications.find_preferences
    brine_vault.Db.Tables.find_row brine_vault.Db.Tables.any_row
    brine_vault.Api.Notifications.merge_entries brine_vault.Api.Notifications.set_entry
update_preferences-mutes_example =
    update_preferences-mutes 2 mute_request muting uploaded_notice people muted (refl, tt) refl refl
      refl refl

-- Two columns, of which the second needs quotes, then is null.
abbrev text_of : Option Text → Bool → Option Text
text_of e true = some (65 ∷ [])
text_of e false = e

abbrev column_name : Bool → Text
column_name true = 105 ∷ []
column_name false = 116 ∷ []

abbrev odd_text : Text
odd_text = 66 ∷ comma ∷ quote ∷ 67 ∷ []

-- The events of an export, by their second column.
data ExportedEvent : Type 0 where
  odd_event null_event : ExportedEvent

abbrev event_text : ExportedEvent → Bool → Option Text
event_text odd_event h = text_of (some odd_text) h
event_text null_event h = text_of none h

one_line : (e : ExportedEvent) (h : Bool) → NoNewline (or_blank (event_text e h))
unfolding has_char
one_line odd_event true = refl
one_line odd_event false = refl
one_line null_event true = refl
one_line null_event false = refl

to_csv-read_example :
    read_csv (to_csv event_text column_name (true ∷ false ∷ []) (odd_event ∷ null_event ∷ []))
    ≡ map column_name (true ∷ false ∷ [])
      ∷ map
          (λ e. map (λ x. or_blank (event_text e x)) (true ∷ false ∷ []))
          (odd_event ∷ null_event ∷ [])
unfolding has_char
to_csv-read_example =
    to_csv-read event_text column_name true (false ∷ []) odd_event (null_event ∷ [])
      ((refl, refl), ((refl, refl), tt)) one_line

-- A stand-in for Web Crypto with the laws: keys are numbers, a ciphertext is a tag and the plaintext.
abbrev first : List ℕ → Option ℕ
first [] = none
first (b ∷ bytes) = some b

abbrev toy_crypto : WebCrypto ℕ ℕ ℕ
toy_crypto = record {
  subtle_encrypt = λ iv key plaintext. replicate 16 key ++ plaintext;
  subtle_decrypt = λ iv key ciphertext. some (drop 16 ciphertext);
  import_spki = first;
  wrap_raw = λ seed key public_key. key ∷ [];
  unwrap_raw = λ wrapped private_key. first wrapped;
}

toy_crypto-IsAead : IsAead toy_crypto
toy_crypto-IsAead = (λ iv plaintext key. refl, λ iv plaintext key. omega arith)

abbrev two_members : List (List ℕ × ℕ)
two_members = (4 ∷ [], 1) ∷ (5 ∷ [], 2) ∷ []

rotate_key-reads_example :
    (result : KeyRotationResult ℕ) × (blob : EncryptedBlob) × (rotate_key toy_crypto
        (λ i. i)
        77
        (map (λ (m : List ℕ × ℕ). m.0) two_members)
      ≡ ok result)
    × (aes_encrypt toy_crypto (λ i. i) (8 ∷ 9 ∷ []) result.new_key ≡ ok blob)
    × AllRead toy_crypto blob (8 ∷ 9 ∷ []) two_members result.encrypted_keys_for_members
rotate_key-reads_example =
    rotate_key-reads toy_crypto (λ i. i) (λ i. i) 77 (4 ∷ [], 1) ((5 ∷ [], 2) ∷ []) (8 ∷ 9 ∷ [])
      toy_crypto-IsAead ((4, refl, λ seed key. refl), ((5, refl, λ seed key. refl), tt))

abbrev toy_digest : List ℕ → List ℕ
toy_digest bytes = length bytes ∷ 255 ∷ []

verify_hash_iff_example :
    ((verify_hash toy_digest (8 ∷ 9 ∷ []) (buffer_to_hex (2 ∷ 255 ∷ [])) ≡ true)
      ↔ (toy_digest (8 ∷ 9 ∷ []) ≡ 2 ∷ 255 ∷ []))
    × (hex_to_bytes (map hex_value (buffer_to_hex (2 ∷ 255 ∷ []))) ≡ 2 ∷ 255 ∷ [])
verify_hash_iff_example =
    verify_hash_iff toy_digest (8 ∷ 9 ∷ []) (2 ∷ 255 ∷ []) (omega arith, (omega arith, tt))
      (omega arith, (omega arith, tt))

abbrev fresh_client : ApiClient
fresh_client = record { token = some 1; sent = []; next = 0; waits = []; unauthorised = 0 }

abbrev list_request : ApiRequest
list_request = record { method = 0; path = 1; body = none }

-- A network that fails, then answers 401, renews the token, and answers 401 again.
abbrev network : ℕ → Outcome
network n =
    if n == 0
    then network_error
    else if n == 2
    then answered (record {
      status = 200;
      json = parsed (record { content = 0; message = none; code = none; access_token = 6 });
    })
    else answered (record { status = 401; json = syntax_error })

fetch-Within_example : Within 9 1 fresh_client (fetch network list_request fresh_client).1
fetch-Within_example = fetch-Within network list_request fresh_client

-- The new token is in the last request, and the second 401 ends the call.
fetch_test : fetch network list_request fresh_client ≡ (
  err unauthorised_error,
  record {
    token = some 6;
    sent =
        api_call list_request (some 6)
        ∷ refresh_call (some 1)
        ∷ api_call list_request (some 1)
        ∷ api_call list_request (some 1)
        ∷ [];
    next = 4;
    waits = 2000 ∷ [];
    unauthorised = 1;
  },
)
unfolding fetch brine_vault.Web.Client.attempt_loop brine_vault.Web.Client.on_outcome
    brine_vault.Web.Client.on_response brine_vault.Web.Client.refresh_and_retry
    brine_vault.Web.Client.after_refresh brine_vault.Web.Client.attempt_refresh
    brine_vault.Web.Client.on_refreshed brine_vault.Web.Client.on_token
    brine_vault.Web.Client.fetch_again
fetch_test = refl

abbrev nobody : AuthStore
nobody = record { challenges = []; sessions = []; blacklist = []; users = []; next_user_id = 3 }

abbrev zk_draw : Draw
zk_draw = record { now = 10; new_sid = 5; new_token = 6 }

abbrev claimed : ZkLoginRequest
claimed = record {
  jwt = 40;
  zk_proof = record { a_length = 1; b_length = 1; c_length = 1 };
  max_epoch = 105;
  salt = 2;
}

abbrev issued : ℕ → Option DecodedJwt
issued j = some (record { has_iss = true; has_sub = true })

abbrev derived : ℕ → ℕ → Option ℕ
derived jwt salt = some (jwt + salt)

abbrev zk_login : Result ZkError Tokens × AuthStore
zk_login = (
  ok (start_session (λ h. h) zk_draw 42 0 0 nobody).0,
  (start_session (λ h. h) zk_draw 42 0 0 nobody).1,
)

verify_zk_login_iff_example :
    (verify_zk_login issued derived (λ h. h) zk_draw claimed (epoch 100) 0 0 nobody ≡ zk_login) ↔ (
      (address : ℕ) × Accepts issued derived (λ h. h) claimed (epoch 100) address
      × (start_session (λ h. h) zk_draw address 0 0 nobody
          ≡ start_session (λ h. h) zk_draw 42 0 0 nobody))
verify_zk_login_iff_example =
    verify_zk_login_iff issued derived (λ h. h) zk_draw claimed (epoch 100) 0 0 nobody
      (start_session (λ h. h) zk_draw 42 0 0 nobody).1
      (start_session (λ h. h) zk_draw 42 0 0 nobody).0

abbrev payload : JwtPayload
payload = record {
  claims = record { sub = 1; claim_address = 9; claim_org_id = none; org_role = 0; sid = 5 };
  jti = 8;
}

abbrev signed_in : AuthStore
signed_in = create_session 10 5 1 9 none 6 0 0 nobody

auth_guard_test :
    auth_guard (λ now token. some payload) 20 false (some (bearer (some 3))) signed_in
    ≡ ok (some payload)
unfolding auth_guard brine_vault.Api.Guards.Authorised.extract_token
    brine_vault.Api.Session.is_token_blacklisted brine_vault.Api.Session.redis_get create_session
    brine_vault.Api.Session.get_session brine_vault.Api.Session.redis_set
auth_guard_test = refl

auth_guard-after_logout_example :
    auth_guard
      (λ now token. some payload)
      20
      false
      (some (bearer (some 3)))
      (logout 15 5 8 900 signed_in)
    ≢ ok (some payload)
auth_guard-after_logout_example =
    auth_guard-after_logout (λ now token. some payload) 15 20 5 8 900 3 payload payload signed_in
      refl refl
