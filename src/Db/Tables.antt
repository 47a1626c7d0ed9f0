-- ===== src/Db/Tables.antt =====
-- Rows, tables and the statements on them: packages/db/src/schema/*.ts.
use brine_vault.Base.{
  ℕ, Option, none, some, List, [], ◌∷◌, Bool, true, false, ◌||◌, if◌then◌else◌, Result, ok, err,
}

pub record PoolRow : Type 0 where
  pub id : ℕ
  pub sui_object_id : ℕ
  pub org_id : ℕ
  pub name : ℕ
  pub current_state : ℕ
  pub encryption_scheme : ℕ
  pub created_by_address : ℕ
  pub sui_tx_digest : ℕ
  pub last_updated_at : ℕ

pub record DataroomRow : Type 0 where
  pub id : ℕ
  pub sui_object_id : ℕ
  pub pool_id : ℕ
  pub owner_address : ℕ

pub record MemberRow : Type 0 where
  pub dataroom_id : ℕ
  pub pool_id : ℕ
  pub member_address : ℕ
  pub role : ℕ
  pub is_active : Bool
  pub revoked_at : Option ℕ
  pub added_by_address : ℕ
  pub added_at : ℕ

pub record DocumentRow : Type 0 where
  pub id : ℕ
  pub sui_object_id : ℕ
  pub pool_id : ℕ
  pub dataroom_id : ℕ
  pub folder_id : ℕ
  pub doc_type : ℕ
  pub title : ℕ
  pub current_version : ℕ
  pub version_count : ℕ
  pub encryption_scheme : ℕ
  pub last_updated_at : ℕ

pub record VersionRow : Type 0 where
  pub document_id : ℕ
  pub version : ℕ
  pub walrus_blob_id : ℕ
  pub content_hash : ℕ
  pub uploaded_by_address : ℕ

pub record ReviewRow : Type 0 where
  pub document_id : ℕ
  pub reviewer_address : ℕ
  pub status : ℕ
  pub comment_hash : Option ℕ
  pub reviewed_at : ℕ

pub record DecisionRow : Type 0 where
  pub pool_id : ℕ
  pub decision_index : ℕ
  pub decision_type : ℕ
  pub created_by_address : ℕ

-- The kinds of audit rows; a generic one carries its action type.
pub data AuditType : Type 0 where
  pool_created pool_state_changed data_room_created member_added member_removed : AuditType
  member_role_updated document_created document_version_added document_reviewed : AuditType
  ic_decision_created : AuditType
  audit_event : ℕ → AuditType

pub record AuditRow : Type 0 where
  pub pool_id : Option ℕ
  pub event_type : AuditType
  pub actor_address : ℕ
  pub target_id : Option ℕ
  pub sui_tx_digest : ℕ
  pub sui_event_seq : ℕ

pub data CacheKey : Type 0 where
  pool_key : ℕ → CacheKey
  members_key : ℕ → CacheKey

-- The tables, the ids of the organisations, the next row id, and the keys that the cache holds,
-- where there is a cache.
pub record Store : Type 0 where
  pub pools : List PoolRow
  pub datarooms : List DataroomRow
  pub members : List MemberRow
  pub documents : List DocumentRow
  pub versions : List VersionRow
  pub reviews : List ReviewRow
  pub decisions : List DecisionRow
  pub audits : List AuditRow
  pub organizations : List ℕ
  pub next_id : ℕ
  pub cache : Option (List CacheKey)

pub data DbError : Type 0 where
  check_violation : DbError
  foreign_key_violation : DbError
  not_null_violation : DbError
  unique_violation : DbError

-- A statement or a sequence of statements: it may throw, and what it wrote before stays.
abbrev pub Action : Type 0
Action = Store → Result DbError (Unit {0}) × Store

abbrev pub done : Action
done s = (ok tt, s)

abbrev pub continue : Result DbError (Unit {0}) × Store → Action → Result DbError (Unit {0}) × Store
continue (ok u, s) next = next s
continue (err e, s) next = (err e, s)

infixr 5 ◌⨾◌
unfoldable pub ◌⨾◌ : Action → Action → Action
(first ⨾ next) s = continue (first s) next

-- A statement under a constraint.
unfoldable pub checked : Bool → DbError → Action → Action
checked true e statement s = statement s
checked false e statement s = (err e, s)

module _ {A : Type 0} where
  unfoldable pub any_row : (A → Bool) → List A → Bool
  any_row p [] = false
  any_row p (r ∷ rs) = p r || any_row p rs

  -- `select ... where ... limit 1`, then `rows[0] ?? null`.
  unfoldable pub find_row : (A → Bool) → List A → Option A
  find_row p [] = none
  find_row p (r ∷ rs) = if p r then some r else find_row p rs

  unfoldable pub rows_where : (A → Bool) → List A → List A
  rows_where p [] = []
  rows_where p (r ∷ rs) = if p r then r ∷ rows_where p rs else rows_where p rs

  abbrev pub set_where : (A → Bool) → (A → A) → A → A
  set_where p f r = if p r then f r else r

  -- `update ... set ... where ...`.
  unfoldable pub update_rows : (A → Bool) → (A → A) → List A → List A
  update_rows p f [] = []
  update_rows p f (r ∷ rs) = set_where p f r ∷ update_rows p f rs

  -- `insert ... on conflict do nothing`, for the rows with the same unique key.
  unfoldable pub insert_new : (A → A → Bool) → A → List A → List A
  insert_new same r rs = if any_row (same r) rs then rs else r ∷ rs

  -- `insert ... on conflict do update`.
  unfoldable pub upsert_row : (A → A → Bool) → (A → A) → A → List A → List A
  upsert_row same f r rs = if any_row (same r) rs then update_rows (same r) f rs else r ∷ rs
