-- ===== src/Indexer/Handlers.antt =====
-- The event handlers: apps/indexer/src/event-handlers/handlers.ts and index.ts. An event carries
-- the fields of its Move struct that the handler reads.
use brine_vault.Base.{ℕ, Option, none, some, List, Bool, true, false, not, ◌==◌, if◌then◌else◌}
use brine_vault.Db.Tables.{
  PoolRow, DocumentRow, AuditType, pool_created, pool_state_changed, data_room_created,
  member_added, member_removed, member_role_updated, document_created, document_version_added,
  document_reviewed, ic_decision_created, audit_event, CacheKey, pool_key, members_key, Action,
  done, ◌⨾◌, any_row, rows_where,
}
use brine_vault.Db.Chain.{
  same_document, find_pool_by_sui, insert_pool, update_state, find_dataroom_by_sui,
  find_dataroom_by_pool, insert_dataroom, upsert_member, deactivate, update_role,
  find_document_by_sui, insert_document, update_version_info, insert_version, upsert_review,
  insert_decision, insert_audit,
}

pub data Event : Type 0 where
  -- pool_id, name, encryption_scheme, created_by
  pool_created_event : ℕ → ℕ → Option ℕ → ℕ → Event
  -- pool_id, from_state, to_state, actor
  pool_state_event : ℕ → ℕ → ℕ → ℕ → Event
  -- dataroom_id, pool_id, owner
  dataroom_created_event : ℕ → ℕ → ℕ → Event
  -- dataroom_id, member, role, added_by
  member_added_event : ℕ → ℕ → ℕ → ℕ → Event
  -- dataroom_id, member, removed_by
  member_removed_event : ℕ → ℕ → ℕ → Event
  -- dataroom_id, member, old_role, new_role, actor
  member_role_event : ℕ → ℕ → ℕ → ℕ → ℕ → Event
  -- doc_id, pool_id, folder_id, doc_type, title, version, blob_id, content_hash, uploader
  document_created_event : ℕ → ℕ → ℕ → Option ℕ → ℕ → Option ℕ → ℕ → ℕ → ℕ → Event
  -- doc_id, version, blob_id, content_hash, uploader
  version_added_event : ℕ → ℕ → ℕ → ℕ → ℕ → Event
  -- doc_id, reviewer, status
  document_reviewed_event : ℕ → ℕ → ℕ → Event
  -- pool_id, decision_index, decision_type, created_by
  ic_decision_event : ℕ → ℕ → ℕ → ℕ → Event
  -- pool_id, action_type, actor, target_id
  generic_audit_event : ℕ → ℕ → ℕ → Option ℕ → Event
  -- The types that have no handler.
  pool_cancelled_event document_archived_event folder_created_event : Event
  folder_key_stored_event admin_pause_toggled_event : Event

-- The context of one event: its transaction, its sequence number and the time of the handler.
pub record EventContext : Type 0 where
  pub tx_digest : ℕ
  pub event_seq : ℕ
  pub now : ℕ

-- `value ?? otherwise`.
abbrev pub value_or : Option ℕ → ℕ → ℕ
value_or none otherwise = otherwise
value_or (some n) otherwise = n

-- The placeholder "00000000-0000-0000-0000-000000000000".
abbrev pub nil_id : ℕ
nil_id = 0

abbrev pub same_key : CacheKey → CacheKey → Bool
same_key (pool_key a) (pool_key b) = a == b
same_key (pool_key a) (members_key b) = false
same_key (members_key a) (pool_key b) = false
same_key (members_key a) (members_key b) = a == b

-- `redis.del(key)`; nothing without a cache.
abbrev pub remove_key : CacheKey → Option (List CacheKey) → Option (List CacheKey)
remove_key k none = none
remove_key k (some keys) = some (rows_where (λ x. not (same_key k x)) keys)

unfoldable pub invalidate_pool : ℕ → Action
invalidate_pool pool_id s = done (record s { cache = remove_key (pool_key pool_id) s.cache })

unfoldable pub invalidate_members : ℕ → Action
invalidate_members pool_id s = done (record s { cache = remove_key (members_key pool_id) s.cache })

abbrev pub audit : EventContext → Option ℕ → AuditType → ℕ → Option ℕ → Action
audit ctx pool_id type_ actor target = insert_audit (record {
  pool_id = pool_id;
  event_type = type_;
  actor_address = actor;
  target_id = target;
  sui_tx_digest = ctx.tx_digest;
  sui_event_seq = ctx.event_seq;
})

-- `if (!row) return;`.
abbrev pub when_found : {A : Type 0} → Option A → (A → Action) → Action
when_found none f = done
when_found (some a) f = f a

abbrev pub pool_id_of : Option PoolRow → Option ℕ
pool_id_of none = none
pool_id_of (some p) = some p.id

unfoldable pub handle_pool_created : EventContext → ℕ → ℕ → Option ℕ → ℕ → Action
handle_pool_created ctx pool_id name scheme created_by =
    insert_pool (λ id. record {
      id = id;
      sui_object_id = pool_id;
      org_id = nil_id;
      name = name;
      current_state = 0;
      encryption_scheme = value_or scheme 0;
      created_by_address = created_by;
      sui_tx_digest = ctx.tx_digest;
      last_updated_at = ctx.now;
    })
    ⨾ audit ctx none pool_created created_by (some pool_id)
    ⨾ invalidate_pool pool_id

unfoldable pub handle_pool_state_changed : EventContext → ℕ → ℕ → ℕ → ℕ → Action
handle_pool_state_changed ctx pool_id from_state to_state actor =
    update_state pool_id to_state ctx.tx_digest ctx.now
    ⨾ audit ctx none pool_state_changed actor (some pool_id)
    ⨾ invalidate_pool pool_id

unfoldable pub handle_dataroom_created : EventContext → ℕ → ℕ → ℕ → Action
handle_dataroom_created ctx dataroom_id pool_id owner s =
    let pool = pool_id_of (find_pool_by_sui pool_id s) in
    (insert_dataroom (λ id. record {
      id = id;
      sui_object_id = dataroom_id;
      pool_id = value_or pool nil_id;
      owner_address = owner;
    })
        ⨾ audit ctx pool data_room_created owner (some dataroom_id))
      s

unfoldable pub handle_member_added : EventContext → ℕ → ℕ → ℕ → ℕ → Action
handle_member_added ctx dataroom_id member role added_by s =
    when_found (find_dataroom_by_sui dataroom_id s)
      (λ room.
        upsert_member
          (record {
            dataroom_id = room.id;
            pool_id = room.pool_id;
            member_address = member;
            role = role;
            is_active = true;
            revoked_at = none;
            added_by_address = added_by;
            added_at = ctx.now;
          })
          ctx.now
        ⨾ audit ctx (some room.pool_id) member_added added_by (some member)
        ⨾ invalidate_members room.pool_id)
      s

unfoldable pub handle_member_removed : EventContext → ℕ → ℕ → ℕ → Action
handle_member_removed ctx dataroom_id member removed_by s =
    when_found (find_dataroom_by_sui dataroom_id s)
      (λ room.
        deactivate room.id member ctx.now
        ⨾ audit ctx (some room.pool_id) member_removed removed_by (some member)
        ⨾ invalidate_members room.pool_id)
      s

unfoldable pub handle_member_role_updated : EventContext → ℕ → ℕ → ℕ → ℕ → ℕ → Action
handle_member_role_updated ctx dataroom_id member old_role new_role actor s =
    when_found (find_dataroom_by_sui dataroom_id s)
      (λ room.
        update_role room.id member new_role
        ⨾ audit ctx (some room.pool_id) member_role_updated actor (some member)
        ⨾ invalidate_members room.pool_id)
      s

-- `if (doc) await versionRepo.insertFromEvent(...)`: only if the document row is new.
unfoldable pub insert_document_with_version : DocumentRow → ℕ → ℕ → ℕ → ℕ → Action
insert_document_with_version doc version blob_id hash uploader s =
    let known = any_row (same_document doc) s.documents in
    (insert_document doc
        ⨾ (if known
            then done
            else insert_version (record {
              document_id = doc.id;
              version = version;
              walrus_blob_id = blob_id;
              content_hash = hash;
              uploaded_by_address = uploader;
            })))
      s

unfoldable pub handle_document_created :
    EventContext → ℕ → ℕ → ℕ → Option ℕ → ℕ → Option ℕ → ℕ → ℕ → ℕ → Action
handle_document_created ctx doc_id pool_id folder_id doc_type title version blob_id hash uploader
      s =
    when_found (find_pool_by_sui pool_id s)
      (λ pool. when_found (find_dataroom_by_pool pool.id s) (λ room.
        insert_document_with_version
          (record {
            id = s.next_id;
            sui_object_id = doc_id;
            pool_id = pool.id;
            dataroom_id = room.id;
            folder_id = folder_id;
            doc_type = value_or doc_type 0;
            title = title;
            current_version = value_or version 1;
            version_count = 1;
            encryption_scheme = pool.encryption_scheme;
            last_updated_at = ctx.now;
          })
          (value_or version 1) blob_id hash uploader
        ⨾ audit ctx (some pool.id) document_created uploader (some doc_id)
        ⨾ invalidate_pool pool.id))
      s

unfoldable pub handle_document_version_added : EventContext → ℕ → ℕ → ℕ → ℕ → ℕ → Action
handle_document_version_added ctx doc_id version blob_id hash uploader s =
    when_found (find_document_by_sui doc_id s)
      (λ doc.
        insert_version (record {
          document_id = doc.id;
          version = version;
          walrus_blob_id = blob_id;
          content_hash = hash;
          uploaded_by_address = uploader;
        })
        ⨾ update_version_info doc_id version ctx.now
        ⨾ audit ctx (some doc.pool_id) document_version_added uploader (some doc_id)
        ⨾ invalidate_pool doc.pool_id)
      s

unfoldable pub handle_document_reviewed : EventContext → ℕ → ℕ → ℕ → Action
handle_document_reviewed ctx doc_id reviewer status s =
    when_found (find_document_by_sui doc_id s)
      (λ doc.
        upsert_review
          (record {
            document_id = doc.id;
            reviewer_address = reviewer;
            status = status;
            comment_hash = none;
            reviewed_at = ctx.now;
          })
          ctx.now
        ⨾ audit ctx (some doc.pool_id) document_reviewed reviewer (some doc_id))
      s

unfoldable pub handle_ic_decision_created : EventContext → ℕ → ℕ → ℕ → ℕ → Action
handle_ic_decision_created ctx pool_id decision_index decision_type created_by s =
    when_found (find_pool_by_sui pool_id s)
      (λ pool.
        insert_decision (record {
          pool_id = pool.id;
          decision_index = decision_index;
          decision_type = decision_type;
          created_by_address = created_by;
        })
        ⨾ audit ctx (some pool.id) ic_decision_created created_by none
        ⨾ invalidate_pool pool.id)
      s

unfoldable pub handle_audit_event : EventContext → ℕ → ℕ → ℕ → Option ℕ → Action
handle_audit_event ctx pool_id action_type actor target s =
    audit ctx (pool_id_of (find_pool_by_sui pool_id s)) (audit_event action_type) actor target s

-- `buildEventHandlerMap`: the handler of an event, if its type has one.
unfoldable pub handler_of : Event → Option (EventContext → Action)
handler_of (pool_created_event p n e c) = some (λ ctx. handle_pool_created ctx p n e c)
handler_of (pool_state_event p f t a) = some (λ ctx. handle_pool_state_changed ctx p f t a)
handler_of (dataroom_created_event d p o) = some (λ ctx. handle_dataroom_created ctx d p o)
handler_of (member_added_event d m r a) = some (λ ctx. handle_member_added ctx d m r a)
handler_of (member_removed_event d m r) = some (λ ctx. handle_member_removed ctx d m r)
handler_of (member_role_event d m o n a) = some (λ ctx. handle_member_role_updated ctx d m o n a)
handler_of (document_created_event d p f t n v b h u) =
    some (λ ctx. handle_document_created ctx d p f t n v b h u)
handler_of (version_added_event d v b h u) =
    some (λ ctx. handle_document_version_added ctx d v b h u)
handler_of (document_reviewed_event d r s) = some (λ ctx. handle_document_reviewed ctx d r s)
handler_of (ic_decision_event p i t c) = some (λ ctx. handle_ic_decision_created ctx p i t c)
handler_of (generic_audit_event p t a g) = some (λ ctx. handle_audit_event ctx p t a g)
handler_of pool_cancelled_event = none
handler_of document_archived_event = none
handler_of folder_created_event = none
handler_of folder_key_stored_event = none
handler_of admin_pause_toggled_event = none
