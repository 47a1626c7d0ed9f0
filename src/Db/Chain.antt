-- ===== src/Db/Chain.antt =====
-- The repositories of the tables that mirror the chain: packages/db/src/repositories.
use brine_vault.Base.{
  ℕ, suc, Option, none, some, List, Bool, true, false, ◌||◌, ◌&&◌, ◌==◌, leb, ltb, if◌then◌else◌,
}
use brine_vault.Db.Tables.{
  PoolRow, DataroomRow, MemberRow, DocumentRow, VersionRow, ReviewRow, DecisionRow, AuditRow, Store,
  Action, check_violation, foreign_key_violation, done, checked, any_row, find_row, rows_where,
  update_rows, insert_new, upsert_row,
}

-- The unique keys.
abbrev pub same_pool : PoolRow → PoolRow → Bool
same_pool a b = a.sui_object_id == b.sui_object_id

abbrev pub same_dataroom : DataroomRow → DataroomRow → Bool
same_dataroom a b = a.sui_object_id == b.sui_object_id

abbrev pub same_member : MemberRow → MemberRow → Bool
same_member a b = (a.dataroom_id == b.dataroom_id) && (a.member_address == b.member_address)

abbrev pub same_document : DocumentRow → DocumentRow → Bool
same_document a b = a.sui_object_id == b.sui_object_id

abbrev pub same_version : VersionRow → VersionRow → Bool
same_version a b = (a.document_id == b.document_id) && (a.version == b.version)

abbrev pub same_review : ReviewRow → ReviewRow → Bool
same_review a b = (a.document_id == b.document_id) && (a.reviewer_address == b.reviewer_address)

abbrev pub same_decision : DecisionRow → DecisionRow → Bool
same_decision a b = (a.pool_id == b.pool_id) && (a.decision_index == b.decision_index)

abbrev pub same_audit : AuditRow → AuditRow → Bool
same_audit a b = (a.sui_tx_digest == b.sui_tx_digest) && (a.sui_event_seq == b.sui_event_seq)

-- PoolsRepository.
unfoldable pub find_pool_by_sui : ℕ → Store → Option PoolRow
find_pool_by_sui sui s = find_row (λ r. r.sui_object_id == sui) s.pools

unfoldable pub find_pool : ℕ → Store → Option PoolRow
find_pool id s = find_row (λ r. r.id == id) s.pools

unfoldable pub insert_pool : (ℕ → PoolRow) → Action
insert_pool row s =
    let r = row s.next_id in
    checked (leb r.current_state 8 && leb r.encryption_scheme 1) check_violation
      (checked (any_row (same_pool r) s.pools || any_row (λ o. o == r.org_id) s.organizations)
        foreign_key_violation
        (λ s'.
          done (record s' { pools = insert_new same_pool r s'.pools; next_id = suc s'.next_id })))
      s

unfoldable pub update_state : ℕ → ℕ → ℕ → ℕ → Action
update_state sui new_state tx_digest now s =
    let mine : PoolRow → Bool = λ r. r.sui_object_id == sui in
    checked (leb new_state 8 || (if any_row mine s.pools then false else true)) check_violation
      (λ s'. done (record s' {
        pools =
            update_rows mine
              (λ r. record r {
                current_state = new_state;
                last_updated_at = now;
                sui_tx_digest = tx_digest;
              })
              s'.pools;
      }))
      s

-- DataroomsRepository.
unfoldable pub find_dataroom_by_sui : ℕ → Store → Option DataroomRow
find_dataroom_by_sui sui s = find_row (λ r. r.sui_object_id == sui) s.datarooms

unfoldable pub find_dataroom_by_pool : ℕ → Store → Option DataroomRow
find_dataroom_by_pool pool_id s = find_row (λ r. r.pool_id == pool_id) s.datarooms

unfoldable pub insert_dataroom : (ℕ → DataroomRow) → Action
insert_dataroom row s =
    let r = row s.next_id in
    checked (any_row (same_dataroom r) s.datarooms || any_row (λ p. p.id == r.pool_id) s.pools)
      foreign_key_violation
      (λ s'. done (record s' {
        datarooms = insert_new same_dataroom r s'.datarooms;
        next_id = suc s'.next_id;
      }))
      s

-- MembersRepository.
unfoldable pub find_member : ℕ → ℕ → Store → Option MemberRow
find_member dataroom_id address s =
    find_row (λ r. (r.dataroom_id == dataroom_id) && (r.member_address == address)) s.members

unfoldable pub find_active_members : ℕ → Store → List MemberRow
find_active_members pool_id s = rows_where (λ r. (r.pool_id == pool_id) && r.is_active) s.members

abbrev pub is_role : ℕ → Bool
is_role role = ltb 0 role && leb role 63

unfoldable pub upsert_member : MemberRow → ℕ → Action
upsert_member row now = checked (is_role row.role) check_violation (λ s. done (record s {
  members =
      upsert_row same_member
        (λ r. record r {
          role = row.role;
          is_active = true;
          revoked_at = none;
          added_by_address = row.added_by_address;
          added_at = now;
        })
        row s.members;
}))

unfoldable pub deactivate : ℕ → ℕ → ℕ → Action
deactivate dataroom_id address now s = done (record s {
  members =
      update_rows (λ r. (r.dataroom_id == dataroom_id) && (r.member_address == address))
        (λ r. record r { is_active = false; revoked_at = some now }) s.members;
})

unfoldable pub update_role : ℕ → ℕ → ℕ → Action
update_role dataroom_id address new_role s =
    let mine : MemberRow → Bool =
      λ r. (r.dataroom_id == dataroom_id) && (r.member_address == address) in
    checked (is_role new_role || (if any_row mine s.members then false else true)) check_violation
      (λ s'.
        done
          (record s' { members = update_rows mine (λ r. record r { role = new_role }) s'.members }))
      s

-- DocumentsRepository.
unfoldable pub find_document_by_sui : ℕ → Store → Option DocumentRow
find_document_by_sui sui s = find_row (λ r. r.sui_object_id == sui) s.documents

unfoldable pub find_document : ℕ → Store → Option DocumentRow
find_document id s = find_row (λ r. r.id == id) s.documents

unfoldable pub insert_document : DocumentRow → Action
insert_document r = checked (leb r.encryption_scheme 1) check_violation (λ s.
    done (record s { documents = insert_new same_document r s.documents; next_id = suc s.next_id }))

unfoldable pub update_version_info : ℕ → ℕ → ℕ → Action
update_version_info sui version now s = done (record s {
  documents =
      update_rows (λ r. r.sui_object_id == sui)
        (λ r. record r {
          current_version = version;
          version_count = suc r.version_count;
          last_updated_at = now;
        })
        s.documents;
})

-- DocumentVersionsRepository.
unfoldable pub insert_version : VersionRow → Action
insert_version r =
    checked (ltb 0 r.version) check_violation
      (λ s. done (record s { versions = insert_new same_version r s.versions }))

-- DocumentReviewsRepository.
unfoldable pub upsert_review : ReviewRow → ℕ → Action
upsert_review row now = checked (leb row.status 2) check_violation (λ s. done (record s {
  reviews =
      upsert_row same_review
        (λ r. record r { status = row.status; comment_hash = row.comment_hash; reviewed_at = now })
        row s.reviews;
}))

-- ICDecisionsRepository.
unfoldable pub insert_decision : DecisionRow → Action
insert_decision r s = done (record s { decisions = insert_new same_decision r s.decisions })

-- AuditEventsRepository.
unfoldable pub insert_audit : AuditRow → Action
insert_audit r s = done (record s { audits = insert_new same_audit r s.audits })

unfoldable pub exists_by_tx_seq : ℕ → ℕ → Store → Bool
exists_by_tx_seq tx seq_ s =
    any_row (λ r. (r.sui_tx_digest == tx) && (r.sui_event_seq == seq_)) s.audits
