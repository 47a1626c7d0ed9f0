-- ===== src/Db/Listing.antt =====
-- Listings of the repositories: packages/db/src/repositories. A table holds its newest row first,
-- which is the order of `desc(createdAt)`, and of `desc(timestamp)` for the audit rows: both columns
-- take the time of the insertion.
pub mod Order
use brine_vault.Base.{
  ℕ, List, [], ◌∷◌, length, take, drop, Bool, ◌==◌, ◌&&◌, leb, if◌then◌else◌, Option, none, some,
  false,
}
use brine_vault.Db.Tables.{
  PoolRow, DataroomRow, MemberRow, DocumentRow, VersionRow, ReviewRow, DecisionRow, AuditRow, Store,
  find_row, rows_where,
}

module _ {A : Type 0} where
  -- `.limit(limit).offset(offset)`.
  abbrev pub limit_offset : ℕ → ℕ → List A → List A
  limit_offset limit offset rows = take limit (drop offset rows)

  unfoldable pub insert_by : (A → ℕ) → A → List A → List A
  insert_by key r [] = r ∷ []
  insert_by key r (x ∷ rows) =
      let rest = insert_by key r rows in if leb (key r) (key x) then r ∷ x ∷ rows else x ∷ rest

  -- `.orderBy(column)`, ascending.
  unfoldable pub order_by : (A → ℕ) → List A → List A
  order_by key [] = []
  order_by key (r ∷ rows) = insert_by key r (order_by key rows)

-- PoolsRepository.
abbrev pub pools_of : ℕ → Store → List PoolRow
pools_of org_id s = rows_where (λ p. p.org_id == org_id) s.pools

unfoldable pub find_pools_by_org : ℕ → ℕ → ℕ → Store → List PoolRow
find_pools_by_org org_id limit offset s = limit_offset limit offset (pools_of org_id s)

unfoldable pub count_pools_by_org : ℕ → Store → ℕ
count_pools_by_org org_id s = length (pools_of org_id s)

-- DocumentsRepository.
abbrev pub documents_of : ℕ → Store → List DocumentRow
documents_of pool_id s = rows_where (λ d. d.pool_id == pool_id) s.documents

unfoldable pub find_documents_by_pool : ℕ → ℕ → ℕ → Store → List DocumentRow
find_documents_by_pool pool_id limit offset s = limit_offset limit offset (documents_of pool_id s)

unfoldable pub count_documents_by_pool : ℕ → Store → ℕ
count_documents_by_pool pool_id s = length (documents_of pool_id s)

-- DocumentVersionsRepository.
unfoldable pub find_versions : ℕ → Store → List VersionRow
find_versions document_id s =
    order_by (λ (v : VersionRow). v.version)
      (rows_where (λ v. v.document_id == document_id) s.versions)

unfoldable pub find_version : ℕ → ℕ → Store → Option VersionRow
find_version document_id version s =
    find_row (λ v. (v.document_id == document_id) && (v.version == version)) s.versions

-- DocumentReviewsRepository.
unfoldable pub find_reviews : ℕ → Store → List ReviewRow
find_reviews document_id s = rows_where (λ r. r.document_id == document_id) s.reviews

-- ICDecisionsRepository.
unfoldable pub find_decisions : ℕ → Store → List DecisionRow
find_decisions pool_id s =
    order_by (λ (d : DecisionRow). d.decision_index)
      (rows_where (λ d. d.pool_id == pool_id) s.decisions)

unfoldable pub find_decision : ℕ → ℕ → Store → Option DecisionRow
find_decision pool_id index s =
    find_row (λ d. (d.pool_id == pool_id) && (d.decision_index == index)) s.decisions

-- AuditEventsRepository.
abbrev pub is_of : Option ℕ → ℕ → Bool
is_of none id = false
is_of (some other) id = other == id

abbrev pub audits_of : ℕ → Store → List AuditRow
audits_of pool_id s = rows_where (λ a. is_of a.pool_id pool_id) s.audits

unfoldable pub find_audits_by_pool : ℕ → ℕ → ℕ → Store → List AuditRow
find_audits_by_pool pool_id limit offset s = limit_offset limit offset (audits_of pool_id s)

unfoldable pub find_audits_by_actor : ℕ → ℕ → ℕ → Store → List AuditRow
find_audits_by_actor actor limit offset s =
    limit_offset limit offset (rows_where (λ a. a.actor_address == actor) s.audits)
