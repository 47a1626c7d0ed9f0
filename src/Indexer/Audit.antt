-- ===== src/Indexer/Audit.antt =====
-- The audit log through the handlers and batches of apps/indexer/src.
use brine_vault.Base.{
  ℕ, Option, none, some, List, [], ◌∷◌, Result, ok, err, if-elim, length, ◌+◌, suc, arith,
}
use brine_vault.Db.Tables.{
  Store, Action, DbError, done, ◌⨾◌, AuditType, AuditRow, any_row, DocumentRow,
}
use brine_vault.Db.Chain.{
  find_pool_by_sui, find_dataroom_by_sui, find_dataroom_by_pool, find_document_by_sui,
  same_document,
}
use brine_vault.Db.AuditLog.{
  Extends, same-Extends, Extends-Extends, Extends-weaken, Adds, done-Adds, ⨾-Adds, insert_pool-Adds,
  update_state-Adds, insert_dataroom-Adds, upsert_member-Adds, deactivate-Adds, update_role-Adds,
  insert_document-Adds, update_version_info-Adds, insert_version-Adds, upsert_review-Adds,
  insert_decision-Adds, insert_audit-Adds,
}
use brine_vault.Indexer.Handlers
use brine_vault.Indexer.Loop.{
  SuiEvent, is_duplicate, context_of, run_handler, after_event, process_batch,
}

invalidate_pool-Adds : (p : ℕ) → Adds 0 (Handlers.invalidate_pool p)
unfolding Handlers.invalidate_pool
invalidate_pool-Adds p s = same-Extends 0 s.audits

invalidate_members-Adds : (p : ℕ) → Adds 0 (Handlers.invalidate_members p)
unfolding Handlers.invalidate_members
invalidate_members-Adds p s = same-Extends 0 s.audits

audit-Adds :
    (ctx : Handlers.EventContext) (p : Option ℕ) (t : AuditType) (a : ℕ) (g : Option ℕ)
    → Adds 1 (Handlers.audit ctx p t a g)
audit-Adds ctx p t a g = insert_audit-Adds _

none-Adds : Adds 1 done
none-Adds s = same-Extends 1 s.audits

when_found-Adds :
    {A : Type 0} (o : Option A) (f : A → Action)
    → ((a : A) → Adds 1 (f a))
    → Adds 1 (Handlers.when_found o f)
when_found-Adds none f h = none-Adds
when_found-Adds (some a) f h = h a

-- A write, its audit row and the cache, as most handlers end.
logged-Adds : (a b c : Action) → Adds 0 a → Adds 1 b → Adds 0 c → Adds 1 (a ⨾ b ⨾ c)
logged-Adds a b c ka kb kc = ⨾-Adds 0 1 a (b ⨾ c) ka (⨾-Adds 1 0 b c kb kc)

handle_pool_created-Adds :
    (ctx : Handlers.EventContext) (p n : ℕ) (e : Option ℕ) (c : ℕ)
    → Adds 1 (Handlers.handle_pool_created ctx p n e c)
unfolding Handlers.handle_pool_created
handle_pool_created-Adds ctx p n e c =
    logged-Adds _ _ _ (insert_pool-Adds _) (audit-Adds ctx _ _ _ _) (invalidate_pool-Adds p)

handle_pool_state_changed-Adds :
    (ctx : Handlers.EventContext) (p f t a : ℕ)
    → Adds 1 (Handlers.handle_pool_state_changed ctx p f t a)
unfolding Handlers.handle_pool_state_changed
handle_pool_state_changed-Adds ctx p f t a =
    logged-Adds _ _ _ (update_state-Adds p t _ _) (audit-Adds ctx _ _ _ _) (invalidate_pool-Adds p)

handle_dataroom_created-Adds :
    (ctx : Handlers.EventContext) (d p w : ℕ) → Adds 1 (Handlers.handle_dataroom_created ctx d p w)
unfolding Handlers.handle_dataroom_created
handle_dataroom_created-Adds ctx d p w s =
    ⨾-Adds 0 1 _ _ (insert_dataroom-Adds _) (audit-Adds ctx _ _ _ _) s

handle_member_added-Adds :
    (ctx : Handlers.EventContext) (d m r a : ℕ) → Adds 1 (Handlers.handle_member_added ctx d m r a)
unfolding Handlers.handle_member_added
handle_member_added-Adds ctx d m r a s =
    when_found-Adds (find_dataroom_by_sui d s) _
      (λ row.
        logged-Adds _ _ _ (upsert_member-Adds _ _) (audit-Adds ctx _ _ _ _)
          (invalidate_members-Adds row.pool_id))
      s

handle_member_removed-Adds :
    (ctx : Handlers.EventContext) (d m r : ℕ) → Adds 1 (Handlers.handle_member_removed ctx d m r)
unfolding Handlers.handle_member_removed
handle_member_removed-Adds ctx d m r s =
    when_found-Adds (find_dataroom_by_sui d s) _
      (λ row.
        logged-Adds _ _ _ (deactivate-Adds row.id m _) (audit-Adds ctx _ _ _ _)
          (invalidate_members-Adds row.pool_id))
      s

handle_member_role_updated-Adds :
    (ctx : Handlers.EventContext) (d m w n a : ℕ)
    → Adds 1 (Handlers.handle_member_role_updated ctx d m w n a)
unfolding Handlers.handle_member_role_updated
handle_member_role_updated-Adds ctx d m w n a s =
    when_found-Adds (find_dataroom_by_sui d s) _
      (λ row.
        logged-Adds _ _ _ (update_role-Adds row.id m n) (audit-Adds ctx _ _ _ _)
          (invalidate_members-Adds row.pool_id))
      s

insert_document_with_version-Adds :
    (doc : DocumentRow) (v b h u : ℕ) → Adds 0 (Handlers.insert_document_with_version doc v b h u)
unfolding Handlers.insert_document_with_version
insert_document_with_version-Adds doc v b h u s =
    ⨾-Adds 0 0 _ _ (insert_document-Adds doc)
      (if-elim (Adds 0) (any_row (same_document doc) s.documents) done _ (λ e. done-Adds)
        (λ e. insert_version-Adds _))
      s

handle_document_created-Adds :
    (ctx : Handlers.EventContext) (d p f : ℕ) (t : Option ℕ) (n : ℕ) (v : Option ℕ) (b h u : ℕ)
    → Adds 1 (Handlers.handle_document_created ctx d p f t n v b h u)
unfolding Handlers.handle_document_created
handle_document_created-Adds ctx d p f t n v b h u s =
    when_found-Adds (find_pool_by_sui p s) _
      (λ pool. when_found-Adds (find_dataroom_by_pool pool.id s) _ (λ room.
        logged-Adds _ _ _ (insert_document_with_version-Adds _ _ _ _ _) (audit-Adds ctx _ _ _ _)
          (invalidate_pool-Adds pool.id)))
      s

handle_document_version_added-Adds :
    (ctx : Handlers.EventContext) (d v b h u : ℕ)
    → Adds 1 (Handlers.handle_document_version_added ctx d v b h u)
unfolding Handlers.handle_document_version_added
handle_document_version_added-Adds ctx d v b h u s =
    when_found-Adds (find_document_by_sui d s) _
      (λ row. ⨾-Adds 0 1 _ _ (insert_version-Adds _) (
        logged-Adds _ _ _ (update_version_info-Adds d v _) (audit-Adds ctx _ _ _ _)
          (invalidate_pool-Adds row.pool_id)))
      s

handle_document_reviewed-Adds :
    (ctx : Handlers.EventContext) (d r t : ℕ) → Adds 1 (Handlers.handle_document_reviewed ctx d r t)
unfolding Handlers.handle_document_reviewed
handle_document_reviewed-Adds ctx d r t s =
    when_found-Adds (find_document_by_sui d s) _
      (λ row. ⨾-Adds 0 1 _ _ (upsert_review-Adds _ _) (audit-Adds ctx _ _ _ _)) s

handle_ic_decision_created-Adds :
    (ctx : Handlers.EventContext) (p i t c : ℕ)
    → Adds 1 (Handlers.handle_ic_decision_created ctx p i t c)
unfolding Handlers.handle_ic_decision_created
handle_ic_decision_created-Adds ctx p i t c s =
    when_found-Adds (find_pool_by_sui p s) _
      (λ row.
        logged-Adds _ _ _ (insert_decision-Adds _) (audit-Adds ctx _ _ _ _)
          (invalidate_pool-Adds row.id))
      s

handle_audit_event-Adds :
    (ctx : Handlers.EventContext) (p t a : ℕ) (g : Option ℕ)
    → Adds 1 (Handlers.handle_audit_event ctx p t a g)
unfolding Handlers.handle_audit_event
handle_audit_event-Adds ctx p t a g s = audit-Adds ctx _ _ _ _ s

dispatch-Adds : (e : Handlers.Event) (x : SuiEvent) → Adds 1 (run_handler x (Handlers.handler_of e))
unfolding run_handler Handlers.handler_of
dispatch-Adds (Handlers.pool_created_event p n e c) x =
    handle_pool_created-Adds (context_of x) p n e c
dispatch-Adds (Handlers.pool_state_event p f t a) x =
    handle_pool_state_changed-Adds (context_of x) p f t a
dispatch-Adds (Handlers.dataroom_created_event d p w) x =
    handle_dataroom_created-Adds (context_of x) d p w
dispatch-Adds (Handlers.member_added_event d m r a) x =
    handle_member_added-Adds (context_of x) d m r a
dispatch-Adds (Handlers.member_removed_event d m r) x =
    handle_member_removed-Adds (context_of x) d m r
dispatch-Adds (Handlers.member_role_event d m w n a) x =
    handle_member_role_updated-Adds (context_of x) d m w n a
dispatch-Adds (Handlers.document_created_event d p f t n v b h u) x =
    handle_document_created-Adds (context_of x) d p f t n v b h u
dispatch-Adds (Handlers.version_added_event d v b h u) x =
    handle_document_version_added-Adds (context_of x) d v b h u
dispatch-Adds (Handlers.document_reviewed_event d r t) x =
    handle_document_reviewed-Adds (context_of x) d r t
dispatch-Adds (Handlers.ic_decision_event p i t c) x =
    handle_ic_decision_created-Adds (context_of x) p i t c
dispatch-Adds (Handlers.generic_audit_event p t a g) x =
    handle_audit_event-Adds (context_of x) p t a g
dispatch-Adds Handlers.pool_cancelled_event x = none-Adds
dispatch-Adds Handlers.document_archived_event x = none-Adds
dispatch-Adds Handlers.folder_created_event x = none-Adds
dispatch-Adds Handlers.folder_key_stored_event x = none-Adds
dispatch-Adds Handlers.admin_pause_toggled_event x = none-Adds

after_event-Adds :
    (n : ℕ) (old : List AuditRow) (o : Result DbError (Unit {0}) × Store) (rest : Action)
    → Adds n rest
    → Extends 1 old o.1.audits
    → Extends (1 + n) old (after_event o rest).1.audits
unfolding after_event
after_event-Adds n old (ok u, s) rest k w = Extends-Extends 1 n _ _ _ w (k s)
after_event-Adds n old (err e, s) rest k w =
    if-elim (λ o. Extends (1 + n) old o.1.audits) (is_duplicate e) (rest s) (err e, s)
      (λ h. Extends-Extends 1 n _ _ _ w (k s)) (λ h. Extends-weaken 1 (1 + n) _ _ (omega arith) w)

process_batch-Adds : (es : List SuiEvent) → Adds (length es) (process_batch es)
unfolding process_batch
process_batch-Adds [] s = same-Extends 0 s.audits
process_batch-Adds (e ∷ es) s = Extends-weaken (1 + length es) (suc (length es)) _ _ (omega arith) (
    after_event-Adds (length es) s.audits (run_handler e (Handlers.handler_of e.event) s)
      (process_batch es) (process_batch-Adds es) (dispatch-Adds e.event e s))

-- The audit log is append-only: a batch, whether it throws or not, leaves every row of the log as
-- it is and adds at most one row for each of its events.
pub process_batch-Extends :
    (es : List SuiEvent) (s : Store) → Extends (length es) s.audits (process_batch es s).1.audits
process_batch-Extends es s = process_batch-Adds es s
