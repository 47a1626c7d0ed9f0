-- ===== src/Db/AuditLog.antt =====
-- The audit log through the operations of the repositories: packages/db/src/repositories.
use brine_vault.Base.{
  ℕ, ◌+◌, ◌≤◌, List, [], ◌∷◌, ◌++◌, length, length-append, Bool, true, false, ◌≡◌, refl, sym, ap,
  ◌∙◌, Result, ok, err, arith, if-elim,
}
use mathlib.Core.List.{append_assoc}
use brine_vault.Db.Tables.{
  PoolRow, DataroomRow, MemberRow, DocumentRow, VersionRow, ReviewRow, DecisionRow, AuditRow, Store,
  Action, DbError, done, continue, ◌⨾◌, checked, any_row, insert_new,
}
use brine_vault.Db.Chain.{
  same_audit, insert_pool, update_state, insert_dataroom, upsert_member, deactivate, update_role,
  insert_document, update_version_info, insert_version, upsert_review, insert_decision,
  insert_audit,
}

-- The second log is the first one with at most n newer rows.
abbrev pub Extends : ℕ → List AuditRow → List AuditRow → Type 0
Extends n old new = (extra : List AuditRow) × (length extra ≤ n) × (new ≡ extra ++ old)

pub same-Extends : (n : ℕ) (rows : List AuditRow) → Extends n rows rows
same-Extends n rows = ([], omega arith, refl)

pub Extends-Extends :
    (m n : ℕ) (a b c : List AuditRow) → Extends m a b → Extends n b c → Extends (m + n) a c
Extends-Extends m n a b c (xs, lx, ex) (ys, ly, ey) = (
  ys ++ xs,
  omega (arith, length-append ys xs),
  ey ∙ ap (λ r. ys ++ r) ex ∙ sym (append_assoc ys xs a),
)

pub Extends-weaken : (m n : ℕ) (a b : List AuditRow) → m ≤ n → Extends m a b → Extends n a b
Extends-weaken m n a b h (xs, lx, ex) = (xs, omega arith, ex)

-- An action that adds at most n audit rows and changes none, whether it throws or not.
abbrev pub Adds : ℕ → Action → Type 0
Adds n a = (s : Store) → Extends n s.audits (a s).1.audits

pub done-Adds : Adds 0 done
done-Adds s = same-Extends 0 s.audits

pub ⨾-Adds : (m n : ℕ) (a b : Action) → Adds m a → Adds n b → Adds (m + n) (a ⨾ b)
unfolding ◌⨾◌
⨾-Adds m n a b ka kb s = go (a s) (ka s)
  where
    go :
        (o : Result DbError (Unit {0}) × Store)
        → Extends m s.audits o.1.audits
        → Extends (m + n) s.audits (continue o b).1.audits
    go (ok u, s') e = Extends-Extends m n _ _ _ e (kb s')
    go (err e', s') e = Extends-weaken m (m + n) _ _ (omega arith) e

-- A statement on another table.
pub checked-Extends :
    (n : ℕ) (b : Bool) (e : DbError) (a : Action) (s : Store)
    → Extends n s.audits (a s).1.audits
    → Extends n s.audits (checked b e a s).1.audits
unfolding checked
checked-Extends n true e a s k = k
checked-Extends n false e a s k = same-Extends n s.audits

pub insert_pool-Adds : (row : ℕ → PoolRow) → Adds 0 (insert_pool row)
unfolding insert_pool
insert_pool-Adds row s =
    checked-Extends 0 _ _ _ s (checked-Extends 0 _ _ _ s (same-Extends 0 s.audits))

pub update_state-Adds :
    (sui new_state tx_digest now : ℕ) → Adds 0 (update_state sui new_state tx_digest now)
unfolding update_state
update_state-Adds sui new_state tx_digest now s =
    checked-Extends 0 _ _ _ s (same-Extends 0 s.audits)

pub insert_dataroom-Adds : (row : ℕ → DataroomRow) → Adds 0 (insert_dataroom row)
unfolding insert_dataroom
insert_dataroom-Adds row s = checked-Extends 0 _ _ _ s (same-Extends 0 s.audits)

pub upsert_member-Adds : (row : MemberRow) (now : ℕ) → Adds 0 (upsert_member row now)
unfolding upsert_member
upsert_member-Adds row now s = checked-Extends 0 _ _ _ s (same-Extends 0 s.audits)

pub deactivate-Adds : (dataroom_id address now : ℕ) → Adds 0 (deactivate dataroom_id address now)
unfolding deactivate
deactivate-Adds dataroom_id address now s = same-Extends 0 s.audits

pub update_role-Adds :
    (dataroom_id address new_role : ℕ) → Adds 0 (update_role dataroom_id address new_role)
unfolding update_role
update_role-Adds dataroom_id address new_role s =
    checked-Extends 0 _ _ _ s (same-Extends 0 s.audits)

pub insert_document-Adds : (row : DocumentRow) → Adds 0 (insert_document row)
unfolding insert_document
insert_document-Adds row s = checked-Extends 0 _ _ _ s (same-Extends 0 s.audits)

pub update_version_info-Adds : (sui version now : ℕ) → Adds 0 (update_version_info sui version now)
unfolding update_version_info
update_version_info-Adds sui version now s = same-Extends 0 s.audits

pub insert_version-Adds : (row : VersionRow) → Adds 0 (insert_version row)
unfolding insert_version
insert_version-Adds row s = checked-Extends 0 _ _ _ s (same-Extends 0 s.audits)

pub upsert_review-Adds : (row : ReviewRow) (now : ℕ) → Adds 0 (upsert_review row now)
unfolding upsert_review
upsert_review-Adds row now s = checked-Extends 0 _ _ _ s (same-Extends 0 s.audits)

pub insert_decision-Adds : (row : DecisionRow) → Adds 0 (insert_decision row)
unfolding insert_decision
insert_decision-Adds row s = same-Extends 0 s.audits

pub insert_audit-Adds : (row : AuditRow) → Adds 1 (insert_audit row)
unfolding insert_audit insert_new
insert_audit-Adds row s =
    if-elim (Extends 1 s.audits) (any_row (same_audit row) s.audits) s.audits (row ∷ s.audits)
      (λ e. same-Extends 1 s.audits) (λ e. (row ∷ [], omega arith, refl))
