-- ===== src/Api/Access/Rules.antt =====
-- Who gets through the checks of a pool and of a document: apps/api/src/modules.
use brine_vault.Base.{
  ℕ, ◌==◌, not, if-elim, List, [], ◌∷◌, Result, ◌>>=◌, Option, none, some, true, false, ◌≡◌, ◌↔◌,
  ◌≢◌, refl, sym, ap, ◌∙◌, ok, err, guard, or_throw, >>=-eq-ok, guard-eq-ok, or_throw-eq-ok, ==_iff,
  arith,
}
use brine_vault.Db.Tables.{PoolRow, DocumentRow, Store, find_row, rows_where}
use brine_vault.Db.Chain.{find_pool, find_document}
use brine_vault.Api.Orgs.{is_own}
use brine_vault.Api.Access.{
  ApiError, pool_access, document_access, document_not_found, pool_not_found, not_in_org,
}

-- The policy: a user of an organisation may use a pool of it.
abbrev pub MayUse : ℕ → Option ℕ → Store → PoolRow → Type 0
MayUse pool_id user_org s pool = (find_pool pool_id s ≡ some pool) × (user_org ≡ some pool.org_id)

-- And a document of that pool.
abbrev pub MayRead : ℕ → ℕ → Option ℕ → Store → PoolRow × DocumentRow → Type 0
MayRead pool_id doc_id user_org s (pool, doc) =
    (find_pool pool_id s ≡ some pool)
    × (user_org ≡ some pool.org_id)
    × (find_document doc_id s ≡ some doc)
    × (doc.pool_id ≡ pool_id)

is_own-eq :
    (user_org : Option ℕ) (org_id : ℕ) → is_own user_org org_id ≡ true → user_org ≡ some org_id
is_own-eq none org_id h = cc
is_own-eq (some o) org_id h = ap some ((==_iff o org_id).0 h)

is_own_self : (org_id : ℕ) → is_own (some org_id) org_id ≡ true
is_own_self org_id = ground arith

pub pool_access_sound :
    (pool_id : ℕ) (user_org : Option ℕ) (s : Store) (pool : PoolRow)
    → pool_access pool_id user_org s ≡ ok pool
    → MayUse pool_id user_org s pool
unfolding pool_access
pool_access_sound pool_id user_org s pool h =
    let (p, found, rest) = >>=-eq-ok (or_throw (find_pool pool_id s) pool_not_found) _ h in
    let (u, own, last) = >>=-eq-ok (guard (is_own user_org p.org_id) not_in_org) _ rest in
    let same : p ≡ pool = cc in
    (
      or_throw-eq-ok (find_pool pool_id s) pool_not_found found ∙ ap some same,
      is_own-eq user_org p.org_id (guard-eq-ok (is_own user_org p.org_id) not_in_org own)
          ∙ ap (λ (q : PoolRow). some q.org_id) same,
    )

pub pool_access_complete :
    (pool_id : ℕ) (user_org : Option ℕ) (s : Store) (pool : PoolRow)
    → MayUse pool_id user_org s pool
    → pool_access pool_id user_org s ≡ ok pool
unfolding pool_access
pool_access_complete pool_id user_org s pool (found, own) =
    rw found (rw own (rw (is_own_self pool.org_id) refl))

-- The checks that the services make before they show or change a document let a request through
-- exactly when the policy does: the pool exists, it belongs to the organisation of the user, and the
-- document exists and is of that pool; what they hand on are those two rows.
pub document_access-refines :
    (pool_id doc_id : ℕ) (user_org : Option ℕ) (s : Store) (found : PoolRow × DocumentRow)
    → (document_access pool_id doc_id user_org s ≡ ok found)
      ↔ MayRead pool_id doc_id user_org s found
unfolding document_access
document_access-refines pool_id doc_id user_org s (pool, doc) = (
  λ h.
      let (p, access, rest) = >>=-eq-ok (pool_access pool_id user_org s) _ h in
      let (d, has, rest2) =
        >>=-eq-ok (or_throw (find_document doc_id s) document_not_found) _ rest in
      let (u, own, last) = >>=-eq-ok (guard (d.pool_id == pool_id) document_not_found) _ rest2 in
      let same_p : p ≡ pool = cc in
      let same_d : d ≡ doc = cc in
      let may = pool_access_sound pool_id user_org s p access in
      (
        may.0 ∙ ap some same_p,
        may.1 ∙ ap (λ (q : PoolRow). some q.org_id) same_p,
        or_throw-eq-ok (find_document doc_id s) document_not_found has ∙ ap some same_d,
        ap (λ (q : DocumentRow). q.pool_id) (sym same_d)
            ∙ (==_iff d.pool_id pool_id).0
                (guard-eq-ok (d.pool_id == pool_id) document_not_found own),
      ),
  λ (fp, own, fd, here).
      rw (pool_access_complete pool_id user_org s pool (fp, own))
        (rw fd (rw ((==_iff doc.pool_id pool_id).1 here) refl)),
)

-- The store in which the document is missing.
abbrev pub without_document : ℕ → Store → Store
without_document doc_id s = record s {
  documents = rows_where (λ d. not (d.id == doc_id)) s.documents;
}

find_row-rows_where :
    (doc_id : ℕ) (rows : List DocumentRow)
    → find_row (λ d. d.id == doc_id) (rows_where (λ d. not (d.id == doc_id)) rows) ≡ none
unfolding find_row rows_where
find_row-rows_where doc_id [] = refl
find_row-rows_where doc_id (d ∷ rows) =
    if-elim (λ xs. find_row (λ x. x.id == doc_id) xs ≡ none) (not (d.id == doc_id))
      (d ∷ rows_where (λ x. not (x.id == doc_id)) rows)
      (rows_where (λ x. not (x.id == doc_id)) rows)
      (λ e.
        let differs : (d.id == doc_id) ≡ false = ground arith in
        rw differs (find_row-rows_where doc_id rows))
      (λ e. find_row-rows_where doc_id rows)

-- A document of another pool is answered like one that does not exist: for every user and store the
-- answer, an error of the pool or DOCUMENT_NOT_FOUND, is the one of the store without the document.
pub document_access-hidden :
    (pool_id doc_id : ℕ) (user_org : Option ℕ) (s : Store) (doc : DocumentRow)
    → find_document doc_id s ≡ some doc
    → doc.pool_id ≢ pool_id
    → document_access pool_id doc_id user_org s
      ≡ document_access pool_id doc_id user_org (without_document doc_id s)
unfolding document_access pool_access find_pool find_document
document_access-hidden pool_id doc_id user_org s doc found other =
    let differs : (doc.pool_id == pool_id) ≡ false = ground arith in
    rw found (
      rw (find_row-rows_where doc_id s.documents)
        (rw differs (after_check (pool_access pool_id user_org s) _ _ (λ pool. refl))))
  where
    after_check :
        (access : Result ApiError PoolRow) (f g : PoolRow → Result ApiError (PoolRow × DocumentRow))
        → ((pool : PoolRow) → f pool ≡ g pool)
        → (access >>= f) ≡ (access >>= g)
    after_check (ok pool) f g e = e pool
    after_check (err x) f g e = refl
