-- ===== src/Api/Reviews/Summary.antt =====
-- The summary of the reviews of a document: getReviewSummary of
-- apps/api/src/modules/reviews/reviews.service.ts.
use brine_vault.Base.{
  ℕ, ◌+◌, ◌==◌, leb, Option, List, [], ◌∷◌, All, length, Bool, true, ◌≡◌, refl, subst, if-elim, ok,
  >>=-eq-ok, arith,
}
use brine_vault.Db.Tables.{ReviewRow, Store, rows_where}
use brine_vault.Db.Listing.{find_reviews}
use brine_vault.Api.Access.{document_access}
use brine_vault.Api.Reviews.{
  ReviewSummary, count_status, get_review_summary, review_pending, review_approved,
  review_needs_revision,
}

All-rows_where :
    (P : ReviewRow → Type 0) (p : ReviewRow → Bool) (rows : List ReviewRow)
    → All P rows
    → All P (rows_where p rows)
unfolding rows_where
All-rows_where P p [] h = tt
All-rows_where P p (r ∷ rows) h =
    if-elim (All P) (p r) (r ∷ rows_where p rows) (rows_where p rows)
      (λ e. (h.0, All-rows_where P p rows h.1)) (λ e. All-rows_where P p rows h.1)

count_status-sum :
    (rows : List ReviewRow)
    → All (λ r. leb r.status 2 ≡ true) rows
    → count_status 0 rows + count_status 1 rows + count_status 2 rows ≡ length rows
unfolding rows_where
count_status-sum [] h = refl
count_status-sum (r ∷ rows) h = ground (arith, count_status-sum rows h.1)

-- For every document and every user that may read it, when the statuses in the table satisfy the
-- check constraint: the three numbers of the summary add up to the number of reviews, but by the
-- names of REVIEW_STATUS `approved` counts the pending reviews, `needsRevision` the approved ones and
-- `rejected` those that need a revision.
pub get_review_summary-shifted :
    (pool_id doc_id : ℕ) (user_org : Option ℕ) (s : Store) (summary : ReviewSummary)
    → All (λ r. leb r.status 2 ≡ true) s.reviews
    → get_review_summary pool_id doc_id user_org s ≡ ok summary
    → (summary.approved + summary.needs_revision + summary.rejected ≡ summary.total)
      × (summary.approved ≡ count_status review_pending (find_reviews doc_id s))
      × (summary.needs_revision ≡ count_status review_approved (find_reviews doc_id s))
      × (summary.rejected ≡ count_status review_needs_revision (find_reviews doc_id s))
unfolding get_review_summary find_reviews
get_review_summary-shifted pool_id doc_id user_org s summary checks h =
    let (found, access, rest) = >>=-eq-ok (document_access pool_id doc_id user_org s) _ h in
    let reviews = find_reviews doc_id s in
    let made : ReviewSummary = record {
      total = length reviews;
      approved = count_status 0 reviews;
      needs_revision = count_status 1 reviews;
      rejected = count_status 2 reviews;
    } in
    let same : made ≡ summary = cc in
    subst
      (λ (x : ReviewSummary).
        (x.approved + x.needs_revision + x.rejected ≡ x.total)
        × (x.approved ≡ count_status review_pending reviews)
        × (x.needs_revision ≡ count_status review_approved reviews)
        × (x.rejected ≡ count_status review_needs_revision reviews))
      same
      (
        count_status-sum reviews (
            All-rows_where (λ r. leb r.status 2 ≡ true) (λ r. r.document_id == doc_id) s.reviews
              checks),
        refl,
        refl,
        refl,
      )
