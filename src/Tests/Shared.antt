-- ===== src/Tests/Shared.antt =====
-- The rules of packages/shared/src on concrete states and masks.
use brine_vault.Base.{◌≡◌, refl, arith, true, false, ◌≢◌, ◌↔◌, ◌⊎◌, inl, if◌then◌else◌}
use brine_vault.Shared.Roles.{has_role, owner_implies, owner}
use brine_vault.Shared.Roles.Laws.{has_role-owner_implies}
use brine_vault.Shared.PoolState.{
  PoolState, draft, dd_in_progress, ic_review, approved_internal, ready_to_issue, cancelled, closed,
  issued, is_valid_transition,
}
use brine_vault.Shared.PoolState.Reach.{
  Reach, Avoids, IsBeforeReview, IsApproved, review_is_needed, approval_is_kept, final_iff,
}

owner_implies_test :
    has_role (owner_implies 8) 2
    ≡ (if has_role 8 owner then (if has_role 8 2 then true else has_role 7 2) else has_role 8 2)
owner_implies_test = has_role-owner_implies 8 2 (omega arith) (omega arith)

-- DRAFT, DD_IN_PROGRESS, CANCELLED.
cancelled_unreviewed : Avoids ic_review draft cancelled
unfolding is_valid_transition
cancelled_unreviewed =
    Avoids.next {t = dd_in_progress}
      (Avoids.next {t = draft} (Avoids.here draft_differs) refl progress_differs) refl
      cancelled_differs
  where
    draft_differs : draft ≢ ic_review
    draft_differs e = ground arith

    progress_differs : dd_in_progress ≢ ic_review
    progress_differs e = ground arith

    cancelled_differs : cancelled ≢ ic_review
    cancelled_differs e = ground arith

review_is_needed_example : IsBeforeReview cancelled
review_is_needed_example = review_is_needed cancelled_unreviewed

to_issued : Reach approved_internal issued
unfolding is_valid_transition
to_issued =
    Reach.next {t = ready_to_issue} (Reach.next {t = approved_internal} Reach.here refl) refl

approval_is_kept_example : IsApproved issued
approval_is_kept_example = approval_is_kept (inl refl) to_issued

final_test :
    ((t : PoolState) → is_valid_transition closed t ≡ false)
    ↔ ((closed ≡ cancelled) ⊎ (closed ≡ closed))
final_test = final_iff closed
