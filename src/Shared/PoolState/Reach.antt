-- ===== src/Shared/PoolState/Reach.antt =====
-- Histories of a pool: sequences of states in which each step is on the whitelist.
use brine_vault.Base.{◌≡◌, refl, sym, ◌∙◌, ◌≢◌, ◌⊎◌, inl, ◌↔◌, true, false, arith}
use brine_vault.Shared.PoolState.{
  PoolState, draft, dd_in_progress, ic_review, approved_internal, ready_to_issue, cancelled, issued,
  closed, is_valid_transition,
}

-- `Reach s t`: the pool can go from `s` to `t` by transitions of the whitelist.
pub data Reach (s : PoolState) : PoolState → Type 0 where
  here : Reach s s
  next : {t u : PoolState} → Reach s t → is_valid_transition t u ≡ true → Reach s u

-- The states that need no review, and those from the internal approval on.
abbrev pub IsBeforeReview : PoolState → Type 0
IsBeforeReview s = (s ≡ draft) ⊎ (s ≡ dd_in_progress) ⊎ (s ≡ cancelled)

abbrev pub IsApproved : PoolState → Type 0
IsApproved s = (s ≡ approved_internal) ⊎ (s ≡ ready_to_issue) ⊎ (s ≡ issued) ⊎ (s ≡ closed)

-- A history that never visits a state.
pub data Avoids (bad : PoolState) (s : PoolState) : PoolState → Type 0 where
  here : s ≢ bad → Avoids bad s s
  next :
      {t u : PoolState} → Avoids bad s t → is_valid_transition t u ≡ true → u ≢ bad → Avoids bad s u

stays_before :
    (t u : PoolState)
    → is_valid_transition t u ≡ true
    → IsBeforeReview t
    → u ≢ ic_review
    → IsBeforeReview u
unfolding is_valid_transition
stays_before t u h b ne = ground arith

stays-IsApproved : (t u : PoolState) → is_valid_transition t u ≡ true → IsApproved t → IsApproved u
unfolding is_valid_transition
stays-IsApproved t u h b = ground arith

Avoids-before :
    {bad s t : PoolState} → Avoids bad s t → bad ≡ ic_review → IsBeforeReview s → IsBeforeReview t
Avoids-before (here ne) e b = b
Avoids-before (next {t} {u} a v ne) e b =
    stays_before t u v (Avoids-before a e b) (λ p. ne (p ∙ sym e))

-- A history from DRAFT that never visits IC_REVIEW visits only DRAFT, DD_IN_PROGRESS and CANCELLED:
-- no pool is approved, rejected, issued or closed without a review.
pub review_is_needed : {s : PoolState} → Avoids ic_review draft s → IsBeforeReview s
review_is_needed a = Avoids-before a refl (inl refl)

-- From the internal approval on there is no way back: every later state is APPROVED_INTERNAL,
-- READY_TO_ISSUE, ISSUED or CLOSED.
pub approval_is_kept : {s t : PoolState} → IsApproved s → Reach s t → IsApproved t
approval_is_kept a here = a
approval_is_kept a (next {t} {u} r v) = stays-IsApproved t u v (approval_is_kept a r)

-- A state has no way out exactly when it is CANCELLED or CLOSED.
pub final_iff :
    (s : PoolState)
    → ((t : PoolState) → is_valid_transition s t ≡ false) ↔ ((s ≡ cancelled) ⊎ (s ≡ closed))
unfolding is_valid_transition
final_iff s = (
  λ h. ground (
    arith,
    h dd_in_progress,
    h ic_review,
    h approved_internal,
    h ready_to_issue,
    h draft,
    h issued,
    h closed,
  ),
  λ h t. ground arith,
)
