-- ===== src/Shared/PoolState.antt =====
-- packages/shared/src/types/pool.ts: the states of a pool and the whitelist of transitions.
pub mod Reach
use brine_vault.Base.{Bool, true, false, ◌||◌, Option, none, some, List, [], ◌∷◌, ℕ, ◌==◌}

pub data PoolState : Type 0 where
  draft dd_in_progress ic_review approved_internal ready_to_issue rejected cancelled issued closed :
      PoolState

-- The number that the chain and the database use for a state.
abbrev pub state_code : PoolState → ℕ
state_code draft = 0
state_code dd_in_progress = 1
state_code ic_review = 2
state_code approved_internal = 3
state_code ready_to_issue = 4
state_code rejected = 5
state_code cancelled = 6
state_code issued = 7
state_code closed = 8

-- `VALID_TRANSITIONS.get(from)`; CANCELLED and CLOSED are no keys of the map.
unfoldable pub valid_transitions : PoolState → Option (List PoolState)
valid_transitions draft = some (dd_in_progress ∷ cancelled ∷ [])
valid_transitions dd_in_progress = some (ic_review ∷ cancelled ∷ [])
valid_transitions ic_review = some (approved_internal ∷ rejected ∷ dd_in_progress ∷ [])
valid_transitions approved_internal = some (ready_to_issue ∷ [])
valid_transitions ready_to_issue = some (issued ∷ [])
valid_transitions rejected = some (draft ∷ [])
valid_transitions issued = some (closed ∷ [])
valid_transitions cancelled = none
valid_transitions closed = none

-- `Array.prototype.includes`, by the states' numbers.
includes : List PoolState → PoolState → Bool
includes [] to = false
includes (s ∷ ss) to = (state_code s == state_code to) || includes ss to

unfoldable pub is_valid_transition : PoolState → PoolState → Bool
unfolding valid_transitions includes
is_valid_transition from to = elim (valid_transitions from) [
  | none ↦ false
  | some allowed ↦ includes allowed to
]
