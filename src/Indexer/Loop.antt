-- ===== src/Indexer/Loop.antt =====
-- The batches and the polling loop: apps/indexer/src/indexer.ts and cursor-manager.ts.
use brine_vault.Base.{
  ℕ, Option, none, some, List, [], ◌∷◌, Bool, true, false, if◌then◌else◌, Result, ok, err,
}
use brine_vault.Db.Tables.{
  Store, Action, DbError, unique_violation, check_violation, foreign_key_violation,
  not_null_violation,
}
use brine_vault.Indexer.Handlers.{Event, EventContext, handler_of}

pub record SuiEvent : Type 0 where
  pub event : Event
  pub event_tx : ℕ
  pub seq : ℕ
  -- The clock when the handler runs.
  pub at : ℕ

-- `errStr.includes("unique") || errStr.includes("duplicate")`, by the texts of PostgreSQL.
abbrev pub is_duplicate : DbError → Bool
is_duplicate unique_violation = true
is_duplicate check_violation = false
is_duplicate foreign_key_violation = false
is_duplicate not_null_violation = false

abbrev pub context_of : SuiEvent → EventContext
context_of e = record { tx_digest = e.event_tx; event_seq = e.seq; now = e.at }

-- One round of the loop of `processBatch`: no handler, no work.
unfoldable pub run_handler : SuiEvent → Option (EventContext → Action) → Action
run_handler e none s = (ok tt, s)
run_handler e (some handler) s = handler (context_of e) s

-- What follows a handler's answer: a duplicate is passed over, other errors are thrown.
unfoldable pub after_event :
    Result DbError (Unit {0}) × Store → Action → Result DbError (Unit {0}) × Store
after_event (ok u, s) rest = rest s
after_event (err e, s) rest = if is_duplicate e then rest s else (err e, s)

unfoldable pub process_batch : List SuiEvent → Action
process_batch [] s = (ok tt, s)
process_batch (e ∷ es) s = after_event (run_handler e (handler_of e.event) s) (process_batch es)

-- The indexer between two polls: the database, the cursor in memory and the saved one.
pub record Indexer : Type 0 where
  pub store : Store
  pub cursor : Option ℕ
  pub saved_cursor : Option ℕ

-- What a poll gives; `has_next_page` decides only whether the loop sleeps before the next poll.
pub record PollResult : Type 0 where
  pub events : List SuiEvent
  pub next_cursor : Option ℕ
  pub has_next_page : Bool

-- `saveCursor` and the assignment of `cursor`, if there is a next cursor.
unfoldable pub advance : Option ℕ → Indexer → Indexer
advance none x = x
advance (some c) x = record x { cursor = some c; saved_cursor = some c }

unfoldable pub after_batch : PollResult → Indexer → Result DbError (Unit {0}) × Store → Indexer
after_batch p x (ok u, s) = advance p.next_cursor (record x { store = s })
after_batch p x (err e, s) = record x { store = s }

-- One round of the loop of `start`; the poll itself may throw, which changes nothing.
unfoldable pub poll_round : Option PollResult → Indexer → Indexer
poll_round none x = x
poll_round (some p) x = elim (p.events) [
  | [] ↦ x
  | e ∷ es ↦ after_batch p x (process_batch p.events x.store)
]

-- A restart loads the saved cursor.
unfoldable pub restart : Indexer → Indexer
restart x = record x { cursor = x.saved_cursor }
