-- ===== src/Tests/Indexer.antt =====
-- The indexer of apps/indexer/src on small inputs.
use brine_vault.Base.{◌==◌, ◌&&◌, ◌≡◌, refl, none, some, List, [], ◌∷◌, All, true, false}
use brine_vault.Db.Tables.{Store, DataroomRow, DocumentRow, any_row, find_row}
use brine_vault.Db.Chain.{find_dataroom_by_sui}
use brine_vault.Db.AuditLog.{Extends}
use brine_vault.Indexer.Handlers.{
  EventContext, pool_created_event, member_added_event, version_added_event, handle_member_added,
  handle_member_removed,
}
use brine_vault.Indexer.Loop.{SuiEvent, process_batch, Indexer, PollResult, poll_round}
use brine_vault.Indexer.Audit.{process_batch-Extends}
use brine_vault.Indexer.Cursor.{IsSafeMove, poll_round-cursor}
use brine_vault.Indexer.Membership.{is_out, is_in_with, member_added-in, member_removed-out}

abbrev room : DataroomRow
room = record { id = 2; sui_object_id = 102; pool_id = 1; owner_address = 9 }

abbrev document : DocumentRow
document = record {
  id = 3;
  sui_object_id = 103;
  pool_id = 1;
  dataroom_id = 2;
  folder_id = 0;
  doc_type = 0;
  title = 5;
  current_version = 1;
  version_count = 1;
  encryption_scheme = 0;
  last_updated_at = 0;
}

abbrev store : Store
store = record {
  pools =
      record {
        id = 1;
        sui_object_id = 101;
        org_id = 0;
        name = 4;
        current_state = 0;
        encryption_scheme = 0;
        created_by_address = 9;
        sui_tx_digest = 50;
        last_updated_at = 0;
      }
      ∷ [];
  datarooms = room ∷ [];
  members =
      record {
        dataroom_id = 2;
        pool_id = 1;
        member_address = 7;
        role = 1;
        is_active = true;
        revoked_at = none;
        added_by_address = 9;
        added_at = 0;
      }
      ∷ [];
  documents = document ∷ [];
  versions = [];
  reviews = [];
  decisions = [];
  audits = [];
  organizations = 0 ∷ [];
  next_id = 4;
  cache = some [];
}

abbrev batch : List SuiEvent
batch =
    record { event = pool_created_event 110 6 none 9; event_tx = 60; seq = 0; at = 1 }
    ∷ record { event = member_added_event 102 8 4 9; event_tx = 60; seq = 1; at = 2 }
    ∷ record { event = version_added_event 103 2 70 71 9; event_tx = 61; seq = 0; at = 3 }
    ∷ []

abbrev context : EventContext
context = record { tx_digest = 62; event_seq = 0; now = 4 }

process_batch-Extends_example : Extends 3 [] (process_batch batch store).1.audits
process_batch-Extends_example = process_batch-Extends batch store

abbrev poll : PollResult
poll = record { events = batch; next_cursor = some 5; has_next_page = false }

abbrev indexer : Indexer
indexer = record { store = store; cursor = some 4; saved_cursor = some 4 }

poll_round-cursor_example :
    ((poll_round (some poll) indexer).cursor ≡ (poll_round (some poll) indexer).saved_cursor)
    × IsSafeMove poll indexer (poll_round (some poll) indexer)
poll_round-cursor_example = poll_round-cursor poll indexer refl

found_room : find_dataroom_by_sui 102 store ≡ some room
unfolding find_dataroom_by_sui find_row
found_room = refl

member_added-in_example :
    let after = (handle_member_added context 102 8 4 9 store).1 in
    All (λ r. is_in_with 2 8 4 r ≡ true) after.members
    × (any_row (λ r. (r.dataroom_id == 2) && (r.member_address == 8)) after.members ≡ true)
member_added-in_example = member_added-in context 102 8 4 9 store room found_room refl

member_removed-out_example :
    All (λ r. is_out 2 7 r ≡ true) (handle_member_removed context 102 7 9 store).1.members
member_removed-out_example = member_removed-out context 102 7 9 store room found_room
