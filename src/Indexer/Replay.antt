-- ===== src/Indexer/Replay.antt =====
-- An event that is handled again, as after a crash between processBatch and saveCursor:
-- handleDocumentVersionAdded of apps/indexer/src/event-handlers/handlers.ts.
use brine_vault.Base.{ℕ, suc}
use brine_vault.Db.Tables.{DocumentRow, VersionRow}

-- The version row of the event, and the document row after it.
abbrev pub version_row : DocumentRow → ℕ → ℕ → ℕ → ℕ → VersionRow
version_row d v b h u = record {
  document_id = d.id;
  version = v;
  walrus_blob_id = b;
  content_hash = h;
  uploaded_by_address = u;
}

abbrev pub bumped : ℕ → ℕ → DocumentRow → DocumentRow
bumped v now r = record r {
  current_version = v;
  version_count = suc r.version_count;
  last_updated_at = now;
}
