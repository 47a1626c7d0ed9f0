-- ===== src/Indexer/Cursor.antt =====
-- When the cursor moves: the loop of apps/indexer/src/indexer.ts.
use brine_vault.Base.{
  ℕ, Option, none, some, List, [], ◌∷◌, ◌≡◌, refl, sym, ap, ◌⊎◌, inl, inr, Result, ok, err,
}
use brine_vault.Db.Tables.{Store, DbError}
use brine_vault.Indexer.Loop.{
  SuiEvent, process_batch, Indexer, PollResult, advance, after_batch, poll_round,
}

-- What a round did to the saved cursor: nothing, or it moved to the next cursor of a batch that
-- was processed without an exception, whose writes the store then holds.
abbrev pub IsSafeMove : PollResult → Indexer → Indexer → Type 0
IsSafeMove p x x' =
    (x'.saved_cursor ≡ x.saved_cursor)
    ⊎ (((process_batch p.events x.store).0 ≡ ok tt)
        × (x'.saved_cursor ≡ p.next_cursor)
        × (x'.store ≡ (process_batch p.events x.store).1))

batch-cursor :
    (p : PollResult) (x : Indexer) (o : Result DbError (Unit {0}) × Store)
    → process_batch p.events x.store ≡ o
    → x.cursor ≡ x.saved_cursor
    → ((after_batch p x o).cursor ≡ (after_batch p x o).saved_cursor)
      × IsSafeMove p x (after_batch p x o)
unfolding after_batch advance
batch-cursor p x (err e, s) eq same = (same, inl refl)
batch-cursor p x (ok u, s) eq same = go p.next_cursor refl
  where
    go :
        (c : Option ℕ)
        → p.next_cursor ≡ c
        → ((advance c (record x { store = s })).cursor
            ≡ (advance c (record x { store = s })).saved_cursor)
          × IsSafeMove p x (advance c (record x { store = s }))
    go none e = (same, inl refl)
    go (some c) e = (refl, inr (ap (λ r. r.0) eq, sym e, sym (ap (λ r. r.1) eq)))

-- A round of the loop keeps the cursor in memory equal to the saved one, and moves them only to
-- the next cursor of a batch that was processed without an exception and whose writes are in the
-- store.
pub poll_round-cursor :
    (p : PollResult) (x : Indexer)
    → x.cursor ≡ x.saved_cursor
    → ((poll_round (some p) x).cursor ≡ (poll_round (some p) x).saved_cursor)
      × IsSafeMove p x (poll_round (some p) x)
unfolding poll_round
poll_round-cursor p x same = go p.events
  where
    go :
        (es : List SuiEvent)
        → let x' : Indexer = elim es [
          | [] ↦ x
          | e ∷ rest ↦ after_batch p x (process_batch p.events x.store)
        ] in
          (x'.cursor ≡ x'.saved_cursor) × IsSafeMove p x x'
    go [] = (same, inl refl)
    go (e ∷ rest) = batch-cursor p x (process_batch p.events x.store) refl same
