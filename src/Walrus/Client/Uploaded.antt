-- ===== src/Walrus/Client/Uploaded.antt =====
-- The manifest of a chunked upload: packages/walrus-sdk/src/chunked-upload.ts.
use brine_vault.Base.{
  ℕ, zero, suc, ◌+◌, ◌-◌, ◌≤◌, ◌<◌, ltb, leb, min, if◌then◌else◌, if-elim, Option, none, some, List,
  [], ◌∷◌, ◌++◌, length, take, drop, replicate, Bool, true, false, Bool-cases, inl, inr, Result, ok,
  err, ◌≡◌, refl, sym, ap, ap₂, subst, ◌∙◌, length-append, length-take, length-drop,
  take-append-drop, arith,
}
use brine_vault.Walrus.Retry.{WalrusError}
use brine_vault.Walrus.Chunks.{split}
use brine_vault.Walrus.Store.{BlobStore, Holds, Holds-map, length-Holds}
use brine_vault.Walrus.Client.{
  ChunkManifest, started, upload_chunks, Client, ChunkEntry, Upload, hole_entry, upload_batch,
  upload_from,
}
use brine_vault.Walrus.Pieces.{append_assoc, append_nil, drop_past, drop-drop}
use brine_vault.Walrus.Client.Batches.{
  Filled, append-Holds, upload_batch-keeps, upload_batch-Filled,
}

module _ {S : Type 0} (c : Client S) (epochs : ℕ) (Kept : S → ℕ → List ℕ → Type 0)
    (net : BlobStore c epochs Kept) where
  upload_from-keeps :
      (fuel i : ℕ) (chunks : List (List ℕ)) (u : Upload S) (id : ℕ) (y : List ℕ)
      → Kept u.world id y
      → Kept (upload_from fuel c epochs i chunks u).world id y
  unfolding upload_from
  upload_from-keeps zero i chunks u id y h = h
  upload_from-keeps (suc fuel) i chunks u id y h =
      let u' = upload_batch c epochs i (take c.chunk_cfg.concurrency (drop i chunks)) u in
      let batch =
        upload_batch-keeps c epochs Kept net (take c.chunk_cfg.concurrency (drop i chunks)) i u id y
          h in
      let rest = upload_from-keeps fuel (i + c.chunk_cfg.concurrency) chunks u' id y batch in
      if-elim (λ (v : Upload S). Kept v.world id y) (ltb i (length chunks)) _ u
        (λ e.
          elim u'.failure
            as (λ o.
              Kept
                (elim o as (λ o'. Upload S) [
                  | none ↦ upload_from fuel c epochs (i + c.chunk_cfg.concurrency) chunks u'
                  | some e' ↦ u'
                ]).world
                id y) [ none ↦ rest | some e' ↦ batch ])
        (λ e. h)

  ended :
      (i : ℕ) (chunks : List (List ℕ)) (done : List ChunkEntry) (u : Upload S)
      → length chunks ≤ i
      → u.results ≡ done ++ replicate (length chunks - i) hole_entry
      → Filled c epochs Kept net done 0 i (drop i chunks) u
  ended i chunks done u over at =
      let none_left : length chunks - i ≡ 0 = omega arith in
      (
        [],
        at ∙ ap₂ (λ es k. es ++ replicate k hole_entry) (sym (append_nil done)) none_left,
        subst (λ xs. Holds Kept i [] xs u.world) (sym (drop_past i chunks over)) tt,
      )

  any_index :
      (i j : ℕ) (es : List ChunkEntry) (xs : List (List ℕ)) (w : S)
      → length xs ≡ 0
      → Holds Kept i es xs w
      → Holds Kept j es xs w
  any_index i j [] [] w none_left h = tt
  any_index i j (e ∷ es) [] w none_left h = absurd h
  any_index i j es (x ∷ xs) w none_left h = absurd (omega arith)

  -- What starts after a batch of at most `k` chunks starts `k` later, or is empty.
  from_count :
      (k i : ℕ) (chunks : List (List ℕ)) (es : List ChunkEntry) (w : S)
      → i < length chunks
      → Holds Kept (i + k) es (drop (i + k) chunks) w
      → Holds Kept (i + length (take k (drop i chunks))) es (drop (i + k) chunks) w
  from_count k i chunks es w more h = elim (Bool-cases (leb k (length chunks - i))) [
    | inl fits ↦
        let same : i + k ≡ i + length (take k (drop i chunks)) =
          ground (arith, length-take k (drop i chunks), length-drop i chunks) in
        subst (λ j. Holds Kept j es (drop (i + k) chunks) w) same h
    | inr over ↦
        any_index (i + k) _ es (drop (i + k) chunks) w (ground (arith, length-drop (i + k) chunks))
          h
  ]

  -- What a batch and what comes after it fill, joined.
  joined :
      (k i : ℕ) (chunks : List (List ℕ)) (done es1 es2 : List ChunkEntry) (u : Upload S)
      → Holds Kept i es1 (take k (drop i chunks)) u.world
      → u.results ≡ ((done ++ es1) ++ es2) ++ replicate 0 hole_entry
      → Holds Kept (i + k) es2 (drop (i + k) chunks) u.world
      → i < length chunks
      → Filled c epochs Kept net done 0 i (drop i chunks) u
  joined k i chunks done es1 es2 u first at rest more = (
    es1 ++ es2,
    at ∙ ap (λ xs. xs ++ replicate 0 hole_entry) (append_assoc done es1 es2),
    subst (λ xs. Holds Kept i (es1 ++ es2) xs u.world) (take-append-drop k (drop i chunks))
        (append-Holds c epochs Kept net i (i + length (take k (drop i chunks))) es1 es2
          (take k (drop i chunks)) (drop k (drop i chunks)) u.world refl first
          (subst (λ xs. Holds Kept (i + length (take k (drop i chunks))) es2 xs u.world)
            (sym (drop-drop i k chunks)) (from_count k i chunks es2 u.world more rest))),
  )

  abbrev batch_size : ℕ
  batch_size = c.chunk_cfg.concurrency

  abbrev one_batch : ℕ → List (List ℕ) → Upload S → Upload S
  one_batch i chunks u = upload_batch c epochs i (take batch_size (drop i chunks)) u

  abbrev next_round : ℕ → ℕ → List (List ℕ) → Upload S → Option WalrusError → Upload S
  next_round fuel i chunks u o = elim o [
    | none ↦ upload_from fuel c epochs (i + batch_size) chunks u
    | some e ↦ u
  ]

  -- What the rounds after a batch fill behind what the batch left.
  abbrev Later : ℕ → ℕ → List (List ℕ) → List ChunkEntry → Upload S → Type 0
  Later fuel i chunks done u =
      (es : List ChunkEntry)
      → length (done ++ es) ≡ min (i + batch_size) (length chunks)
      → u.results ≡ (done ++ es) ++ replicate (length chunks - (i + batch_size)) hole_entry
      → u.failure ≡ none
      → (upload_from fuel c epochs (i + batch_size) chunks u).failure ≡ none
      → Filled c epochs Kept net (done ++ es) 0 (i + batch_size) (drop (i + batch_size) chunks)
          (upload_from fuel c epochs (i + batch_size) chunks u)

  after_batch :
      (fuel i : ℕ) (chunks : List (List ℕ)) (done : List ChunkEntry) (u : Upload S)
      (o : Option WalrusError)
      → length done ≡ min i (length chunks)
      → u.results ≡ done ++ replicate (length chunks - i) hole_entry
      → (one_batch i chunks u).failure ≡ o
      → i < length chunks
      → (next_round fuel i chunks (one_batch i chunks u) o).failure ≡ none
      → Later fuel i chunks done (one_batch i chunks u)
      → Filled c epochs Kept net done 0 i
          (drop i chunks)
          (next_round fuel i chunks (one_batch i chunks u) o)
  after_batch fuel i chunks done u (some e) size at came more h' later = absurd (cc)
  after_batch fuel i chunks done u none size at came more h' later =
      let begun : length done ≡ i = ground (arith, size) in
      let parts : length chunks - i
          ≡ length (take batch_size (drop i chunks)) + (length chunks - (i + batch_size)) =
        omega (arith, length-take batch_size (drop i chunks), length-drop i chunks) in
      let (es1, at1, ups1) =
        subst
          (λ j.
            (upload_batch c epochs j (take batch_size (drop i chunks)) u).failure ≡ none
            → Filled c epochs Kept net done (length chunks - (i + batch_size)) j
                (take batch_size (drop i chunks))
                (upload_batch c epochs j (take batch_size (drop i chunks)) u))
          begun
          (upload_batch-Filled c epochs Kept net (take batch_size (drop i chunks)) done
            (length chunks - (i + batch_size)) u
            (at ∙ ap (λ n. done ++ replicate n hole_entry) parts))
          came in
      let size' : length (done ++ es1) ≡ min (i + batch_size) (length chunks) = ground (
        arith,
        length-append done es1,
        length-Holds Kept i es1 (take batch_size (drop i chunks)) (one_batch i chunks u).world ups1,
        length-take batch_size (drop i chunks),
        length-drop i chunks,
        begun,
      ) in
      let (es2, at2, ups2) = later es1 size' at1 came h' in
      joined batch_size i chunks done es1 es2
        (upload_from fuel c epochs (i + batch_size) chunks (one_batch i chunks u))
        (Holds-map Kept i es1 (take batch_size (drop i chunks)) (one_batch i chunks u).world
          (upload_from fuel c epochs (i + batch_size) chunks (one_batch i chunks u)).world
          (upload_from-keeps fuel (i + batch_size) chunks (one_batch i chunks u)) ups1)
        at2 ups2 more

  upload_from-Filled :
      (fuel i : ℕ) (chunks : List (List ℕ)) (done : List ChunkEntry) (u : Upload S)
      → 1 ≤ c.chunk_cfg.concurrency
      → length chunks ≤ i + fuel
      → length done ≡ min i (length chunks)
      → u.results ≡ done ++ replicate (length chunks - i) hole_entry
      → u.failure ≡ none
      → (upload_from fuel c epochs i chunks u).failure ≡ none
      → Filled c epochs Kept net done 0 i (drop i chunks) (upload_from fuel c epochs i chunks u)
  unfolding upload_from
  upload_from-Filled zero i chunks done u pos enough size at fine h =
      ended i chunks done u (omega arith) at
  upload_from-Filled (suc fuel) i chunks done u pos enough size at fine h =
      go (ltb i (length chunks)) refl h (λ es.
        upload_from-Filled fuel (i + batch_size) chunks (done ++ es) (one_batch i chunks u) pos
          (omega arith))
    where
      go :
          (b : Bool)
          → ltb i (length chunks) ≡ b
          → (if b
              then next_round fuel i chunks (one_batch i chunks u) (one_batch i chunks u).failure
              else u).failure
            ≡ none
          → Later fuel i chunks done (one_batch i chunks u)
          → Filled c epochs Kept net done 0 i (drop i chunks) (
              if b
              then next_round fuel i chunks (one_batch i chunks u) (one_batch i chunks u).failure
              else u)
      go false e h' later = ended i chunks done u (ground arith) at
      go true e h' later =
          after_batch fuel i chunks done u (one_batch i chunks u).failure size at refl
            (ground arith) h' later

  abbrev manifest_of : List ℕ → Upload S → ChunkManifest
  manifest_of data_ u = record {
    total_size = length data_;
    manifest_chunk_size = c.chunk_cfg.chunk_size;
    chunks = u.results;
  }

  closed :
      (data_ : List ℕ) (chunks : List (List ℕ)) (u : Upload S) (o : Option WalrusError)
      (m : ChunkManifest) (after : S)
      → (o ≡ none → Filled c epochs Kept net [] 0 0 chunks u)
      → (elim o as (λ o'. Result WalrusError ChunkManifest × S) [
        | some e ↦ (err e, u.world)
        | none ↦ (ok (manifest_of data_ u), u.world)
      ])
        ≡ (ok m, after)
      → (m.total_size ≡ length data_) × Holds Kept 0 m.chunks chunks after
  closed data_ chunks u (some e) m after fill came = absurd (cc)
  closed data_ chunks u none m after fill came =
      let same : manifest_of data_ u ≡ m = cc in
      let world : u.world ≡ after = ap (λ r. r.1) came in
      let (entries, at, holds) = fill refl in
      let all : u.results ≡ entries = at ∙ append_nil entries in
      (
        sym (ap (λ m'. m'.total_size) same),
        subst (λ m'. Holds Kept 0 m'.chunks chunks after) same
            (subst (λ es. Holds Kept 0 es chunks after) (sym all)
              (subst (λ w. Holds Kept 0 entries chunks w) world holds)),
      )

  -- A chunked upload that gives a manifest has stored every chunk, in the order of the entries.
  pub upload_chunks-Holds :
      (data_ : List ℕ) (before after : S) (m : ChunkManifest)
      → 1 ≤ c.chunk_cfg.concurrency
      → upload_chunks c data_ epochs before ≡ (ok m, after)
      → (m.total_size ≡ length data_)
        × Holds Kept 0 m.chunks (split c.chunk_cfg.chunk_size data_) after
  unfolding upload_chunks
  upload_chunks-Holds data_ before after m pos came =
      let chunks = split c.chunk_cfg.chunk_size data_ in
      let start : Upload S = record {
        world = before;
        progress = started (length chunks);
        results = replicate (length chunks) hole_entry;
        failure = none;
      } in
      let u = upload_from (length chunks) c epochs 0 chunks start in
      let holes_ : length chunks ≡ length chunks - 0 = omega arith in
      closed data_ chunks u u.failure m after
        (upload_from-Filled (length chunks) 0 chunks [] start pos (omega arith) (ground arith)
          (ap (λ n. replicate n hole_entry) holes_) refl)
        came
