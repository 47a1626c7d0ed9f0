-- ===== src/Walrus/Download/Whole.antt =====
-- The whole of a chunked download: packages/walrus-sdk/src/chunked-download.ts.
use brine_vault.Base.{
  ℕ, zero, suc, ◌+◌, ◌-◌, ◌≤◌, ltb, leb, if-elim, Option, none, some, true, List, [], ◌∷◌, ◌++◌,
  length, take, drop, replicate, map, Result, ok, err, ◌≡◌, refl, sym, ap, ap₂, subst, ◌∙◌,
  length-append, length-take, length-drop, arith,
}
use brine_vault.Walrus.Retry.{WalrusError}
use brine_vault.Walrus.Chunks.{concat, split, concat-split, reassemble}
use brine_vault.Walrus.Client.{
  Client, ChunkEntry, ChunkManifest, started, download_single_blob, upload_chunks,
}
use brine_vault.Walrus.Store.{BlobStore, Holds, Holds-map, length-Holds}
use brine_vault.Walrus.Client.Uploaded.{upload_chunks-Holds}
use brine_vault.Walrus.Download.{
  insert_chunk, sort_chunks, put_chunk, Download, record_download, download_batch, download_from,
  download_chunks,
}
use brine_vault.Walrus.Pieces.{append_assoc, append_nil, take_all, take_more}
use brine_vault.Walrus.Chunks.Joined.{reassemble_lem}

put_chunk_lem :
    (done : List (List ℕ)) (n : ℕ) (chunk : List ℕ)
    → put_chunk (map some done ++ replicate (suc n) none) (length done) chunk
      ≡ map some (done ++ (chunk ∷ [])) ++ replicate n none
unfolding put_chunk
put_chunk_lem [] n chunk = refl
put_chunk_lem (x ∷ done) n chunk = ap (◌∷◌ (some x)) (put_chunk_lem done n chunk)

module _ {S : Type 0} (c : Client S) (epochs : ℕ) (Kept : S → ℕ → List ℕ → Type 0)
    (net : BlobStore c epochs Kept) where
  sort_chunks-Holds :
      (i : ℕ) (entries : List ChunkEntry) (chunks : List (List ℕ)) (w : S)
      → Holds Kept i entries chunks w
      → sort_chunks entries ≡ entries
  unfolding sort_chunks
  sort_chunks-Holds i [] chunks w h = refl
  sort_chunks-Holds i (e ∷ []) (x ∷ chunks) w h = refl
  sort_chunks-Holds i (e ∷ f ∷ entries) (x ∷ y ∷ chunks) w h =
      let first : leb e.index f.index ≡ true = ground (arith, h.0, h.2.0) in
      ap (insert_chunk e) (sort_chunks-Holds (suc i) (f ∷ entries) (y ∷ chunks) w h.2)
      ∙ rw first refl
  sort_chunks-Holds i (e ∷ f ∷ entries) (x ∷ []) w h = absurd h.2
  sort_chunks-Holds i (e ∷ entries) [] w h = absurd h

  -- After the chunks `done`, with `n` holes left.
  abbrev At : List (List ℕ) → ℕ → Download S → Type 0
  At done n d = (d.failure ≡ none) × (d.downloaded ≡ map some done ++ replicate n none)

  record_download-At :
      (done : List (List ℕ)) (n i : ℕ) (chunk : List ℕ) (d : Download S)
      (r : Result WalrusError (List ℕ) × S)
      → r.0 ≡ ok chunk
      → i ≡ length done
      → At done (suc n) d
      → At (done ++ (chunk ∷ [])) n (record_download d i r)
  record_download-At done n i chunk d (ok x, s) h e at = (
    at.0,
    ap₂ (λ (a : List (Option (List ℕ))) j. put_chunk a j x) at.1 e
        ∙ ap (put_chunk (map some done ++ replicate (suc n) none) (length done)) (cc)
        ∙ put_chunk_lem done n chunk,
  )
  record_download-At done n i chunk d (err x, s) h e at = cc

  record_download-world :
      (d : Download S) (i : ℕ) (r : Result WalrusError (List ℕ) × S)
      → (record_download d i r).world ≡ r.1
  record_download-world d i (ok x, s) = refl
  record_download-world d i (err e, s) = refl

  -- A download keeps what is stored.
  record_download-keeps :
      (d : Download S) (e : ChunkEntry) (id : ℕ) (y : List ℕ)
      → Kept d.world id y
      → Kept (record_download d e.index (download_single_blob c e.chunk_blob d.world)).world id y
  record_download-keeps d e id y h =
      subst (λ w. Kept w id y)
        (sym (record_download-world d e.index (download_single_blob c e.chunk_blob d.world)))
        (net.download_keeps y id e.chunk_blob d.world h)

  download_batch-keeps :
      (entries : List ChunkEntry) (d : Download S) (id : ℕ) (y : List ℕ)
      → Kept d.world id y
      → Kept (download_batch c entries d).world id y
  unfolding download_batch
  download_batch-keeps [] d id y h = h
  download_batch-keeps (e ∷ entries) d id y h =
      download_batch-keeps entries _ id y (record_download-keeps d e id y h)

  download_batch-At :
      (entries : List ChunkEntry) (chunks done : List (List ℕ)) (n : ℕ) (d : Download S)
      → Holds Kept (length done) entries chunks d.world
      → At done (length chunks + n) d
      → At (done ++ chunks) n (download_batch c entries d)
  unfolding download_batch
  download_batch-At [] [] done n d h at =
      let none_left : 0 + n ≡ n = omega arith in
      (at.0, at.1 ∙ ap₂ (λ xs k. map some xs ++ replicate k none) (sym (append_nil done)) none_left)
  download_batch-At (e ∷ entries) (x ∷ chunks) done n d h at =
      let d1 = record_download d e.index (download_single_blob c e.chunk_blob d.world) in
      let count : length (done ++ (x ∷ [])) ≡ suc (length done) =
        omega (arith, length-append done (x ∷ [])) in
      let more : suc (length chunks) + n ≡ suc (length chunks + n) = omega arith in
      let here : At done (suc (length chunks + n)) d = subst (λ k. At done k d) more at in
      let next =
        record_download-At done (length chunks + n) e.index x d
          (download_single_blob c e.chunk_blob d.world) (net.reads x e.chunk_blob d.world h.1) h.0
          here in
      let rest : Holds Kept (length (done ++ (x ∷ []))) entries chunks d1.world =
        subst (λ i. Holds Kept i entries chunks d1.world) (sym count)
          (Holds-map Kept (suc (length done)) entries chunks d.world d1.world
            (record_download-keeps d e) h.2) in
      subst (λ xs. At xs n (download_batch c entries d1)) (append_assoc done (x ∷ []) chunks)
        (download_batch-At entries chunks (done ++ (x ∷ [])) n d1 rest next)
  download_batch-At [] (x ∷ chunks) done n d h at = absurd h
  download_batch-At (e ∷ entries) [] done n d h at = absurd h

  Holds-drop :
      (k i : ℕ) (entries : List ChunkEntry) (chunks : List (List ℕ)) (w : S)
      → Holds Kept i entries chunks w
      → Holds Kept (i + k) (drop k entries) (drop k chunks) w
  Holds-drop zero i entries chunks w h =
      let same : i ≡ i + 0 = omega arith in subst (λ j. Holds Kept j entries chunks w) same h
  Holds-drop (suc k) i [] [] w h = tt
  Holds-drop (suc k) i (e ∷ entries) (x ∷ chunks) w h =
      let same : suc i + k ≡ i + suc k = omega arith in
      subst (λ j. Holds Kept j (drop k entries) (drop k chunks) w) same
        (Holds-drop k (suc i) entries chunks w h.2)
  Holds-drop (suc k) i [] (x ∷ chunks) w h = absurd h
  Holds-drop (suc k) i (e ∷ entries) [] w h = absurd h

  Holds-take :
      (k i : ℕ) (entries : List ChunkEntry) (chunks : List (List ℕ)) (w : S)
      → Holds Kept i entries chunks w
      → Holds Kept i (take k entries) (take k chunks) w
  Holds-take zero i entries chunks w h = tt
  Holds-take (suc k) i [] [] w h = tt
  Holds-take (suc k) i (e ∷ entries) (x ∷ chunks) w h =
      (h.0, h.1, Holds-take k (suc i) entries chunks w h.2)
  Holds-take (suc k) i [] (x ∷ chunks) w h = absurd h
  Holds-take (suc k) i (e ∷ entries) [] w h = absurd h

  download_from-At :
      (fuel i : ℕ) (entries : List ChunkEntry) (chunks : List (List ℕ)) (d : Download S)
      → 1 ≤ c.chunk_cfg.concurrency
      → Holds Kept 0 entries chunks d.world
      → length chunks ≤ i + fuel
      → At (take i chunks) (length chunks - i) d
      → At chunks 0 (download_from fuel c i entries d)
  unfolding download_from
  download_from-At zero i entries chunks d pos h enough at =
      let no_more : length chunks - i ≡ 0 = omega arith in
      subst (λ xs. At xs 0 d) (take_all i chunks (omega arith))
        (subst (λ n. At (take i chunks) n d) no_more at)
  download_from-At (suc fuel) i entries chunks d pos h enough at =
      let k = c.chunk_cfg.concurrency in
      let d' = download_batch c (take k (drop i entries)) d in
      let size = length-Holds Kept 0 entries chunks d.world h in
      if-elim (At chunks 0) (ltb i (length entries)) _ d
        (λ e.
          let begun : length (take i chunks) ≡ i = ground (arith, length-take i chunks, size) in
          let parts : length chunks - i
              ≡ length (take k (drop i chunks)) + (length chunks - (i + k)) =
            omega (arith, length-take k (drop i chunks), length-drop i chunks) in
          let batch : Holds Kept (length (take i chunks)) (take k (drop i entries))
              (take k (drop i chunks)) d.world =
            let same : 0 + i ≡ length (take i chunks) = omega (arith, begun) in
            subst (λ j. Holds Kept j (take k (drop i entries)) (take k (drop i chunks)) d.world)
              same
              (Holds-take k (0 + i) (drop i entries) (drop i chunks) d.world
                (Holds-drop i 0 entries chunks d.world h)) in
          let after =
            download_batch-At (take k (drop i entries)) (take k (drop i chunks)) (take i chunks)
              (length chunks - (i + k)) d batch (subst (λ n. At (take i chunks) n d) parts at) in
          let later : At (take (i + k) chunks) (length chunks - (i + k)) d' =
            subst (λ xs. At xs (length chunks - (i + k)) d') (take_more i k chunks) after in
          let kept =
            Holds-map Kept 0 entries chunks d.world d'.world
              (download_batch-keeps (take k (drop i entries)) d) h in
          subst
            (λ o.
              At chunks 0
                (elim o [ none ↦ download_from fuel c (i + k) entries d' | some e' ↦ d' ]))
            (sym later.0)
            (download_from-At fuel (i + k) entries chunks d' pos kept (omega arith) later))
        (λ e.
          let no_more : length chunks - i ≡ 0 = ground (arith, size) in
          subst (λ xs. At xs 0 d) (take_all i chunks (ground (arith, size)))
            (subst (λ n. At (take i chunks) n d) no_more at))

  finish :
      (chunks : List (List ℕ)) (total : ℕ) (d : Download S)
      → At chunks 0 d
      → total ≡ length (concat chunks)
      → (elim d.failure as (λ o. Result WalrusError (List ℕ) × S) [
        | some e ↦ (err e, d.world)
        | none ↦ (reassemble d.downloaded total, d.world)
      ]).0
        ≡ ok (concat chunks)
  finish chunks total d at whole =
      ap₂
        (λ (o : Option WalrusError) (xs : List (Option (List ℕ))).
          (elim o as (λ o'. Result WalrusError (List ℕ) × S) [
            | some e ↦ (err e, d.world)
            | none ↦ (reassemble xs total, d.world)
          ]).0)
        at.0 (at.1 ∙ append_nil (map some chunks))
      ∙ ap (reassemble (map some chunks)) whole
      ∙ reassemble_lem chunks

  -- A manifest whose entries name, in order, blobs that hold some chunks, and whose total is their
  -- length, downloads as these chunks joined, for any batch size of at least one.
  pub download_chunks-whole :
      (m : ChunkManifest) (chunks : List (List ℕ)) (world : S)
      → 1 ≤ c.chunk_cfg.concurrency
      → Holds Kept 0 m.chunks chunks world
      → m.total_size ≡ length (concat chunks)
      → (download_chunks c m world).0 ≡ ok (concat chunks)
  unfolding download_chunks
  download_chunks-whole m chunks world pos h total =
      let size = length-Holds Kept 0 m.chunks chunks world h in
      let start : Download S = record {
        world = world;
        progress = started (length m.chunks);
        downloaded = replicate (length m.chunks) none;
        failure = none;
      } in
      let holes_ : length m.chunks ≡ length chunks - 0 = omega (arith, size) in
      let at_start : At [] (length chunks - 0) start = (refl, ap (λ n. replicate n none) holes_) in
      finish chunks m.total_size (download_from (length m.chunks) c 0 (sort_chunks m.chunks) start)
        (subst (λ es. At chunks 0 (download_from (length m.chunks) c 0 es start))
          (sym (sort_chunks-Holds 0 m.chunks chunks world h))
          (download_from-At (length m.chunks) 0 m.chunks chunks start pos h (omega (arith, size))
            at_start))
        total

  -- What a chunked upload stored, a chunked download of its manifest reads in the world right after,
  -- for a batch size and a chunk size of at least one.
  pub download_chunks-upload_chunks :
      (data_ : List ℕ) (before after : S) (m : ChunkManifest)
      → 1 ≤ c.chunk_cfg.concurrency
      → 1 ≤ c.chunk_cfg.chunk_size
      → upload_chunks c data_ epochs before ≡ (ok m, after)
      → (download_chunks c m after).0 ≡ ok data_
  download_chunks-upload_chunks data_ before after m pos some_bytes came =
      let (total, holds) = upload_chunks-Holds c epochs Kept net data_ before after m pos came in
      let chunks = split c.chunk_cfg.chunk_size data_ in
      let joined : concat chunks ≡ data_ =
        (concat-split c.chunk_cfg.chunk_size data_ some_bytes).0 in
      download_chunks-whole m chunks after pos holds (total ∙ ap length (sym joined)) ∙ ap ok joined
