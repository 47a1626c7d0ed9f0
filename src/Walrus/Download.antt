-- ===== src/Walrus/Download.antt =====
-- ChunkedDownloader.download and WalrusClient.download: packages/walrus-sdk/src/chunked-download.ts
-- and client.ts. The downloads of one batch run in the order of the batch.
pub mod Whole
use brine_vault.Base.{
  ℕ, zero, suc, ◌+◌, ltb, leb, if◌then◌else◌, Option, none, some, List, [], ◌∷◌, length, take, drop,
  replicate, Result, ok, err,
}
use brine_vault.Walrus.Retry.{WalrusError}
use brine_vault.Walrus.Chunks.{reassemble}
use brine_vault.Walrus.Client.{
  Client, ChunkEntry, ChunkManifest, Progress, BlobRef, blob, manifest, started, chunk_done,
  chunk_failed, first_error, download_single_blob,
}

-- `sort((a, b) => a.index - b.index)`, which keeps the order of equal indices.
abbrev pub insert_chunk : ChunkEntry → List ChunkEntry → List ChunkEntry
insert_chunk c [] = c ∷ []
insert_chunk c (d ∷ ds) = if leb c.index d.index then c ∷ d ∷ ds else d ∷ insert_chunk c ds

unfoldable pub sort_chunks : List ChunkEntry → List ChunkEntry
sort_chunks [] = []
sort_chunks (c ∷ cs) = insert_chunk c (sort_chunks cs)

-- `downloaded[index] = data`: an index beyond the end makes the array longer, with holes.
unfoldable pub put_chunk : List (Option (List ℕ)) → ℕ → List ℕ → List (Option (List ℕ))
put_chunk [] zero data_ = some data_ ∷ []
put_chunk [] (suc i) data_ = none ∷ put_chunk [] i data_
put_chunk (d ∷ ds) zero data_ = some data_ ∷ ds
put_chunk (d ∷ ds) (suc i) data_ = d ∷ put_chunk ds i data_

-- The variables of a download, and the exception that rejects the current batch.
pub record Download (S : Type 0) : Type 0 where
  pub world : S
  pub progress : Progress
  pub downloaded : List (Option (List ℕ))
  pub failure : Option WalrusError

module _ {S : Type 0} where
  abbrev pub record_download : Download S → ℕ → Result WalrusError (List ℕ) × S → Download S
  record_download d i (ok data_, s) = record {
    world = s;
    progress = chunk_done d.progress;
    downloaded = put_chunk d.downloaded i data_;
    failure = d.failure;
  }
  record_download d i (err e, s) = record {
    world = s;
    progress = chunk_failed d.progress i;
    downloaded = d.downloaded;
    failure = first_error d.failure e;
  }

  unfoldable pub download_batch : Client S → List ChunkEntry → Download S → Download S
  download_batch c [] d = d
  download_batch c (chunk ∷ batch) d =
      download_batch c batch
        (record_download d chunk.index (download_single_blob c chunk.chunk_blob d.world))

  unfoldable pub download_from : ℕ → Client S → ℕ → List ChunkEntry → Download S → Download S
  download_from zero c i sorted d = d
  download_from (suc fuel) c i sorted d =
      let k = c.chunk_cfg.concurrency in
      let d' = download_batch c (take k (drop i sorted)) d in
      let rest = download_from fuel c (i + k) sorted d' in
      if ltb i (length sorted) then elim d'.failure [ none ↦ rest | some e ↦ d' ] else d

  unfoldable pub download_chunks : Client S → ChunkManifest → S → Result WalrusError (List ℕ) × S
  download_chunks c m s =
      let total = length m.chunks in
      let d = download_from total c 0 (sort_chunks m.chunks) (record {
        world = s;
        progress = started total;
        downloaded = replicate total none;
        failure = none;
      }) in
      elim d.failure [
        | some e ↦ (err e, d.world)
        | none ↦ (reassemble d.downloaded m.total_size, d.world)
      ]

  unfoldable pub download : Client S → BlobRef → S → Result WalrusError (List ℕ) × S
  download c (blob blob_id) s = download_single_blob c blob_id s
  download c (manifest m) s = download_chunks c m s
