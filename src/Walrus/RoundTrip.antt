-- ===== src/Walrus/RoundTrip.antt =====
-- upload and download of WalrusClient together: packages/walrus-sdk/src/client.ts.
use brine_vault.Base.{
  ℕ, ◌≤◌, ltb, if◌then◌else◌, true, Bool, false, Option, List, length, Result, ok, err, ◌≡◌, refl,
  ap, subst,
}
use brine_vault.Walrus.Retry.{WalrusError, should_chunk}
use brine_vault.Walrus.Client.{
  Client, ChunkManifest, UploadReply, UploadResult, single, chunked, BlobRef, blob, manifest,
  epochs_or, upload_single_blob, upload_chunks, as_chunked, or_chunked, upload,
}
use brine_vault.Walrus.Download.{download, download_chunks}
use brine_vault.Walrus.Store.{BlobStore}
use brine_vault.Walrus.Download.Whole.{download_chunks-upload_chunks}

-- What a caller hands to `download` for the result of an upload.
abbrev pub ref_of : UploadResult → BlobRef
ref_of (single id size) = blob id
ref_of (chunked m size) = manifest m

-- The epochs an upload pays for.
abbrev pub paid_epochs : {S : Type 0} → Client S → Option ℕ → ℕ
paid_epochs c epochs = epochs_or epochs (epochs_or c.cfg.default_epochs 10)

module _ {S : Type 0} (c : Client S) (epochs : Option ℕ) (Kept : S → ℕ → List ℕ → Type 0)
    (net : BlobStore c (paid_epochs c epochs) Kept) (data_ : List ℕ) (before after : S)
    (result : UploadResult) (some_batch : 1 ≤ c.chunk_cfg.concurrency)
    (some_bytes : 1 ≤ c.chunk_cfg.chunk_size) where
  abbrev Reads : Type 0
  Reads = (download c (ref_of result) after).0 ≡ ok data_

  chunked_reads :
      (start : S) (r : Result WalrusError ChunkManifest × S)
      → upload_chunks c data_ (paid_epochs c epochs) start ≡ r
      → as_chunked (length data_) r ≡ (ok result, after)
      → Reads
  unfolding download
  chunked_reads start (err e, s) ran came = absurd (cc)
  chunked_reads start (ok m, s) ran came =
      let same : chunked m (length data_) ≡ result = cc in
      let world : s ≡ after = ap (λ r. r.1) came in
      subst (λ x. (download c (ref_of x) after).0 ≡ ok data_) same
        (subst (λ w. (download_chunks c m w).0 ≡ ok data_) world
          (download_chunks-upload_chunks c (paid_epochs c epochs) Kept net data_ start s m
            some_batch some_bytes ran))

  single_reads :
      (r : Result WalrusError UploadReply × S)
      → upload_single_blob c data_ (paid_epochs c epochs) before ≡ r
      → or_chunked c data_ (paid_epochs c epochs) r ≡ (ok result, after)
      → Reads
  unfolding download
  single_reads (ok reply, s) ran came =
      let same : single reply.blob_id (length data_) ≡ result = cc in
      let world : s ≡ after = ap (λ r. r.1) came in
      subst (λ x. (download c (ref_of x) after).0 ≡ ok data_) same
        (subst (λ w. (download c (blob reply.blob_id) w).0 ≡ ok data_) world
          (net.reads data_ reply.blob_id s (net.stored data_ before s reply ran)))
  single_reads (err e, s) ran came = fallback (should_chunk e) came
    where
      fallback :
          (b : Bool)
          → (if b
              then as_chunked (length data_) (upload_chunks c data_ (paid_epochs c epochs) s)
              else (err e, s))
            ≡ (ok result, after)
          → Reads
      fallback true came' = chunked_reads s _ refl came'
      fallback false came' = absurd (cc)

  -- When the chunk size and the batch size are at least one and the network keeps what it stored,
  -- a result of `upload`, as a single blob, as chunks or as chunks after a status of 413, is
  -- downloaded, in the world right after the upload, as the data that was uploaded.
  pub download-upload :
      upload c data_ epochs before ≡ (ok result, after)
      → (download c (ref_of result) after).0 ≡ ok data_
  unfolding upload
  download-upload came = by_size (ltb c.chunk_cfg.chunk_threshold (length data_)) came
    where
      by_size :
          (b : Bool)
          → (if b
              then as_chunked (length data_) (upload_chunks c data_ (paid_epochs c epochs) before)
              else or_chunked c data_
                  (paid_epochs c epochs)
                  (upload_single_blob c data_ (paid_epochs c epochs) before))
            ≡ (ok result, after)
          → Reads
      by_size true came' = chunked_reads before _ refl came'
      by_size false came' = single_reads _ refl came'
