-- ===== src/Walrus/Client.antt =====
-- WalrusClient, ChunkedUploader and ChunkedDownloader: packages/walrus-sdk/src/client.ts,
-- chunked-upload.ts, chunked-download.ts. The publisher and the aggregators are reached through
-- a record of requests, a parameter; URLs, blob ids and exceptions are numbers. The uploads of
-- one batch run in the order of the batch. The progress is kept, the callback that shows it is not
-- called.
pub mod Fallback
pub mod Batches
pub mod Uploaded
use brine_vault.Base.{
  ℕ, zero, suc, ◌+◌, ◌-◌, ◌*◌, ◌/◌, ltb, leb, ◌==◌, if◌then◌else◌, Bool, true, false, ◌&&◌, Option,
  none, some, List, [], ◌∷◌, ◌++◌, length, get_or, set, take, drop, replicate, map, Result, ok, err,
}
use brine_vault.Walrus.Retry.{
  WalrusError, walrus_api_error, other_error, undefined_error, RetryConfig, Run, with_retry,
  should_chunk,
}
use brine_vault.Walrus.Chunks.{split, reassemble}

-- The body of an answer to an upload or an extension, as far as the client hands it on: the blob and
-- the epoch in which it expires; its size and cost are left out.
pub record UploadReply : Type 0 where
  pub blob_id : ℕ
  pub expiry_epoch : ℕ

-- What `fetch` gives: a status with the body read, or an exception.
pub data Reply (A : Type 0) : Type 0 where
  answered : ℕ → A → Reply A
  unreachable : ℕ → Reply A

-- The requests, each from the world before to its reply and the world after.
pub record Http (S : Type 0) : Type 0 where
  pub post_blob : ℕ → ℕ → List ℕ → S → Reply UploadReply × S
  pub post_extend : ℕ → ℕ → ℕ → S → Reply UploadReply × S
  pub get_blob : ℕ → ℕ → S → Reply (List ℕ) × S

-- `if (!res.ok) throw new WalrusApiError(...)`; `ok` is a status of 200 to 299.
unfoldable pub accept : {A : Type 0} → Reply A → Result WalrusError A
accept (answered status a) =
    if leb 200 status && leb status 299 then ok a else err (walrus_api_error status)
accept (unreachable e) = err (other_error e)

pub record WalrusConfig : Type 0 where
  pub publisher_url : ℕ
  pub aggregator_url : ℕ
  pub fallback_aggregators : Option (List ℕ)
  pub default_epochs : Option ℕ

pub record ChunkConfig : Type 0 where
  pub chunk_threshold : ℕ
  pub chunk_size : ℕ
  pub concurrency : ℕ

abbrev pub default_chunk_config : ChunkConfig
default_chunk_config = record {
  chunk_threshold = 50 * 1024 * 1024;
  chunk_size = 10 * 1024 * 1024;
  concurrency = 3;
}

pub record Client (S : Type 0) : Type 0 where
  pub http : Http S
  pub cfg : WalrusConfig
  pub chunk_cfg : ChunkConfig
  pub upload_retry : RetryConfig
  pub renewal_retry : RetryConfig

pub record ChunkEntry : Type 0 where
  pub index : ℕ
  pub chunk_blob : ℕ
  pub size : ℕ

pub record ChunkManifest : Type 0 where
  pub total_size : ℕ
  pub manifest_chunk_size : ℕ
  pub chunks : List ChunkEntry

pub data TransferStatus : Type 0 where
  transferring completed failed : TransferStatus

pub record Progress : Type 0 where
  pub total_chunks : ℕ
  pub completed_chunks : ℕ
  pub overall_progress : ℕ
  pub failed_chunks : List ℕ
  pub status : TransferStatus

pub data UploadResult : Type 0 where
  single : ℕ → ℕ → UploadResult
  chunked : ChunkManifest → ℕ → UploadResult

pub data BlobRef : Type 0 where
  blob : ℕ → BlobRef
  manifest : ChunkManifest → BlobRef

abbrev pub is_not_found : WalrusError → Bool
is_not_found (walrus_api_error status) = status == 404
is_not_found (other_error e) = false
is_not_found undefined_error = false

abbrev pub aggregators : WalrusConfig → List ℕ
aggregators cfg = cfg.aggregator_url ∷ elim cfg.fallback_aggregators [ none ↦ [] | some us ↦ us ]

-- `Math.round((completed / total) * 100)`.
abbrev pub percent : ℕ → ℕ → ℕ
percent completed_ total = (200 * completed_ + total) / (2 * total)

abbrev pub started : ℕ → Progress
started total = record {
  total_chunks = total;
  completed_chunks = 0;
  overall_progress = 0;
  failed_chunks = [];
  status = transferring;
}

abbrev pub chunk_done : Progress → Progress
chunk_done p = record {
  total_chunks = p.total_chunks;
  completed_chunks = suc p.completed_chunks;
  overall_progress = percent (suc p.completed_chunks) p.total_chunks;
  failed_chunks = p.failed_chunks;
  status = p.status;
}

abbrev pub chunk_failed : Progress → ℕ → Progress
chunk_failed p index = record {
  total_chunks = p.total_chunks;
  completed_chunks = p.completed_chunks;
  overall_progress = p.overall_progress;
  failed_chunks = p.failed_chunks ++ (index ∷ []);
  status = failed;
}

-- The first exception of a batch.
abbrev pub first_error : Option WalrusError → WalrusError → Option WalrusError
first_error none e = some e
first_error (some e) e' = some e

-- The array starts with a hole for each chunk.
abbrev pub hole_entry : ChunkEntry
hole_entry = record { index = 0; chunk_blob = 0; size = 0 }

-- The variables of an upload, and the exception that rejects the current batch.
-- `epochs ?? otherwise`.
abbrev pub epochs_or : Option ℕ → ℕ → ℕ
epochs_or none otherwise = otherwise
epochs_or (some n) otherwise = n

pub record Upload (S : Type 0) : Type 0 where
  pub world : S
  pub progress : Progress
  pub results : List ChunkEntry
  pub failure : Option WalrusError

module _ {S : Type 0} where
  abbrev pub settle : {A : Type 0} → Run S A → Result WalrusError A × S
  settle r = (r.outcome, r.world)

  abbrev pub requested : {A : Type 0} → (S → Reply A × S) → S → Result WalrusError A × S
  requested request s = let (reply, s') = request s in (accept reply, s')

  unfoldable pub upload_single_blob : Client S → List ℕ → ℕ → S → Result WalrusError UploadReply × S
  upload_single_blob c data_ epochs s =
      settle (
        with_retry c.upload_retry (requested (c.http.post_blob c.cfg.publisher_url epochs data_)) s)

  unfoldable pub extend : Client S → ℕ → ℕ → S → Result WalrusError UploadReply × S
  extend c blob_id epochs s = settle (
      with_retry c.renewal_retry (requested (c.http.post_extend c.cfg.publisher_url blob_id epochs))
        s)

  -- One aggregator, with retry.
  unfoldable pub read_blob : Client S → ℕ → ℕ → S → Result WalrusError (List ℕ) × S
  read_blob c blob_id url s =
      settle (with_retry c.upload_retry (requested (c.http.get_blob url blob_id)) s)

  -- What follows one aggregator's answer: an error of status 404 ends the search, any other
  -- error goes on to the next aggregator.
  unfoldable pub or_next :
      Result WalrusError (List ℕ) × S
      → (WalrusError → S → Result WalrusError (List ℕ) × S)
      → Result WalrusError (List ℕ) × S
  or_next (ok data_, s) next = (ok data_, s)
  or_next (err e, s) next = if is_not_found e then (err e, s) else next e s

  unfoldable pub try_aggregators :
      Client S → ℕ → List ℕ → WalrusError → S → Result WalrusError (List ℕ) × S
  try_aggregators c blob_id [] last_error s = (err last_error, s)
  try_aggregators c blob_id (url ∷ urls) last_error s =
      or_next (read_blob c blob_id url s) (λ e s'. try_aggregators c blob_id urls e s')

  unfoldable pub download_single_blob : Client S → ℕ → S → Result WalrusError (List ℕ) × S
  download_single_blob c blob_id s = try_aggregators c blob_id (aggregators c.cfg) undefined_error s

  abbrev pub record_upload : Upload S → ℕ → List ℕ → Result WalrusError UploadReply × S → Upload S
  record_upload u i chunk (ok reply, s) = record {
    world = s;
    progress = chunk_done u.progress;
    results =
        set u.results i (record { index = i; chunk_blob = reply.blob_id; size = length chunk });
    failure = u.failure;
  }
  record_upload u i chunk (err e, s) = record {
    world = s;
    progress = chunk_failed u.progress i;
    results = u.results;
    failure = first_error u.failure e;
  }

  -- A batch whose first chunk has the index i; every chunk of it is tried.
  unfoldable pub upload_batch : Client S → ℕ → ℕ → List (List ℕ) → Upload S → Upload S
  upload_batch c epochs i [] u = u
  upload_batch c epochs i (chunk ∷ batch) u =
      upload_batch c epochs (suc i) batch
        (record_upload u i chunk (upload_single_blob c chunk epochs u.world))

  unfoldable pub upload_from : ℕ → Client S → ℕ → ℕ → List (List ℕ) → Upload S → Upload S
  upload_from zero c epochs i chunks_ u = u
  upload_from (suc fuel) c epochs i chunks_ u =
      let k = c.chunk_cfg.concurrency in
      let u' = upload_batch c epochs i (take k (drop i chunks_)) u in
      let rest = upload_from fuel c epochs (i + k) chunks_ u' in
      if ltb i (length chunks_) then elim u'.failure [ none ↦ rest | some e ↦ u' ] else u

  unfoldable pub upload_chunks : Client S → List ℕ → ℕ → S → Result WalrusError ChunkManifest × S
  upload_chunks c data_ epochs s =
      let chunks_ = split c.chunk_cfg.chunk_size data_ in
      let u = upload_from (length chunks_) c epochs 0 chunks_ (record {
        world = s;
        progress = started (length chunks_);
        results = replicate (length chunks_) hole_entry;
        failure = none;
      }) in
      elim u.failure [
        | some e ↦ (err e, u.world)
        | none ↦ (
          ok (record {
            total_size = length data_;
            manifest_chunk_size = c.chunk_cfg.chunk_size;
            chunks = u.results;
          }),
          u.world,
        )
      ]

  abbrev pub as_chunked :
      ℕ → Result WalrusError ChunkManifest × S → Result WalrusError UploadResult × S
  as_chunked size_ (ok m, s) = (ok (chunked m size_), s)
  as_chunked size_ (err e, s) = (err e, s)

  -- A status of 413 switches to chunks.
  abbrev pub or_chunked :
      Client S
      → List ℕ
      → ℕ
      → Result WalrusError UploadReply × S
      → Result WalrusError UploadResult × S
  or_chunked c data_ ep (ok reply, s) = (ok (single reply.blob_id (length data_)), s)
  or_chunked c data_ ep (err e, s) =
      if should_chunk e then as_chunked (length data_) (upload_chunks c data_ ep s) else (err e, s)

  unfoldable pub upload : Client S → List ℕ → Option ℕ → S → Result WalrusError UploadResult × S
  upload c data_ epochs s =
      let ep = epochs_or epochs (epochs_or c.cfg.default_epochs 10) in
      if ltb c.chunk_cfg.chunk_threshold (length data_)
      then as_chunked (length data_) (upload_chunks c data_ ep s)
      else or_chunked c data_ ep (upload_single_blob c data_ ep s)
