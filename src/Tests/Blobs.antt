-- ===== src/Tests/Blobs.antt =====
-- A storage network that keeps what it stores, and the client of packages/walrus-sdk/src over it.
use brine_vault.Base.{
  ℕ, zero, suc, subst, Option, none, some, List, [], ◌∷◌, ◌++◌, length, Bool, true, false, Result,
  ok, err, ◌≡◌, refl, sym, ap, ◌∙◌, arith,
}
use brine_vault.Walrus.Retry.{
  WalrusError, walrus_api_error, default_upload_retry, with_retry, retry_from, retry_step, is_final,
  after_sleep, stop, non_retryable, should_chunk,
}
use brine_vault.Walrus.Client.{
  Client, Http, Reply, answered, UploadReply, accept, upload, UploadResult, chunked, or_next,
  read_blob, upload_single_blob, download_single_blob, try_aggregators,
}
use brine_vault.Walrus.Download.{download}
use brine_vault.Walrus.Store.{BlobStore}
use brine_vault.Walrus.RoundTrip.{ref_of, download-upload}

-- The world is the list of the blobs; the id of a blob is its place.
abbrev pub Blobs : Type 0
Blobs = List (List ℕ)

abbrev pub nth : Blobs → ℕ → Option (List ℕ)
nth [] n = none
nth (x ∷ xs) zero = some x
nth (x ∷ xs) (suc n) = nth xs n

-- A publisher that refuses more than two bytes with 413.
abbrev pub too_large : List ℕ → Bool
too_large [] = false
too_large (a ∷ []) = false
too_large (a ∷ b ∷ []) = false
too_large (a ∷ b ∷ x ∷ xs) = true

abbrev pub publish : Bool → List ℕ → Blobs → Reply UploadReply × Blobs
publish true x w = (answered 413 (record { blob_id = 0; expiry_epoch = 0 }), w)
publish false x w = (answered 200 (record { blob_id = length w; expiry_epoch = 10 }), w ++ (x ∷ []))

abbrev pub serve : Option (List ℕ) → Blobs → Reply (List ℕ) × Blobs
serve none w = (answered 404 [], w)
serve (some x) w = (answered 200 x, w)

abbrev pub blob_client : Client Blobs
blob_client = record {
  http = record {
    post_blob = λ url epochs x w. publish (too_large x) x w;
    post_extend = λ url id epochs w. (answered 404 (record { blob_id = 0; expiry_epoch = 0 }), w);
    get_blob = λ url id w. serve (nth w id) w;
  };
  cfg = record {
    publisher_url = 0;
    aggregator_url = 0;
    fallback_aggregators = none;
    default_epochs = none;
  };
  chunk_cfg = record { chunk_threshold = 100; chunk_size = 2; concurrency = 2 };
  upload_retry = default_upload_retry;
  renewal_retry = default_upload_retry;
}

abbrev published : Bool → List ℕ → Blobs → Result WalrusError UploadReply × Blobs
published true x w = (err (walrus_api_error 413), w)
published false x w = (ok (record { blob_id = length w; expiry_epoch = 10 }), w ++ (x ∷ []))

by_publish :
    (b : Bool) (x : List ℕ) (ep : ℕ) (w : Blobs)
    → too_large x ≡ b
    → upload_single_blob blob_client x ep w ≡ published b x w
unfolding upload_single_blob with_retry retry_from retry_step accept is_final after_sleep stop
    non_retryable
by_publish true x ep w h = rw h refl
by_publish false x ep w h = rw h refl

served :
    (o : Option (List ℕ)) (id : ℕ) (w : Blobs)
    → nth w id ≡ o
    → (download_single_blob blob_client id w).1 ≡ w
unfolding download_single_blob read_blob with_retry retry_from retry_step accept is_final
    after_sleep stop try_aggregators or_next non_retryable
served none id w h = rw h refl
served (some x) id w h = rw h refl

read_back :
    (x : List ℕ) (id : ℕ) (w : Blobs)
    → nth w id ≡ some x
    → (download_single_blob blob_client id w).0 ≡ ok x
unfolding download_single_blob read_blob with_retry retry_from retry_step accept is_final
    after_sleep stop try_aggregators or_next
read_back x id w h = rw h refl

nth-last : (w : Blobs) (x : List ℕ) → nth (w ++ (x ∷ [])) (length w) ≡ some x
nth-last [] x = refl
nth-last (y ∷ w) x = nth-last w x

nth-append :
    (w : Blobs) (x y : List ℕ) (id : ℕ) → nth w id ≡ some y → nth (w ++ (x ∷ [])) id ≡ some y
nth-append [] x y id h = cc
nth-append (z ∷ w) x y zero h = h
nth-append (z ∷ w) x y (suc id) h = nth-append w x y id h

keeps : BlobStore blob_client 10 (λ w id x. nth w id ≡ some x)
keeps = record {
  stored = λ x before after reply ran.
      stored_at (too_large x) x before after reply
        (sym (by_publish (too_large x) x 10 before refl) ∙ ran);
  upload_keeps = λ x y id before h.
      subst (λ r. nth r.1 id ≡ some y) (sym (by_publish (too_large x) x 10 before refl))
        (after_publish (too_large x) x y id before h);
  reads = λ x id before h. read_back x id before h;
  download_keeps = λ y id other before h.
      subst (λ w. nth w id ≡ some y) (sym (served (nth before other) other before refl)) h;
}
  where
    stored_at :
        (b : Bool) (x : List ℕ) (before after : Blobs) (reply : UploadReply)
        → published b x before ≡ (ok reply, after)
        → nth after reply.blob_id ≡ some x
    stored_at true x before after reply ran = absurd (cc)
    stored_at false x before after reply ran =
        let id : record { blob_id = length before; expiry_epoch = 10 } ≡ reply = cc in
        let world : before ++ (x ∷ []) ≡ after = ap (λ r. r.1) ran in
        subst (λ (r : UploadReply). nth after r.blob_id ≡ some x) id
          (subst (λ w. nth w (length before) ≡ some x) world (nth-last before x))

    after_publish :
        (b : Bool) (x y : List ℕ) (id : ℕ) (before : Blobs)
        → nth before id ≡ some y
        → nth (published b x before).1 id ≡ some y
    after_publish true x y id before h = h
    after_publish false x y id before h = nth-append before x y id h

abbrev five_bytes : List ℕ
five_bytes = 1 ∷ 2 ∷ 3 ∷ 4 ∷ 5 ∷ []

abbrev three_blobs : Blobs
three_blobs = (1 ∷ 2 ∷ []) ∷ (3 ∷ 4 ∷ []) ∷ (5 ∷ []) ∷ []

abbrev three_chunks : UploadResult
three_chunks =
    chunked
      (record {
        total_size = 5;
        manifest_chunk_size = 2;
        chunks =
            record { index = 0; chunk_blob = 0; size = 2 }
            ∷ record { index = 1; chunk_blob = 1; size = 2 }
            ∷ record { index = 2; chunk_blob = 2; size = 1 }
            ∷ [];
      })
      5

refused_then_chunked : upload blob_client five_bytes none [] ≡ (ok three_chunks, three_blobs)
unfolding upload upload_single_blob with_retry retry_from retry_step accept is_final non_retryable
    stop should_chunk brine_vault.Walrus.Client.upload_chunks brine_vault.Walrus.Client.upload_from
    brine_vault.Walrus.Chunks.split brine_vault.Walrus.Chunks.split_from
    brine_vault.Walrus.Client.upload_batch
refused_then_chunked = refl

download-upload_example : (download blob_client (ref_of three_chunks) three_blobs).0 ≡ ok five_bytes
download-upload_example =
    download-upload blob_client none (λ w id x. nth w id ≡ some x) keeps five_bytes [] three_blobs
      three_chunks (omega arith) (omega arith) refused_then_chunked
