-- ===== src/Walrus/Client/Batches.antt =====
-- A batch of a chunked upload: packages/walrus-sdk/src/chunked-upload.ts.
use brine_vault.Base.{
  ℕ, suc, ◌+◌, Option, none, some, List, [], ◌∷◌, ◌++◌, length, replicate, set, Result, ok, err,
  ◌≡◌, ◌≢◌, refl, sym, ap, ap₂, subst, ◌∙◌, length-append, arith,
}
use brine_vault.Walrus.Retry.{WalrusError}
use brine_vault.Walrus.Store.{BlobStore, Holds}
use brine_vault.Walrus.Client.{
  Client, ChunkEntry, UploadReply, Upload, hole_entry, first_error, upload_single_blob,
  record_upload, upload_batch,
}
use brine_vault.Walrus.Pieces.{set-append, append_assoc, append_nil}

first_some : (o : Option WalrusError) (e : WalrusError) → first_error o e ≢ none
first_some none e k = cc
first_some (some e') e k = cc

module _ {S : Type 0} (c : Client S) (epochs : ℕ) (Kept : S → ℕ → List ℕ → Type 0)
    (net : BlobStore c epochs Kept) where
  pub append-Holds :
      (i j : ℕ) (es fs : List ChunkEntry) (xs ys : List (List ℕ)) (w : S)
      → i + length xs ≡ j
      → Holds Kept i es xs w
      → Holds Kept j fs ys w
      → Holds Kept i (es ++ fs) (xs ++ ys) w
  append-Holds i j [] fs [] ys w e h k =
      let same : j ≡ i = omega arith in subst (λ n. Holds Kept n fs ys w) same k
  append-Holds i j (f ∷ es) fs (x ∷ xs) ys w e h k =
      (h.0, h.1, append-Holds (suc i) j es fs xs ys w (omega arith) h.2 k)
  append-Holds i j [] fs (x ∷ xs) ys w e h k = absurd h
  append-Holds i j (f ∷ es) fs [] ys w e h k = absurd h

  record_upload-world :
      (u : Upload S) (i : ℕ) (x : List ℕ) (r : Result WalrusError UploadReply × S)
      → (record_upload u i x r).world ≡ r.1
  record_upload-world u i x (ok reply, s) = refl
  record_upload-world u i x (err e, s) = refl

  -- A batch keeps what is stored.
  pub upload_batch-keeps :
      (batch : List (List ℕ)) (i : ℕ) (u : Upload S) (id : ℕ) (y : List ℕ)
      → Kept u.world id y
      → Kept (upload_batch c epochs i batch u).world id y
  unfolding upload_batch
  upload_batch-keeps [] i u id y h = h
  upload_batch-keeps (x ∷ batch) i u id y h = upload_batch-keeps batch (suc i) _ id y (
      subst (λ w. Kept w id y)
        (sym (record_upload-world u i x (upload_single_blob c x epochs u.world)))
        (net.upload_keeps x y id u.world h))

  -- A failure stays.
  batch_failed :
      (i : ℕ) (batch : List (List ℕ)) (u : Upload S)
      → u.failure ≢ none
      → (upload_batch c epochs i batch u).failure ≢ none
  unfolding upload_batch
  batch_failed i [] u h = h
  batch_failed i (x ∷ batch) u h =
      batch_failed (suc i) batch _ (one_failed (upload_single_blob c x epochs u.world))
    where
      one_failed : (r : Result WalrusError UploadReply × S) → (record_upload u i x r).failure ≢ none
      one_failed (ok reply, s) = h
      one_failed (err e, s) = first_some u.failure e

  -- A batch without a failure fills its places.
  abbrev pub Filled : List ChunkEntry → ℕ → ℕ → List (List ℕ) → Upload S → Type 0
  Filled done n i chunks u =
      (entries : List ChunkEntry) × (u.results ≡ (done ++ entries) ++ replicate n hole_entry)
      × Holds Kept i entries chunks u.world

  pub upload_batch-Filled :
      (batch : List (List ℕ)) (done : List ChunkEntry) (n : ℕ) (u : Upload S)
      → u.results ≡ done ++ replicate (length batch + n) hole_entry
      → (upload_batch c epochs (length done) batch u).failure ≡ none
      → Filled done n (length done) batch (upload_batch c epochs (length done) batch u)
  unfolding upload_batch
  upload_batch-Filled [] done n u at h =
      let count : 0 + n ≡ n = omega arith in
      ([], at ∙ ap₂ (λ es k. es ++ replicate k hole_entry) (sym (append_nil done)) count, tt)
  upload_batch-Filled (x ∷ batch) done n u at h =
      go (upload_single_blob c x epochs u.world) refl h (upload_batch-Filled batch)
    where
      go :
          (r : Result WalrusError UploadReply × S)
          → upload_single_blob c x epochs u.world ≡ r
          → (upload_batch c epochs
              (suc (length done))
              batch
              (record_upload u (length done) x r)).failure
            ≡ none
          → ((done' : List ChunkEntry) (n' : ℕ) (u' : Upload S)
              → u'.results ≡ done' ++ replicate (length batch + n') hole_entry
              → (upload_batch c epochs (length done') batch u').failure ≡ none
              → Filled done' n'
                  (length done')
                  batch
                  (upload_batch c epochs (length done') batch u'))
          → Filled done n
              (length done)
              (x ∷ batch)
              (upload_batch c epochs (suc (length done)) batch (record_upload u (length done) x r))
      go (err e, s) came h' ih = absurd (
          batch_failed (suc (length done)) batch (record_upload u (length done) x (err e, s))
            (first_some u.failure e) h')
      go (ok reply, s) came h' ih =
          let entry : ChunkEntry = record {
            index = length done;
            chunk_blob = reply.blob_id;
            size = length x;
          } in
          let u1 = record_upload u (length done) x (ok reply, s) in
          let count : length (done ++ (entry ∷ [])) ≡ suc (length done) =
            omega (arith, length-append done (entry ∷ [])) in
          let more : suc (length batch) + n ≡ suc (length batch + n) = omega arith in
          let at1 : u1.results ≡ (done ++ (entry ∷ [])) ++ replicate (length batch + n) hole_entry =
            ap (λ xs. set xs (length done) entry)
              (at ∙ ap (λ k. done ++ replicate k hole_entry) more)
            ∙ set-append done (length batch + n) entry in
          let (es, eq, ups) =
            subst
              (λ j.
                (upload_batch c epochs j batch u1).failure ≡ none
                → Filled (done ++ (entry ∷ [])) n j batch (upload_batch c epochs j batch u1))
              count (ih (done ++ (entry ∷ [])) n u1 at1) h' in
          (
            entry ∷ es,
            eq ∙ ap (λ xs. xs ++ replicate n hole_entry) (append_assoc done (entry ∷ []) es),
            (
              refl,
              upload_batch-keeps batch (suc (length done)) u1 reply.blob_id x
                  (net.stored x u.world s reply came),
              ups,
            ),
          )
