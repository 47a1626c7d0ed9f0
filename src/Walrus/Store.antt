-- ===== src/Walrus/Store.antt =====
-- What a client of the storage network relies on: a blob that was stored stays and reads back.
-- The network is not part of packages/walrus-sdk/src; the laws are hypotheses on its requests.
use brine_vault.Base.{ℕ, suc, List, [], ◌∷◌, length, ok, ◌≡◌, refl, ap}
use brine_vault.Walrus.Client.{
  Client, ChunkEntry, UploadReply, upload_single_blob, download_single_blob,
}

-- `Kept w id x`: in the world `w` the blob `id` holds the bytes `x`.
pub record BlobStore {S : Type 0} (c : Client S) (epochs : ℕ) (Kept : S → ℕ → List ℕ → Type 0)
    : Type 0 where
  pub stored :
      (x : List ℕ) (before after : S) (reply : UploadReply)
      → upload_single_blob c x epochs before ≡ (ok reply, after)
      → Kept after reply.blob_id x
  pub upload_keeps :
      (x y : List ℕ) (id : ℕ) (before : S)
      → Kept before id y
      → Kept (upload_single_blob c x epochs before).1 id y
  pub reads :
      (x : List ℕ) (id : ℕ) (before : S)
      → Kept before id x
      → (download_single_blob c id before).0 ≡ ok x
  pub download_keeps :
      (y : List ℕ) (id other : ℕ) (before : S)
      → Kept before id y
      → Kept (download_single_blob c other before).1 id y

-- The entries from index `i` on name blobs that hold these chunks in this world.
abbrev pub Holds :
    {S : Type 0} → (S → ℕ → List ℕ → Type 0) → ℕ → List ChunkEntry → List (List ℕ) → S → Type 0
Holds Kept i [] [] w = Unit
Holds Kept i (e ∷ entries) (x ∷ chunks) w =
    (e.index ≡ i) × Kept w e.chunk_blob x × Holds Kept (suc i) entries chunks w
Holds Kept i [] (x ∷ chunks) w = ⊥
Holds Kept i (e ∷ entries) [] w = ⊥

pub length-Holds :
    {S : Type 0} (Kept : S → ℕ → List ℕ → Type 0) (i : ℕ) (entries : List ChunkEntry)
    (chunks : List (List ℕ)) (w : S)
    → Holds Kept i entries chunks w
    → length entries ≡ length chunks
length-Holds Kept i [] [] w h = refl
length-Holds Kept i (e ∷ entries) (x ∷ chunks) w h =
    ap suc (length-Holds Kept (suc i) entries chunks w h.2)
length-Holds Kept i [] (x ∷ chunks) w h = absurd h
length-Holds Kept i (e ∷ entries) [] w h = absurd h

-- What every blob keeps, the entries keep.
pub Holds-map :
    {S : Type 0} (Kept : S → ℕ → List ℕ → Type 0) (i : ℕ) (entries : List ChunkEntry)
    (chunks : List (List ℕ)) (w w' : S)
    → ((id : ℕ) (y : List ℕ) → Kept w id y → Kept w' id y)
    → Holds Kept i entries chunks w
    → Holds Kept i entries chunks w'
Holds-map Kept i [] [] w w' keep h = tt
Holds-map Kept i (e ∷ entries) (x ∷ chunks) w w' keep h =
    (h.0, keep e.chunk_blob x h.1, Holds-map Kept (suc i) entries chunks w w' keep h.2)
Holds-map Kept i [] (x ∷ chunks) w w' keep h = absurd h
Holds-map Kept i (e ∷ entries) [] w w' keep h = absurd h
