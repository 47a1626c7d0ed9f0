-- ===== src/Walrus/Client/Fallback.antt =====
-- Which aggregator a download is served by: downloadSingleBlob of
-- packages/walrus-sdk/src/client.ts.
use brine_vault.Base.{
  List, [], ◌∷◌, ◌++◌, ℕ, Result, ok, err, ◌≡◌, refl, Bool, true, false, if◌then◌else◌, ap, ◌∙◌,
}
use brine_vault.Walrus.Retry.{WalrusError}
use brine_vault.Walrus.Client.{Client, read_blob, is_not_found, or_next, try_aggregators}

-- An answer that ends the search: the data, or status 404.
abbrev pub ends_search : Result WalrusError (List ℕ) → Bool
ends_search (ok data_) = true
ends_search (err e) = is_not_found e

module _ {S : Type 0} where
  -- All these aggregators, asked in order, fail, none with status 404; the last world.
  abbrev pub AllFail : Client S → ℕ → List ℕ → S → S → Type 0
  AllFail c blob_id [] s s' = s ≡ s'
  AllFail c blob_id (url ∷ urls) s s' =
      (e : WalrusError) × ((read_blob c blob_id url s).0 ≡ err e)
      × (is_not_found e ≡ false)
      × AllFail c blob_id urls (read_blob c blob_id url s).1 s'

  or_next-ends :
      (o : Result WalrusError (List ℕ) × S)
      (next : WalrusError → S → Result WalrusError (List ℕ) × S)
      → ends_search o.0 ≡ true
      → or_next o next ≡ o
  unfolding or_next
  or_next-ends (ok data_, s) next h = refl
  or_next-ends (err e, s) next h = ap (λ b. if b then (err e, s) else next e s) h

  or_next-goes_on :
      (o : Result WalrusError (List ℕ) × S)
      (next : WalrusError → S → Result WalrusError (List ℕ) × S) (e : WalrusError)
      → o.0 ≡ err e
      → is_not_found e ≡ false
      → or_next o next ≡ next e o.1
  unfolding or_next
  or_next-goes_on (ok data_, s) next e eq h = cc
  or_next-goes_on (err e', s) next e eq h = cc

  -- When the aggregators before `url` fail and none of them answers 404, the download's result
  -- is the answer of `url` if that is the data or a 404, and the later aggregators are not asked.
  pub try_aggregators-first :
      (c : Client S) (blob_id : ℕ) (before after : List ℕ) (url : ℕ) (last : WalrusError) (s s' : S)
      → AllFail c blob_id before s s'
      → ends_search (read_blob c blob_id url s').0 ≡ true
      → try_aggregators c blob_id (before ++ url ∷ after) last s ≡ read_blob c blob_id url s'
  unfolding try_aggregators
  try_aggregators-first c blob_id [] after url last s s' same h =
      or_next-ends (read_blob c blob_id url s) _
        (ap (λ w. ends_search (read_blob c blob_id url w).0) same ∙ h)
      ∙ ap (read_blob c blob_id url) same
  try_aggregators-first c blob_id (u ∷ us) after url last s s' (e, eq, nf, rest) h =
      or_next-goes_on (read_blob c blob_id u s) _ e eq nf
      ∙ try_aggregators-first c blob_id us after url e _ s' rest h
