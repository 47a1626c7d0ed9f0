-- ===== src/Sui/WellTyped.antt =====
-- The transactions of apps/api/src/infra/sui/sui-tx.service.ts against the Move signatures.
use brine_vault.Base.{
  ℕ, Option, none, some, List, [], ◌∷◌, ◌++◌, Bool, true, false, ◌&&◌, ◌≡◌, refl, ap, arith,
}
use brine_vault.Sui.Transaction.{
  MoveFunction, Argument, clock, pool_entry, progress_to_dd, progress_to_ic_review,
  progress_to_ready_to_issue, reopen_rejected_pool, pure_option_bytes,
}
use brine_vault.Sui.Builders.{
  hex_to_bytes, optional_bytes, or_empty, build_create_pool_tx, build_state_transition_tx,
  build_cancel_pool_tx, build_add_member_tx, build_remove_member_tx, build_update_member_role_tx,
  build_create_folder_tx, build_create_document_tx, build_add_version_tx, build_archive_document_tx,
  build_submit_review_tx, build_ic_decision_tx, build_record_ic_approval_tx,
  build_record_ic_rejection_tx, build_record_ic_request_changes_tx,
}
use brine_vault.Sui.Requests.{
  Request, build_request, is_hex, or_no_digits, is_transition, are_votes, is_accepted, extra_params,
  is_in_range, create_pool_request, transition_request, cancel_request, add_member_request,
  remove_member_request, update_role_request, create_folder_request, create_document_request,
  add_version_request, archive_request, review_request, approval_request, rejection_request,
  changes_request,
}
use brine_vault.Sui.Entries.{
  MoveType, object_ref, option_bytes, all_bytes, fits_type, fit_types, entry_params, home_module,
}

pub hex_to_bytes-all_bytes :
    (hex : List ℕ) → is_hex hex ≡ true → all_bytes (hex_to_bytes hex) ≡ true
unfolding is_hex all_bytes hex_to_bytes
hex_to_bytes-all_bytes [] h = refl
hex_to_bytes-all_bytes (d ∷ []) h = ground arith
hex_to_bytes-all_bytes (d ∷ e ∷ hex) h = ground (arith, hex_to_bytes-all_bytes hex)

false_right : (b : Bool) → (b && false) ≡ false
false_right true = refl
false_right false = refl

votes-all_bytes : (votes : List ℕ) → are_votes votes ≡ true → all_bytes votes ≡ true
unfolding are_votes all_bytes
votes-all_bytes [] h = refl
votes-all_bytes (v ∷ votes) h = ground (arith, votes-all_bytes votes)

transition_params :
    (f : MoveFunction)
    → is_transition f ≡ true
    → entry_params f ≡ object_ref ∷ object_ref ∷ (extra_params f ++ (object_ref ∷ []))
unfolding is_transition entry_params extra_params
transition_params progress_to_dd h = refl
transition_params progress_to_ic_review h = refl
transition_params progress_to_ready_to_issue h = refl
transition_params reopen_rejected_pool h = refl
transition_params _ h = cc

transition_home : (f : MoveFunction) → is_transition f ≡ true → pool_entry ≡ home_module f
unfolding is_transition home_module
transition_home progress_to_dd h = refl
transition_home progress_to_ic_review h = refl
transition_home progress_to_ready_to_issue h = refl
transition_home reopen_rejected_pool h = refl
transition_home _ h = cc

module _ (is_address : ℕ → Bool) (raw_fits : ℕ → MoveType → Bool)
    (clock_is : is_address 6 ≡ true) where
  -- A clock after the arguments and an object after the parameters change nothing.
  fit_types-clock :
      (args : List Argument) (types : List MoveType)
      → fit_types is_address raw_fits (args ++ (clock ∷ [])) (types ++ (object_ref ∷ []))
        ≡ fit_types is_address raw_fits args types
  unfolding fit_types fits_type
  fit_types-clock [] [] = ap (λ b. b && true) clock_is
  fit_types-clock [] (t ∷ []) = false_right (fits_type is_address raw_fits clock t)
  fit_types-clock [] (t ∷ u ∷ types) = false_right (fits_type is_address raw_fits clock t)
  fit_types-clock (a ∷ []) [] = false_right (fits_type is_address raw_fits a object_ref)
  fit_types-clock (a ∷ b ∷ args) [] = false_right (fits_type is_address raw_fits a object_ref)
  fit_types-clock (a ∷ args) (t ∷ types) =
      ap (◌&&◌ (fits_type is_address raw_fits a t)) (fit_types-clock args types)

  optional_bytes-fits :
      (hex : Option (List ℕ))
      → is_hex (or_no_digits hex) ≡ true
      → fits_type is_address raw_fits (pure_option_bytes (optional_bytes hex)) option_bytes ≡ true
  unfolding fits_type
  optional_bytes-fits none h = refl
  optional_bytes-fits (some []) h = refl
  optional_bytes-fits (some (d ∷ hex)) h = hex_to_bytes-all_bytes (d ∷ hex) h

  -- When the clock's 0x6 is an address, an accepted request builds a call of a function in the module
  -- that declares it, and the arguments are values of the types of its parameters exactly when every text
  -- of the request that is used as an id or an address is one, the numbers that no schema bounds are below
  -- 2 ^ 64 and the extra arguments of a transition are those of its function.
  pub build_request-typed :
      (package_id : ℕ) (r : Request)
      → is_accepted r ≡ true
      → ((build_request package_id r).target.target_module
          ≡ home_module (build_request package_id r).target.target_function)
        × (fit_types is_address raw_fits
              (build_request package_id r).arguments
              (entry_params (build_request package_id r).target.target_function)
            ≡ is_in_range is_address raw_fits r)
  unfolding build_request is_accepted is_in_range build_create_pool_tx build_state_transition_tx
      build_cancel_pool_tx build_add_member_tx build_remove_member_tx build_update_member_role_tx
      build_create_folder_tx build_create_document_tx build_add_version_tx build_archive_document_tx
      build_submit_review_tx build_ic_decision_tx build_record_ic_approval_tx
      build_record_ic_rejection_tx build_record_ic_request_changes_tx fits_type fit_types
      entry_params home_module
  build_request-typed package_id (create_pool_request p) h = (
    refl,
    ground
        (arith, hex_to_bytes-all_bytes p.org_id_hash, hex_to_bytes-all_bytes p.borrower_name_hash),
  )
  build_request-typed package_id (transition_request p) h = (
    transition_home p.target_function h,
    rw (transition_params p.target_function h) (
        ap (λ b. is_address p.admin_config_id && (is_address p.pool_object_id && b))
          (fit_types-clock (or_empty p.extra_args) (extra_params p.target_function))),
  )
  build_request-typed package_id (cancel_request p) h = (refl, ground arith)
  build_request-typed package_id (add_member_request p) h = (refl, ground arith)
  build_request-typed package_id (remove_member_request p) h = (refl, ground arith)
  build_request-typed package_id (update_role_request p) h = (refl, ground arith)
  build_request-typed package_id (create_folder_request p) h = elim p.parent_id [
    | none ↦ (refl, ground arith)
    | some n ↦ (refl, ground arith)
  ]
  build_request-typed package_id (create_document_request p) h =
      (refl, ground (arith, hex_to_bytes-all_bytes p.content_hash))
  build_request-typed package_id (add_version_request p) h =
      (refl, ground (arith, hex_to_bytes-all_bytes p.content_hash))
  build_request-typed package_id (archive_request p) h = (refl, ground arith)
  build_request-typed package_id (review_request p) h =
      (refl, ground (arith, optional_bytes-fits p.comment_hash))
  build_request-typed package_id (approval_request p) h =
      (refl, ground (arith, votes-all_bytes p.votes))
  build_request-typed package_id (rejection_request p) h =
      (refl, ground (arith, votes-all_bytes p.votes))
  build_request-typed package_id (changes_request p) h =
      (refl, ground (arith, votes-all_bytes p.votes))
