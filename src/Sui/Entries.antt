-- ===== src/Sui/Entries.antt =====
-- The parameters of the Move functions: the signatures in contracts/rwa_dataroom/sources, without
-- the transaction context, which the runtime passes.
use brine_vault.Base.{ℕ, ◌^◌, none, some, List, [], ◌∷◌, Bool, true, false, ◌&&◌, ltb}
use brine_vault.Sui.Transaction.{
  MoveModule, MoveFunction, Argument, object, pure_u8, pure_u64, pure_bool, pure_string,
  pure_address, pure_id, pure_vector_u8, pure_vector_string, pure_vector_address, pure_option_u64,
  pure_option_bytes, raw, pool_module, pool_entry, dataroom_entry, document_entry, create_pool,
  progress_to_dd, progress_to_ic_review, progress_to_ready_to_issue, reopen_rejected_pool,
  cancel_pool, add_member, remove_member, update_member_role, create_custom_folder, create_document,
  add_version, archive_document, submit_review, record_ic_approval, record_ic_rejection,
  record_ic_request_changes,
}

pub data MoveType : Type 0 where
  object_ref u8 u64 bool string move_address object_id : MoveType
  vector_u8 vector_string vector_address vector_id option_u64 option_bytes : MoveType

-- The signatures, one for each list of types.
abbrev pub create_pool_params : List MoveType
create_pool_params =
    object_ref ∷ vector_u8 ∷ string ∷ vector_u8 ∷ string ∷ u64 ∷ u64 ∷ u8 ∷ vector_string
    ∷ object_ref ∷ []

abbrev pub bare_params : List MoveType
bare_params = object_ref ∷ object_ref ∷ object_ref ∷ []

abbrev pub required_docs_params : List MoveType
required_docs_params = object_ref ∷ object_ref ∷ vector_id ∷ object_ref ∷ []

abbrev pub decision_params : List MoveType
decision_params =
    object_ref ∷ object_ref ∷ string ∷ string ∷ vector_address ∷ vector_u8 ∷ vector_id ∷ object_ref
    ∷ []

abbrev pub add_member_params : List MoveType
add_member_params = object_ref ∷ object_ref ∷ move_address ∷ u8 ∷ vector_string ∷ object_ref ∷ []

abbrev pub remove_member_params : List MoveType
remove_member_params = object_ref ∷ object_ref ∷ move_address ∷ object_ref ∷ []

abbrev pub update_member_role_params : List MoveType
update_member_role_params = object_ref ∷ object_ref ∷ move_address ∷ u8 ∷ object_ref ∷ []

abbrev pub create_folder_params : List MoveType
create_folder_params = object_ref ∷ object_ref ∷ string ∷ option_u64 ∷ u8 ∷ object_ref ∷ []

abbrev pub create_document_params : List MoveType
create_document_params =
    object_ref ∷ object_ref ∷ u64 ∷ u8 ∷ string ∷ bool ∷ u8 ∷ string ∷ vector_u8 ∷ u64 ∷ string
    ∷ vector_string ∷ object_ref ∷ []

abbrev pub add_version_params : List MoveType
add_version_params =
    object_ref ∷ object_ref ∷ object_id ∷ string ∷ vector_u8 ∷ u64 ∷ string ∷ object_ref ∷ []

abbrev pub archive_document_params : List MoveType
archive_document_params = object_ref ∷ object_ref ∷ object_id ∷ object_ref ∷ []

abbrev pub submit_review_params : List MoveType
submit_review_params = object_ref ∷ object_ref ∷ object_id ∷ u8 ∷ option_bytes ∷ object_ref ∷ []

-- The module that declares a function, and the types of the parameters.
unfoldable pub home_module : MoveFunction → MoveModule
home_module create_pool = pool_module
home_module progress_to_dd = pool_entry
home_module progress_to_ic_review = pool_entry
home_module progress_to_ready_to_issue = pool_entry
home_module reopen_rejected_pool = pool_entry
home_module cancel_pool = pool_entry
home_module add_member = dataroom_entry
home_module remove_member = dataroom_entry
home_module update_member_role = dataroom_entry
home_module create_custom_folder = dataroom_entry
home_module create_document = document_entry
home_module add_version = document_entry
home_module archive_document = document_entry
home_module submit_review = document_entry
home_module record_ic_approval = pool_entry
home_module record_ic_rejection = pool_entry
home_module record_ic_request_changes = pool_entry

unfoldable pub entry_params : MoveFunction → List MoveType
entry_params create_pool = create_pool_params
entry_params progress_to_dd = bare_params
entry_params progress_to_ic_review = required_docs_params
entry_params progress_to_ready_to_issue = required_docs_params
entry_params reopen_rejected_pool = bare_params
entry_params cancel_pool = bare_params
entry_params add_member = add_member_params
entry_params remove_member = remove_member_params
entry_params update_member_role = update_member_role_params
entry_params create_custom_folder = create_folder_params
entry_params create_document = create_document_params
entry_params add_version = add_version_params
entry_params archive_document = archive_document_params
entry_params submit_review = submit_review_params
entry_params record_ic_approval = decision_params
entry_params record_ic_rejection = decision_params
entry_params record_ic_request_changes = decision_params

abbrev pub u64_bound : ℕ
u64_bound = 2 ^ 64

unfoldable pub all_bytes : List ℕ → Bool
all_bytes [] = true
all_bytes (b ∷ bs) = ltb b 256 && all_bytes bs

-- What the SDK says: whether a text is an address, and whether a JSON value that it gets as an
-- argument is a value of a type.
module _ (is_address : ℕ → Bool) (raw_fits : ℕ → MoveType → Bool) where
  unfoldable pub all_addresses : List ℕ → Bool
  all_addresses [] = true
  all_addresses (a ∷ addresses) = is_address a && all_addresses addresses

  -- Whether an argument is a value of a parameter's type; an id has the bytes of an address.
  unfoldable pub fits_type : Argument → MoveType → Bool
  fits_type (object id) object_ref = is_address id
  fits_type (pure_u8 n) u8 = ltb n 256
  fits_type (pure_u64 n) u64 = ltb n u64_bound
  fits_type (pure_bool b) bool = true
  fits_type (pure_string t) string = true
  fits_type (pure_address a) move_address = is_address a
  fits_type (pure_id a) object_id = is_address a
  fits_type (pure_vector_u8 bytes) vector_u8 = all_bytes bytes
  fits_type (pure_vector_string ts) vector_string = true
  fits_type (pure_vector_address addresses) vector_address = all_addresses addresses
  fits_type (pure_vector_address addresses) vector_id = all_addresses addresses
  fits_type (pure_option_u64 none) option_u64 = true
  fits_type (pure_option_u64 (some n)) option_u64 = ltb n u64_bound
  fits_type (pure_option_bytes none) option_bytes = true
  fits_type (pure_option_bytes (some bytes)) option_bytes = all_bytes bytes
  fits_type (raw value) t = raw_fits value t
  fits_type _ _ = false

  unfoldable pub fit_types : List Argument → List MoveType → Bool
  fit_types [] [] = true
  fit_types (a ∷ args) (t ∷ types) = fits_type a t && fit_types args types
  fit_types _ _ = false
