-- ===== src/Sui/Transaction.antt =====
-- A transaction with one Move call, as apps/api/src/infra/sui/sui-tx.service.ts assembles it with
-- the Sui SDK. A text that the code does not look into is a number, an object id or an address
-- among them; which of them are addresses, the SDK says.
use brine_vault.Base.{ℕ, Bool, Option, List}

-- The Move modules and functions that a target `package::module::function` names.
pub data MoveModule : Type 0 where
  pool_module pool_entry dataroom_entry document_entry : MoveModule

pub data MoveFunction : Type 0 where
  create_pool progress_to_dd progress_to_ic_review progress_to_ready_to_issue : MoveFunction
  reopen_rejected_pool cancel_pool : MoveFunction
  add_member remove_member update_member_role create_custom_folder : MoveFunction
  create_document add_version archive_document submit_review : MoveFunction
  record_ic_approval record_ic_rejection record_ic_request_changes : MoveFunction

-- The arguments, by the method of the SDK that makes them: `tx.object`, `tx.pure.u8` and so on.
pub data Argument : Type 0 where
  object : ℕ → Argument
  pure_u8 pure_u64 : ℕ → Argument
  pure_bool : Bool → Argument
  pure_string pure_address pure_id : ℕ → Argument
  pure_vector_u8 pure_vector_string pure_vector_address : List ℕ → Argument
  pure_option_u64 : Option ℕ → Argument
  pure_option_bytes : Option (List ℕ) → Argument
  -- A JSON value of a request, handed to the SDK as it is.
  raw : ℕ → Argument

pub record MoveTarget : Type 0 where
  pub package_id : ℕ
  pub target_module : MoveModule
  pub target_function : MoveFunction

pub record Transaction : Type 0 where
  pub sender : ℕ
  pub target : MoveTarget
  pub arguments : List Argument

-- `0x6`, the shared clock.
abbrev pub clock : Argument
clock = object 6
