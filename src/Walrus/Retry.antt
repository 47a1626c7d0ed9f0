-- ===== src/Walrus/Retry.antt =====
-- Retrying with exponential backoff: packages/walrus-sdk/src/retry.ts and the retry settings of
-- config.ts. The wrapped call is a function of the state of the outside world, which it returns
-- changed; a sleep is recorded in milliseconds.
pub mod Laws
use brine_vault.Base.{
  ℕ, zero, suc, ◌+◌, ◌-◌, ◌*◌, ◌^◌, min, ◌==◌, leb, if◌then◌else◌, Bool, true, false, ◌||◌, ◌&&◌,
  Option, List, [], ◌∷◌, Result, ok, err,
}

-- What a call can throw: an answer with an error status, any other exception (by a number of its
-- own), or the initial value of a variable that was never assigned.
pub data WalrusError : Type 0 where
  walrus_api_error : ℕ → WalrusError
  other_error : ℕ → WalrusError
  undefined_error : WalrusError

unfoldable pub retryable : ℕ → Bool
retryable status = (status == 503) || leb 500 status

unfoldable pub should_chunk : WalrusError → Bool
should_chunk (walrus_api_error status) = status == 413
should_chunk (other_error e) = false
should_chunk undefined_error = false

unfoldable pub non_retryable : ℕ → Bool
non_retryable status =
    (status == 400) || (status == 401) || (status == 402) || (status == 404) || (status == 413)

-- `err instanceof WalrusApiError && NON_RETRYABLE.has(err.status)`.
unfoldable pub is_final : WalrusError → Bool
is_final (walrus_api_error status) = non_retryable status
is_final (other_error e) = false
is_final undefined_error = false

pub record RetryConfig : Type 0 where
  pub max_attempts : ℕ
  pub base_delay : ℕ
  pub max_delay : ℕ
  pub backoff_factor : ℕ

abbrev pub default_upload_retry : RetryConfig
default_upload_retry = record {
  max_attempts = 3;
  base_delay = 1000;
  max_delay = 30000;
  backoff_factor = 2;
}

abbrev pub default_renewal_retry : RetryConfig
default_renewal_retry = record {
  max_attempts = 5;
  base_delay = 1000;
  max_delay = 30000;
  backoff_factor = 2;
}

-- A finished run: its result, the world after it, the calls made and the sleeps in order.
pub record Run (S A : Type 0) : Type 0 where
  pub outcome : Result WalrusError A
  pub world : S
  pub calls : ℕ
  pub sleeps : List ℕ

unfoldable pub backoff : RetryConfig → ℕ → ℕ
backoff config attempt =
    min (config.base_delay * config.backoff_factor ^ (attempt - 1)) config.max_delay

module _ {S A : Type 0} where
  -- A run that sleeps first, after one call.
  unfoldable pub after_sleep : ℕ → Run S A → Run S A
  after_sleep delay r = record {
    outcome = r.outcome;
    world = r.world;
    calls = suc r.calls;
    sleeps = delay ∷ r.sleeps;
  }

  unfoldable pub stop : Result WalrusError A → S → Run S A
  stop o s = record { outcome = o; world = s; calls = 1; sleeps = [] }

  -- One iteration, numbered `attempt`, on what the call gave; `again` is the rest of the loop.
  unfoldable pub retry_step :
      RetryConfig → ℕ → Result WalrusError A × S → (WalrusError → S → Run S A) → Run S A
  retry_step config attempt (ok a, s) again = stop (ok a) s
  retry_step config attempt (err e, s) again =
      if is_final e
      then stop (err e) s
      else if attempt == config.max_attempts
      then stop (err e) s
      else after_sleep (backoff config attempt) (again e s)

  -- The iterations that are left, from the one numbered `attempt`; after the last iteration
  -- the loop throws the last error.
  unfoldable pub retry_from :
      ℕ → RetryConfig → (S → Result WalrusError A × S) → ℕ → WalrusError → S → Run S A
  retry_from zero config fn attempt last_error s = record {
    outcome = err last_error;
    world = s;
    calls = 0;
    sleeps = [];
  }
  retry_from (suc left) config fn attempt last_error s =
      retry_step config attempt (fn s) (λ e s'. retry_from left config fn (suc attempt) e s')

  unfoldable pub with_retry : RetryConfig → (S → Result WalrusError A × S) → S → Run S A
  with_retry config fn s = retry_from config.max_attempts config fn 1 undefined_error s
