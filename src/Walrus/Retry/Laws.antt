-- ===== src/Walrus/Retry/Laws.antt =====
-- What withRetry does on every sequence of outcomes: packages/walrus-sdk/src/retry.ts.
use native.Mathlib.Nat.{pow-zero, pow-suc, mul-one, mul_assoc}
use brine_vault.Walrus.Retry.{
  WalrusError, undefined_error, is_final, RetryConfig, Run, backoff, after_sleep, stop, retry_step,
  retry_from, with_retry,
}
use brine_vault.Base.{
  ℕ, zero, suc, ◌+◌, ◌-◌, ◌*◌, ◌^◌, min, ◌==◌, ◌≤◌, ◌<◌, if◌then◌else◌, Bool, true, false, not,
  List, [], ◌∷◌, map, Result, ok, err, ◌≡◌, refl, ap, ap₂, subst, arith, sym, ◌∙◌,
}

-- The numbers from `start` on, `n` of them.
abbrev pub seq : ℕ → ℕ → List ℕ
seq start zero = []
seq start (suc n) = start ∷ seq (suc start) n

-- Whether the loop goes on after an answer.
abbrev pub transient : {A : Type 0} → Result WalrusError A → Bool
transient (ok a) = false
transient (err e) = not (is_final e)

positive :
    (left attempt most : ℕ)
    → attempt + left ≡ most
    → (attempt == most) ≡ false
    → (before : ℕ) × (left ≡ suc before)
positive zero attempt most h l = absurd (ground arith)
positive (suc before) attempt most h l = (before, refl)

-- The delay without the cap: the base, times the factor `i` times.
abbrev pub uncapped : RetryConfig → ℕ → ℕ
uncapped config zero = config.base_delay
uncapped config (suc i) = uncapped config i * config.backoff_factor

power-uncapped :
    (config : RetryConfig) (i : ℕ)
    → config.base_delay * config.backoff_factor ^ i ≡ uncapped config i
power-uncapped config zero =
    ap (◌*◌ config.base_delay) (pow-zero config.backoff_factor) ∙ mul-one config.base_delay
power-uncapped config (suc i) =
    ap (◌*◌ config.base_delay) (pow-suc config.backoff_factor i)
    ∙ sym (mul_assoc config.base_delay (config.backoff_factor ^ i) config.backoff_factor)
    ∙ ap (λ n. n * config.backoff_factor) (power-uncapped config i)

backoff-uncapped :
    (config : RetryConfig) (i : ℕ)
    → backoff config (suc i) ≡ min (uncapped config i) config.max_delay
unfolding backoff
backoff-uncapped config i =
    let same : suc i - 1 ≡ i = omega arith in
    ap (λ n. min (config.base_delay * config.backoff_factor ^ n) config.max_delay) same
    ∙ ap (λ n. min n config.max_delay) (power-uncapped config i)

delays :
    (config : RetryConfig) (i k : ℕ)
    → map (backoff config) (seq (suc i) k)
      ≡ map (λ j. min (uncapped config j) config.max_delay) (seq i k)
delays config i zero = refl
delays config i (suc k) = ap₂ (◌∷◌) (backoff-uncapped config i) (delays config (suc i) k)

module _ {S A : Type 0} where
  -- What the n-th later call answers, and the world it leaves, when the calls are made one
  -- after the other.
  abbrev pub trial : (S → Result WalrusError A × S) → ℕ → S → Result WalrusError A × S
  trial fn zero s = fn s
  trial fn (suc n) s = trial fn n (fn s).1

  -- A run made of the calls up to the n-th, where the n-th is the last: the earlier ones
  -- failed transiently, and so did the n-th only if it was the one numbered `last`.
  abbrev pub IsRun : (S → Result WalrusError A × S) → S → Run S A → ℕ → ℕ → Type 0
  IsRun fn s r n last =
      (r.calls ≡ suc n)
      × ((r.outcome, r.world) ≡ trial fn n s)
      × ((k : ℕ) → k < n → transient ((trial fn k s).0) ≡ true)
      × (transient ((trial fn n s).0) ≡ true → n ≡ last)

  stop-IsRun :
      (fn : S → Result WalrusError A × S) (s : S) (last : ℕ) (o : Result WalrusError A × S)
      → fn s ≡ o
      → (transient o.0 ≡ true → 0 ≡ last)
      → IsRun fn s (stop o.0 o.1) 0 last
  unfolding stop
  stop-IsRun fn s last o eq h =
      (refl, sym eq, λ k lt. absurd (omega arith), λ t. h (sym (ap (λ p. transient p.0) eq) ∙ t))

  after_sleep-IsRun :
      (fn : S → Result WalrusError A × S) (s : S) (delay : ℕ) (r : Run S A) (n last : ℕ)
      (o : Result WalrusError A × S)
      → fn s ≡ o
      → transient o.0 ≡ true
      → IsRun fn o.1 r n last
      → IsRun fn s (after_sleep delay r) (suc n) (suc last)
  unfolding after_sleep
  after_sleep-IsRun fn s delay r n last o eq t run =
      let (c, same, before, end) = subst (λ w. IsRun fn w.1 r n last) (sym eq) run in
      (
        ap suc c,
        same,
        λ k. elim k as (λ j. j < suc n → transient (trial fn j s).0 ≡ true) [
          | zero ↦ λ lt. ap (λ p. transient p.0) eq ∙ t
          | suc j ↦ λ lt. before j (omega arith)
        ],
        λ h. ap suc (end h),
      )

  -- The choice after a failed call, by the two tests.
  failed-IsRun :
      (fn : S → Result WalrusError A × S) (s s' : S) (e : WalrusError) (delay left : ℕ)
      (rest : Run S A) (final last : Bool)
      → fn s ≡ (err e, s')
      → is_final e ≡ final
      → (last ≡ true → left ≡ 0)
      → (last ≡ false
          → (before : ℕ) × (left ≡ suc before) × (n : ℕ) × (n ≤ before) × IsRun fn s' rest n before)
      → (n : ℕ) × (n ≤ left)
        × IsRun fn s
            (if final
              then stop (err e) s'
              else if last
              then stop (err e) s'
              else after_sleep delay rest)
            n
            left
  failed-IsRun fn s s' e delay left rest true last eq f l again =
      (0, omega arith, stop-IsRun fn s left (err e, s') eq (λ t. cc))
  failed-IsRun fn s s' e delay left rest false true eq f l again =
      (0, omega arith, stop-IsRun fn s left (err e, s') eq (λ t. sym (l refl)))
  failed-IsRun fn s s' e delay left rest false false eq f l again =
      let (before, same, n, le, run) = again refl in
      subst (λ k. (n : ℕ) × (n ≤ k) × IsRun fn s (after_sleep delay rest) n k) (sym same)
        (
          suc n,
          omega arith,
          after_sleep-IsRun fn s delay rest n before (err e, s') eq (ap not f) run,
        )

  -- One iteration, from what the call gave.
  step-IsRun :
      (left : ℕ) (config : RetryConfig) (fn : S → Result WalrusError A × S) (attempt : ℕ) (s : S)
      (o : Result WalrusError A × S)
      → fn s ≡ o
      → attempt + left ≡ config.max_attempts
      → ((e : WalrusError) (s' : S) (before : ℕ)
          → left ≡ suc before
          → (n : ℕ) × (n ≤ before)
            × IsRun fn s' (retry_from left config fn (suc attempt) e s') n before)
      → (n : ℕ) × (n ≤ left)
        × IsRun fn s
            (retry_step config attempt o (λ e s'. retry_from left config fn (suc attempt) e s'))
            n
            left
  unfolding retry_step
  step-IsRun left config fn attempt s (ok a, s') eq h again =
      (0, omega arith, stop-IsRun fn s left (ok a, s') eq (λ t. cc))
  step-IsRun left config fn attempt s (err e, s') eq h again =
      failed-IsRun fn s s' e (backoff config attempt) left
        (retry_from left config fn (suc attempt) e s') (is_final e) (attempt == config.max_attempts)
        eq refl (λ l. ground arith)
        (λ l.
          let (before, same) = positive left attempt config.max_attempts h l in
          let (n, le, run) = again e s' before same in (before, same, n, le, run))

  retry_from-IsRun :
      (left : ℕ) (config : RetryConfig) (fn : S → Result WalrusError A × S) (attempt : ℕ)
      (e : WalrusError) (s : S)
      → attempt + left ≡ config.max_attempts
      → (n : ℕ) × (n ≤ left) × IsRun fn s (retry_from (suc left) config fn attempt e s) n left
  unfolding retry_from
  retry_from-IsRun zero config fn attempt e s h =
      step-IsRun zero config fn attempt s (fn s) refl h (λ e' s' before same. absurd (omega arith))
  retry_from-IsRun (suc left) config fn attempt e s h =
      step-IsRun (suc left) config fn attempt s (fn s) refl h (λ e' s' before same.
        subst
          (λ k.
            (n : ℕ) × (n ≤ k)
            × IsRun fn s' (retry_from (suc left) config fn (suc attempt) e' s') n k)
          (omega arith) (retry_from-IsRun left config fn (suc attempt) e' s' (omega arith)))

  -- Sleeps of the attempts from the current one on, one less than the calls.
  abbrev SleepsFrom : RetryConfig → ℕ → Run S A → Type 0
  SleepsFrom config attempt r =
      (k : ℕ) × (r.calls ≡ suc k) × (r.sleeps ≡ map (backoff config) (seq attempt k))

  failed-IsPaced :
      (config : RetryConfig) (attempt : ℕ) (e : WalrusError) (s' : S) (rest : Run S A)
      (final last : Bool)
      → (last ≡ false → SleepsFrom config (suc attempt) rest)
      → SleepsFrom config attempt (
          if final
          then stop (err e) s'
          else if last
          then stop (err e) s'
          else after_sleep (backoff config attempt) rest)
  unfolding stop after_sleep
  failed-IsPaced config attempt e s' rest true last h = (0, refl, refl)
  failed-IsPaced config attempt e s' rest false true h = (0, refl, refl)
  failed-IsPaced config attempt e s' rest false false h =
      let (k, calls, sleeps) = h refl in
      (suc k, ap suc calls, ap (◌∷◌ (backoff config attempt)) sleeps)

  step-IsPaced :
      (config : RetryConfig) (attempt : ℕ) (o : Result WalrusError A × S)
      (again : WalrusError → S → Run S A)
      → ((e : WalrusError) (s' : S)
          → (attempt == config.max_attempts) ≡ false
          → SleepsFrom config (suc attempt) (again e s'))
      → SleepsFrom config attempt (retry_step config attempt o again)
  unfolding retry_step stop
  step-IsPaced config attempt (ok a, s) again h = (0, refl, refl)
  step-IsPaced config attempt (err e, s) again h =
      failed-IsPaced config attempt e s (again e s) (is_final e) (attempt == config.max_attempts)
        (h e s)

  retry_from-IsPaced :
      (left : ℕ) (config : RetryConfig) (fn : S → Result WalrusError A × S) (attempt : ℕ)
      (e : WalrusError) (s : S)
      → attempt + left ≡ config.max_attempts
      → SleepsFrom config attempt (retry_from (suc left) config fn attempt e s)
  unfolding retry_from
  retry_from-IsPaced zero config fn attempt e s h =
      step-IsPaced config attempt (fn s) _ (λ e' s' l. absurd (ground arith))
  retry_from-IsPaced (suc left) config fn attempt e s h =
      step-IsPaced config attempt (fn s) _
        (λ e' s' l. retry_from-IsPaced left config fn (suc attempt) e' s' (omega arith))

  -- withRetry with at least one attempt allowed makes n + 1 calls for some n below maxAttempts:
  -- it gives the answer and the world of the last one, all the calls before it failed with an
  -- error that is not final (400, 401, 402, 404 and 413 are final), and the last one fails in
  -- that way only if the attempts are used up.
  pub with_retry-IsRun :
      (config : RetryConfig) (fn : S → Result WalrusError A × S) (s : S)
      → 1 ≤ config.max_attempts
      → (n : ℕ) × (n < config.max_attempts)
        × IsRun fn s (with_retry config fn s) n (config.max_attempts - 1)
  unfolding with_retry
  with_retry-IsRun config fn s h = go config.max_attempts refl h
    where
      go :
          (m : ℕ)
          → m ≡ config.max_attempts
          → 1 ≤ m
          → (n : ℕ) × (n < m) × IsRun fn s (retry_from m config fn 1 undefined_error s) n (m - 1)
      go zero e le = absurd (omega arith)
      go (suc left) e le =
          let (n, lt, run) = retry_from-IsRun left config fn 1 undefined_error s (omega arith) in
          (
            n,
            omega arith,
            subst (λ k. IsRun fn s (retry_from (suc left) config fn 1 undefined_error s) n k)
                (omega arith) run,
          )

  -- The sleeps of a finished run, one less than its calls: the sleep after the call number i + 1
  -- takes the base delay times the factor i times, or the greatest delay if that is less.
  abbrev pub IsPaced : RetryConfig → Run S A → Type 0
  IsPaced config r =
      (k : ℕ) × (r.calls ≡ suc k)
      × (r.sleeps ≡ map (λ i. min (uncapped config i) config.max_delay) (seq 0 k))

  -- withRetry with at least one attempt allowed sleeps once between two calls, so once less than it
  -- calls: the sleep after the call number i + 1 takes the base delay multiplied i times by the
  -- factor, or the greatest delay where that is less.
  pub with_retry-IsPaced :
      (config : RetryConfig) (fn : S → Result WalrusError A × S) (s : S)
      → 1 ≤ config.max_attempts
      → IsPaced config (with_retry config fn s)
  unfolding with_retry
  with_retry-IsPaced config fn s h =
      let (k, calls, sleeps) = go config.max_attempts refl h in
      (k, calls, sleeps ∙ delays config 0 k)
    where
      go :
          (m : ℕ)
          → m ≡ config.max_attempts
          → 1 ≤ m
          → SleepsFrom config 1 (retry_from m config fn 1 undefined_error s)
      go zero e le = absurd (omega arith)
      go (suc left) e le = retry_from-IsPaced left config fn 1 undefined_error s (omega arith)
