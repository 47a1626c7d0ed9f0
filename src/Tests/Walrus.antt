-- ===== src/Tests/Walrus.antt =====
-- The storage client of packages/walrus-sdk/src on small inputs.
use brine_vault.Base.{
  ℕ, suc, ◌-◌, ◌<◌, ◌≤◌, ◌==◌, ◌≡◌, refl, arith, ltb, if◌then◌else◌, [], ◌∷◌, length, All, none,
  some, Result, ok, err, true,
}
use brine_vault.Walrus.Retry.{
  WalrusError, walrus_api_error, other_error, undefined_error, default_upload_retry, with_retry,
  retry_from, retry_step, is_final, after_sleep, stop,
}
use brine_vault.Walrus.Retry.Laws.{IsRun, IsPaced, with_retry-IsRun, with_retry-IsPaced}
use brine_vault.Walrus.Chunks.{concat, split, concat-split}
use brine_vault.Walrus.Client.{
  Client, Http, answered, unreachable, default_chunk_config, read_blob, accept, try_aggregators,
}
use brine_vault.Walrus.Client.Fallback.{AllFail, ends_search, try_aggregators-first}

-- A server that answers 503 until its third request.
abbrev slow_server : ℕ → Result WalrusError ℕ × ℕ
slow_server s = ((if ltb s 2 then err (walrus_api_error 503) else ok 7), suc s)

with_retry-IsRun_example :
    (n : ℕ) × (n < 3)
    × IsRun slow_server 0 (with_retry default_upload_retry slow_server 0) n (3 - 1)
with_retry-IsRun_example = with_retry-IsRun default_upload_retry slow_server 0 (omega arith)

with_retry-IsPaced_example :
    IsPaced default_upload_retry (with_retry default_upload_retry slow_server 0)
with_retry-IsPaced_example = with_retry-IsPaced default_upload_retry slow_server 0 (omega arith)

concat-split_example :
    (concat (split 2 (4 ∷ 5 ∷ 6 ∷ [])) ≡ 4 ∷ 5 ∷ 6 ∷ [])
    × All (λ c. (1 ≤ length c) × (length c ≤ 2)) (split 2 (4 ∷ 5 ∷ 6 ∷ []))
concat-split_example = concat-split 2 (4 ∷ 5 ∷ 6 ∷ []) (omega arith)

-- Only the aggregator 1 is up; the state counts the requests.
abbrev one_up : Http ℕ
one_up = record {
  post_blob = λ url epochs bytes s. (unreachable 3, suc s);
  post_extend = λ url blob epochs s. (unreachable 3, suc s);
  get_blob = λ url blob s. ((if url == 1 then answered 200 (8 ∷ 9 ∷ []) else unreachable 3), suc s);
}

abbrev test_client : Client ℕ
test_client = record {
  http = one_up;
  cfg = record {
    publisher_url = 0;
    aggregator_url = 0;
    fallback_aggregators = some (1 ∷ []);
    default_epochs = none;
  };
  chunk_cfg = default_chunk_config;
  upload_retry = default_upload_retry;
  renewal_retry = default_upload_retry;
}

first_fails : AllFail test_client 6 (0 ∷ []) 0 3
unfolding read_blob with_retry retry_from retry_step accept is_final after_sleep stop
first_fails = (other_error 3, refl, refl, refl)

second_serves : ends_search (read_blob test_client 6 1 3).0 ≡ true
unfolding read_blob with_retry retry_from retry_step accept is_final after_sleep stop
second_serves = refl

try_aggregators-first_example :
    try_aggregators test_client 6 (0 ∷ 1 ∷ []) undefined_error 0 ≡ read_blob test_client 6 1 3
try_aggregators-first_example =
    try_aggregators-first test_client 6 (0 ∷ []) [] 1 undefined_error 0 3 first_fails second_serves
