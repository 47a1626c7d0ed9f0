-- ===== src/Api/Guards/Window.antt =====
-- The sliding window over a sequence of requests: apps/api/src/common/guards/rate-limit.guard.ts.
use brine_vault.Base.{ℕ, ◌≤◌, some, List, [], ◌∷◌, All}
use brine_vault.Api.Guards.{RateLimit, rate_limit}

-- The set of a caller after its requests, given by their times, the newest first.
abbrev pub after_requests : RateLimit → List ℕ → List ℕ
after_requests config [] = []
after_requests config (now ∷ earlier) =
    (rate_limit (some config) now (after_requests config earlier)).1

-- Times that never go back.
abbrev pub IsOrdered : List ℕ → Type 0
IsOrdered [] = Unit
IsOrdered (now ∷ earlier) = All (λ t. t ≤ now) earlier × IsOrdered earlier
