-- ===== src/GitRetry/Tests.antt =====
-- Retries of a small operation.
use sandbox_driver.Base.{
  ℕ, suc, ◌+◌, ◌*◌, ◌≡◌, refl, ◌↔◌, Bool, true, false, Option, none, some, ltb, if◌then◌else◌,
  arith,
}
use sandbox_driver.Error.{Error, git, auth_rejected, overloaded, Result, ok, err}
use sandbox_driver.GitRetry.{
  Floats, World, GitCredentials, token_replication, GitRetryPolicy, retry_reason, retry_git,
  retry_loop, attempt_timeout, retry_delay, delay_after, report, panicked, Retried,
}
use sandbox_driver.GitRetry.Decide.{Repeats, retry_reason_iff}
use sandbox_driver.GitRetry.Attempts.{Returns, retry_git-Conforms}

abbrev minted : Option GitCredentials
minted = some (record { minted_at = some 5 })

abbrev rejected : Error
rejected =
    git (record { operation = "git fetch"; kind = auth_rejected; output = none; provider = none })

retry_reason_iff_example :
    (retry_reason rejected minted 7 ≡ some token_replication)
    ↔ Repeats minted 7 rejected token_replication
retry_reason_iff_example = retry_reason_iff rejected minted 7 token_replication

-- Whole numbers for `f64`, and a factor of one.
abbrev whole : Floats
whole = record { F64 = ℕ; one = 1; powi = λ f n. f; mul_f64 = λ d f. some (d * f) }

abbrev answer : ℕ → Result ℕ
answer (suc (suc n)) = ok 42
answer _ = err (overloaded "active_io")

-- The second attempt succeeds; each takes one unit of time.
abbrev world : World ℕ
world = record {
  operation = λ attempt limit now. (answer attempt, now + 1);
  wake = λ now delay. now + delay;
  wall = λ t. t;
  latest = 1000;
}

abbrev policy : GitRetryPolicy whole
policy = record {
  max_attempts = 3;
  backoff = record { initial = 2; factor = 1; cap = 9 };
  max_elapsed = some 20;
  per_attempt_timeout = some 5;
}

retry_git-Conforms_example :
    Returns whole world policy minted "git fetch" 100
      (retry_git whole world policy minted "git fetch" 100)
retry_git-Conforms_example =
    retry_git-Conforms whole world policy minted "git fetch" 100 (omega arith)

abbrev value_of : Option (Retried ℕ) → Option ℕ
value_of (some (report v tries)) = some v
value_of _ = none

retry_git_succeeds : value_of (retry_git whole world policy minted "git fetch" 100) ≡ some 42
unfolding retry_git retry_loop attempt_timeout retry_reason retry_delay delay_after
retry_git_succeeds = refl

abbrev is_panic : Option (Retried ℕ) → Bool
is_panic (some (panicked tries)) = true
is_panic _ = false

-- Products of ten and more overflow.
abbrev narrow : Floats
narrow = record {
  F64 = ℕ;
  one = 1;
  powi = λ f n. f;
  mul_f64 = λ d f. if ltb (d * f) 10 then some (d * f) else none;
}

abbrev steep : GitRetryPolicy narrow
steep = record {
  max_attempts = 3;
  backoff = record { initial = 2; factor = 5; cap = 1 };
  max_elapsed = none;
  per_attempt_timeout = none;
}

-- The cap of the backoff does not help.
backoff_panics : is_panic (retry_git narrow world steep minted "git fetch" 100) ≡ true
unfolding retry_git retry_loop attempt_timeout retry_reason retry_delay delay_after
backoff_panics = refl
