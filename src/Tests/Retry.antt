-- ===== src/Tests/Retry.antt =====
-- Examples of the theorems on retries: a loop that succeeds at its second attempt.
use datasaver.Base.{
  ℕ, zero, suc, ◌+◌, ◌≤◌, ◌<◌, ◌≡◌, refl, false, bytes, none, count, Result, ok, err, arith,
  to_lower,
}
use datasaver.Base.Int.{ℤ, pos}
use datasaver.Retry.{Error, is_retryable, contains, RetryConfig, World, with_retry}
use datasaver.Retry.Matching.{occurs_in, contains-occurs_in}
use datasaver.Retry.Outcomes.{is_call, FailsOpen, with_retry_first_success}

contains-occurs_in_example :
    contains (bytes "Connection Reset by peer") (bytes "connection reset")
    ≡ occurs_in (to_lower (bytes "connection reset")) (to_lower (bytes "Connection Reset by peer"))
contains-occurs_in_example =
    contains-occurs_in (bytes "Connection Reset by peer") (bytes "connection reset")

abbrev scale : ℤ → ℕ → ℤ
scale d n = d

abbrev config : RetryConfig ℕ
config = record { max_attempts = pos 3; initial_wait = pos 5; max_wait = pos 30; multiplier = 2 }

abbrev reset : Error
reset = record { is_canceled = false; is_deadline = false; text = bytes "connection reset" }

abbrev second : ℕ → Result Error ℕ
second (suc zero) = err reset
second n = ok 7

abbrev world : World ℕ
world = record { fn = second; done_before = λ j. none; done_during = λ j. none }

first_fails : (j : ℕ) → 1 ≤ j → j < 1 + 1 → FailsOpen world j
first_fails zero h k = absurd (omega arith)
first_fails (suc zero) h k = record {
  cause = reset;
  fails = refl;
  retryable = unfold is_retryable in refl;
  open_before = refl;
  open_during = refl;
}
first_fails (suc (suc j)) h k = absurd (omega arith)

with_retry_first_success_example :
    ((with_retry scale config 0 world).result ≡ 7)
    × ((with_retry scale config 0 world).error ≡ none)
    × (count is_call (with_retry scale config 0 world).events ≡ 2)
with_retry_first_success_example =
    with_retry_first_success scale config 0 world 1 7 (omega arith) first_fails refl refl
