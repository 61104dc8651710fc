-- ===== src/Retry/Outcomes.antt =====
-- What WithRetry of internal/backup/retry.go guarantees, whatever the operation and the context do.
use datasaver.Base.{
  ℕ, zero, suc, ◌+◌, ◌≤◌, ◌<◌, ◌≡◌, refl, ◌⊎◌, inl, inr, Bool, true, false, List, [], Option, none,
  some, arith, ok, err, All, count,
}
use datasaver.Base.Int.{ℤ, pos, pos_part, ltb_ℤ, ◌≤ℤ◌}
use datasaver.Retry.{
  Error, is_retryable, RetryConfig, Event, call, wait, Outcome, World, next_wait, retry_from,
  with_retry,
}
use native.Mathlib.Nat.{add-zero}
use datasaver.Retry.Loop.{retry_from_ind}

abbrev pub is_call : Event → Bool
is_call (call n) = true
is_call (wait d) = false

-- A wait is the initial one, or at most the longest one.
abbrev pub WaitsWithin : ℤ → ℤ → Event → Type 0
WaitsWithin first cap (call n) = Unit
WaitsWithin first cap (wait d) = (d ≡ first) ⊎ (d ≤ℤ cap)

-- Attempt `j` fails with a retryable error, with the context open before it and across the wait.
pub record FailsOpen {T : Type 0} (w : World T) (j : ℕ) : Type 0 where
  pub cause : Error
  pub fails : w.fn j ≡ err cause
  pub retryable : is_retryable (some cause) ≡ true
  pub open_before : w.done_before j ≡ none
  pub open_during : w.done_during j ≡ none

module _ {F T : Type 0} (scale : ℤ → F → ℤ) (cfg : RetryConfig F) (zero_value : T)
    (w : World T) where
  abbrev run : Outcome T
  run = with_retry scale cfg zero_value w

  -- The operation is called at most as often as the largest number of attempts says.
  pub count-with_retry-le : count is_call run.events ≤ pos_part cfg.max_attempts
  unfolding with_retry
  count-with_retry-le =
      retry_from_ind scale cfg zero_value w {P = λ left _ _ _ o. count is_call o.events ≤ left}
        (record {
          ends = λ _ _ _. omega arith;
          cancels = λ _ _ _ _ _. omega arith;
          succeeds = λ _ _ _ _ _ _. omega arith;
          stops = λ _ _ _ _ _. omega arith;
          goes_on = λ _ _ _ _ _ _ _ _ h. omega arith;
          runs_out = λ _ _ _ _ _ _ h. omega arith;
        })
        (pos_part cfg.max_attempts) 1 cfg.initial_wait none

  next_wait-le : (d : ℤ) → next_wait scale cfg zero_value w d ≤ℤ cfg.max_wait
  unfolding next_wait
  next_wait-le d = ground arith

  abbrev Within : ℤ → List Event → Type 0
  Within d es =
      (d ≡ cfg.initial_wait) ⊎ (d ≤ℤ cfg.max_wait)
      → All (WaitsWithin cfg.initial_wait cfg.max_wait) es

  -- Every wait is the initial one or at most the longest one.
  pub with_retry_waits : All (WaitsWithin cfg.initial_wait cfg.max_wait) run.events
  unfolding with_retry
  with_retry_waits =
      retry_from_ind scale cfg zero_value w {P = λ _ _ d _ o. Within d o.events}
        (record {
          ends = λ _ _ _ _. tt;
          cancels = λ _ _ _ _ _ _. tt;
          succeeds = λ _ _ _ _ _ _ _. (tt, tt);
          stops = λ _ _ _ _ _ _. (tt, tt);
          goes_on = λ _ _ d _ _ _ _ e h b. (tt, (b, h (inr (rw e (next_wait-le d)))));
          runs_out = λ _ _ _ _ _ _ h b. (tt, h b);
        })
        (pos_part cfg.max_attempts) 1 cfg.initial_wait none (inl refl)

  -- An attempt from `attempt` on, below `left` more, gave the result.
  abbrev GivenBy : ℕ → ℕ → Outcome T → Type 0
  GivenBy left attempt o = (j : ℕ) × (attempt ≤ j) × (j < attempt + left) × (w.fn j ≡ ok o.result)

  abbrev Real : ℕ → ℕ → Option Error → Outcome T → Type 0
  Real left attempt last o = o.error ≡ none → GivenBy left attempt o ⊎ ((left ≡ 0) × (last ≡ none))

  Real-later :
      (left attempt : ℕ) (last : Option Error) (e : Error) (o : Outcome T)
      → Real left (attempt + 1) (some e) o
      → Real (suc left) attempt last o
  Real-later left attempt last e o h none_left = elim (h none_left) [
    | inl (j, from, below, gave) ↦ inl (j, omega arith, omega arith, gave)
    | inr (_, impossible) ↦ cc
  ]

  retry_from-Real :
      (left attempt : ℕ) (d : ℤ) (last : Option Error)
      → Real left attempt last (retry_from scale cfg zero_value w left attempt d last)
  retry_from-Real =
      retry_from_ind scale cfg zero_value w {P = λ left attempt _ last o. Real left attempt last o}
        (record {
          ends = λ _ _ last h. inr (refl, h);
          cancels = λ _ _ _ _ h. cc;
          succeeds = λ left attempt _ _ r gave _. inl (attempt, omega arith, omega arith, gave);
          stops = λ _ _ _ _ _ h. cc;
          goes_on = λ left attempt _ _ last e o _ h. Real-later left attempt last e o h;
          runs_out = λ left attempt _ last e o h. Real-later left attempt last e o h;
        })

  -- If the number of attempts is positive, a result without an error is what the operation gave at
  -- some attempt.
  pub with_retry_real :
      ltb_ℤ (pos 0) cfg.max_attempts ≡ true
      → run.error ≡ none
      → (j : ℕ) × (1 ≤ j) × (j ≤ pos_part cfg.max_attempts) × (w.fn j ≡ ok run.result)
  unfolding with_retry
  with_retry_real positive no_error =
      elim (retry_from-Real (pos_part cfg.max_attempts) 1 cfg.initial_wait none no_error) [
        | inl (j, from, below, gave) ↦ (j, from, omega arith, gave)
        | inr (nothing, _) ↦ absurd (ground arith)
      ]

  -- Without a positive number of attempts there is neither a call nor an error.
  pub with_retry_no_attempts :
      ltb_ℤ (pos 0) cfg.max_attempts ≡ false
      → run ≡ record { result = zero_value; error = none; events = [] }
  unfolding with_retry
  with_retry_no_attempts h =
      let e : pos_part cfg.max_attempts ≡ 0 = ground arith in rw (e, retry_from)

  -- From `attempt` on, `k` attempts fail openly and the next one succeeds.
  first_success :
      (k left attempt : ℕ) (d : ℤ) (last : Option Error) (r : T)
      → attempt + left ≡ suc (pos_part cfg.max_attempts)
      → k < left
      → ((j : ℕ) → attempt ≤ j → j < attempt + k → FailsOpen w j)
      → w.done_before (attempt + k) ≡ none
      → w.fn (attempt + k) ≡ ok r
      → let o = retry_from scale cfg zero_value w left attempt d last in
        (o.result ≡ r) × (o.error ≡ none) × (count is_call o.events ≡ suc k)
  unfolding retry_from
  first_success k zero attempt d last r total room fails opens gives = absurd (omega arith)
  first_success zero (suc left) attempt d last r total room fails opens gives =
      rw (rw add-zero at opens, rw add-zero at gives, retry_from) (refl, refl, omega arith)
  first_success (suc k) (suc left) attempt d last r total room fails opens gives =
      let now = fails attempt (omega arith) (omega arith) in
      let shift : attempt + suc k ≡ (attempt + 1) + k = omega arith in
      let (same, clean, calls) =
        first_success k left (attempt + 1) (next_wait scale cfg zero_value w d) (some now.cause) r
          (omega arith) (omega arith) (λ j a b. fails j (omega arith) (omega arith))
          (rw shift at opens) (rw shift at gives) in
      let more : ltb_ℤ (pos attempt) cfg.max_attempts ≡ true = ground arith in
      rw (now.open_before, now.fails, now.retryable, more, now.open_during, retry_from)
        (same, clean, omega arith)

  -- If the first `k` attempts fail with retryable errors while the context is open, and the next
  -- one, which the number of attempts still allows, succeeds, its result is returned after `suc k`
  -- calls.
  pub with_retry_first_success :
      (k : ℕ) (r : T)
      → k < pos_part cfg.max_attempts
      → ((j : ℕ) → 1 ≤ j → j < 1 + k → FailsOpen w j)
      → w.done_before (1 + k) ≡ none
      → w.fn (1 + k) ≡ ok r
      → (run.result ≡ r) × (run.error ≡ none) × (count is_call run.events ≡ suc k)
  unfolding with_retry
  with_retry_first_success k r room fails opens gives =
      first_success k (pos_part cfg.max_attempts) 1 cfg.initial_wait none r (omega arith) room fails
        opens gives
