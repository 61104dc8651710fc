-- ===== src/Retry/Loop.antt =====
-- What WithRetry of internal/backup/retry.go does, whatever the operation and the context do.
use datasaver.Base.{
  ℕ, zero, suc, ◌+◌, ◌≡◌, refl, inl, inr, [], ◌∷◌, Option, none, some, ok, Bool-cases, Option-cases,
  Result-cases,
}
use datasaver.Base.Int.{ℤ, pos, ltb_ℤ}
use datasaver.Retry.{
  Error, is_retryable, RetryConfig, call, wait, Outcome, World, next_wait, give_up, retry_from,
}

module _ {F T : Type 0} (scale : ℤ → F → ℤ) (cfg : RetryConfig F) (zero_value : T)
    (w : World T) where
  -- What to show of a property of the state and the outcome of the loop: for the end of the loop,
  -- for each of the three ways out of a round, and for a round that goes on.
  pub record Rule (P : ℕ → ℕ → ℤ → Option Error → Outcome T → Type 0) : Type 0 where
    pub ends :
        (attempt : ℕ) (d : ℤ) (last : Option Error)
        → P zero attempt d last (record { result = zero_value; error = last; events = [] })
    pub cancels :
        (left attempt : ℕ) (d : ℤ) (last : Option Error) (e : Error)
        → P (suc left) attempt d last (give_up scale cfg zero_value w e)
    pub succeeds :
        (left attempt : ℕ) (d : ℤ) (last : Option Error) (r : T)
        → w.fn attempt ≡ ok r
        → P
            (suc left)
            attempt
            d
            last
            (record { result = r; error = none; events = call attempt ∷ [] })
    pub stops :
        (left attempt : ℕ) (d : ℤ) (last : Option Error) (e : Error)
        → P
            (suc left)
            attempt
            d
            last
            (record { result = zero_value; error = some e; events = call attempt ∷ [] })
    pub goes_on :
        (left attempt : ℕ) (d d' : ℤ) (last : Option Error) (e : Error) (o : Outcome T)
        → d' ≡ next_wait scale cfg zero_value w d
        → P left (attempt + 1) d' (some e) o
        → P (suc left) attempt d last (record o { events = call attempt ∷ wait d ∷ o.events })
    pub runs_out :
        (left attempt : ℕ) (d : ℤ) (last : Option Error) (e : Error) (o : Outcome T)
        → P left (attempt + 1) d (some e) o
        → P (suc left) attempt d last (record o { events = call attempt ∷ o.events })

  module _ {P : ℕ → ℕ → ℤ → Option Error → Outcome T → Type 0} (rule : Rule P) where
    open rule use {ends, cancels, succeeds, stops, goes_on, runs_out}

    pub retry_from_ind :
        (left attempt : ℕ) (d : ℤ) (last : Option Error)
        → P left attempt d last (retry_from scale cfg zero_value w left attempt d last)
    unfolding retry_from
    retry_from_ind zero attempt d last = ends attempt d last
    retry_from_ind (suc left) attempt d last = elim (Option-cases (w.done_before attempt)) [
      | inr (e, done) ↦ rw (done, retry_from) (cancels left attempt d last e)
      | inl open_ctx ↦ elim (Result-cases (w.fn attempt)) [
        | inl (r, good) ↦ rw (open_ctx, retry_from, good) (succeeds left attempt d last r good)
        | inr (e, bad) ↦ elim (Bool-cases (is_retryable (some e))) [
          | inr fatal ↦ rw (open_ctx, retry_from, bad, fatal) (stops left attempt d last e)
          | inl again ↦ elim (Bool-cases (ltb_ℤ (pos attempt) cfg.max_attempts)) [
            | inr spent ↦
                rw (open_ctx, retry_from, bad, again, spent)
                  (runs_out left attempt d last e _ (retry_from_ind left (attempt + 1) d (some e)))
            | inl more ↦ elim (Option-cases (w.done_during attempt)) [
              | inr (e', done) ↦
                  rw (open_ctx, retry_from, bad, again, more, done) (stops left attempt d last e')
              | inl waited ↦
                  rw (open_ctx, retry_from, bad, again, more, waited)
                    (goes_on left attempt d _ last e _ refl (
                      retry_from_ind left (attempt + 1) (next_wait scale cfg zero_value w d)
                        (some e)))
            ]
          ]
        ]
      ]
    ]
