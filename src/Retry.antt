-- ===== src/Retry.antt =====
-- internal/backup/retry.go: which errors are retried, and the retry loop.
pub mod Matching
pub mod Loop
pub mod Outcomes
use datasaver.Base.{
  ℕ, zero, suc, ◌+◌, ◌-◌, Bool, true, false, not, ◌&&◌, ◌||◌, Str, bytes, String, List, [], ◌∷◌,
  Option, none, some, if◌then◌else◌, ltb, leb, ◌==◌, length, take, str_eq, Result, ok, err,
}
use datasaver.Base.Int.{ℤ, pos, pos_part, ltb_ℤ}

abbrev pub drop : ℕ → Str → Str
drop zero s = s
drop (suc n) [] = []
drop (suc n) (c ∷ s) = drop n s

-- s[i:j]
abbrev pub slice : Str → ℕ → ℕ → Str
slice s i j = take (j - i) (drop i s)

abbrev pub fold_byte : ℕ → ℕ
fold_byte c = if leb b'A' c && leb c b'Z' then c + (b'a' - b'A') else c

-- The loop of equalFoldSlice, over two strings of one length.
unfoldable pub equal_fold_bytes : Str → Str → Bool
equal_fold_bytes [] [] = true
equal_fold_bytes [] (y ∷ ys) = false
equal_fold_bytes (x ∷ xs) [] = false
equal_fold_bytes (x ∷ xs) (y ∷ ys) =
    let rest = equal_fold_bytes xs ys in if not (fold_byte x == fold_byte y) then false else rest

unfoldable pub equal_fold_slice : Str → Str → Bool
unfolding equal_fold_bytes
equal_fold_slice a b = if not (length a == length b) then false else equal_fold_bytes a b

-- The loop of containsLower from `i` on, with the rounds that are left.
unfoldable pub contains_lower_from : ℕ → ℕ → Str → Str → Bool
unfolding equal_fold_slice
contains_lower_from zero i s substr = false
contains_lower_from (suc rounds) i s substr =
    let rest = contains_lower_from rounds (i + 1) s substr in
    if equal_fold_slice (slice s i (i + length substr)) substr then true else rest

unfoldable pub contains_lower : Str → Str → Bool
unfolding contains_lower_from
contains_lower s substr = contains_lower_from (length s + 1 - length substr) 0 s substr

unfoldable pub contains : Str → Str → Bool
unfolding contains_lower str_eq
contains s substr =
    leb (length substr) (length s)
    && (str_eq s substr || ltb 0 (length s) && contains_lower s substr)

-- An error: whether errors.Is finds context.Canceled or context.DeadlineExceeded in it, and its
-- text.
pub record Error : Type 0 where
  pub is_canceled : Bool
  pub is_deadline : Bool
  pub text : Str

abbrev pub non_retryable_errors : List Str
non_retryable_errors =
    bytes "permission denied"
    ∷ bytes "access denied"
    ∷ bytes "authentication failed"
    ∷ bytes "invalid password"
    ∷ bytes "database does not exist"
    ∷ bytes "role does not exist"
    ∷ []

unfoldable pub contains_any : Str → List Str → Bool
unfolding contains
contains_any text [] = false
contains_any text (s ∷ ss) =
    let rest = contains_any text ss in if contains text s then true else rest

-- A nil error is `none`.
unfoldable pub is_retryable : Option Error → Bool
unfolding contains_any
is_retryable none = false
is_retryable (some e) =
    if e.is_canceled || e.is_deadline then false else not (contains_any e.text non_retryable_errors)

-- The multiplier is a float of type `F`.
pub record RetryConfig (F : Type 0) : Type 0 where
  pub max_attempts : ℤ
  pub initial_wait : ℤ
  pub max_wait : ℤ
  pub multiplier : F

unfoldable pub default_retry_config : {F : Type 0} → F → RetryConfig F
default_retry_config two = record {
  max_attempts = pos 3;
  initial_wait = pos 1000000000;
  max_wait = pos 30000000000;
  multiplier = two;
}

-- What the loop does, in order: a call of `fn`, or a wait of so many nanoseconds.
pub data Event : Type 0 where
  call : ℕ → Event
  wait : ℤ → Event

-- The Go results, the second `none` for a nil error, and the events.
pub record Outcome (T : Type 0) : Type 0 where
  pub result : T
  pub error : Option Error
  pub events : List Event

-- What the loop meets: the results of `fn`, and at both selects the error of the context if it is
-- done.
pub record World (T : Type 0) : Type 0 where
  pub fn : ℕ → Result Error T
  pub done_before : ℕ → Option Error
  pub done_during : ℕ → Option Error

-- `scale w m` is time.Duration(float64(w) * m).
module _ {F T : Type 0} (scale : ℤ → F → ℤ) (cfg : RetryConfig F) (zero_value : T)
    (w : World T) where
  unfoldable pub next_wait : ℤ → ℤ
  next_wait d =
      let d' = scale d cfg.multiplier in if ltb_ℤ cfg.max_wait d' then cfg.max_wait else d'

  abbrev pub prepend : List Event → Outcome T → Outcome T
  prepend [] o = o
  prepend (e ∷ es) o = let o' = prepend es o in record o' { events = e ∷ o'.events }

  abbrev pub give_up : Error → Outcome T
  give_up e = record { result = zero_value; error = some e; events = [] }

  -- The loop from `attempt` on, with the attempts that are left, the wait and lastErr.
  unfoldable pub retry_from : ℕ → ℕ → ℤ → Option Error → Outcome T
  unfolding next_wait
  retry_from zero attempt d last_err = record { result = zero_value; error = last_err; events = [] }
  retry_from (suc left) attempt d last_err = elim (w.done_before attempt) [
    | some e ↦ give_up e
    | none ↦ elim (w.fn attempt) [
      | ok r ↦ record { result = r; error = none; events = call attempt ∷ [] }
      | err e ↦
          let stop = prepend (call attempt ∷ []) (give_up e) in
          let last = prepend (call attempt ∷ []) (retry_from left (attempt + 1) d (some e)) in
          let again : Outcome T = elim (w.done_during attempt) [
            | some e' ↦ prepend (call attempt ∷ []) (give_up e')
            | none ↦
                prepend (call attempt ∷ wait d ∷ [])
                  (retry_from left (attempt + 1) (next_wait d) (some e))
          ] in
          if not (is_retryable (some e))
          then stop
          else if ltb_ℤ (pos attempt) cfg.max_attempts
          then again
          else last
    ]
  ]

  unfoldable pub with_retry : Outcome T
  unfolding retry_from
  with_retry = retry_from (pos_part cfg.max_attempts) 1 cfg.initial_wait none
