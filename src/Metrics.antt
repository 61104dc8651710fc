-- ===== src/Metrics.antt =====
-- internal/metrics/prometheus.go: the instruments, and what is recorded in them.
use datasaver.Base.{
  ℕ, suc, ◌+◌, Str, bytes, List, [], ◌∷◌, ◌++◌, if◌then◌else◌, length, ◌≡◌, refl, arith,
  length-append,
}
use datasaver.Base.Int.{ℤ, pos, negsuc, neg_ℕ}
use datasaver.Clock.{Time, zero_time}
use datasaver.Config.{is_empty}
use datasaver.Status.{float64}

-- The values of the instruments. A histogram keeps the durations that it observed, a gauge of a
-- time the time, and the counters count exactly up to 2^53.
pub record Metrics : Type 0 where
  pub namespace : Str
  pub backup_duration : List ℤ
  pub backup_size : ℤ
  pub backup_total : ℕ
  pub backup_failures : ℕ
  pub last_backup_time : Time
  pub last_backup_success : ℕ
  pub storage_used : ℤ

unfoldable pub new : Str → Metrics
new namespace = record {
  namespace = (if is_empty namespace then bytes "datasaver" else namespace);
  backup_duration = [];
  backup_size = pos 0;
  backup_total = 0;
  backup_failures = 0;
  last_backup_time = zero_time;
  last_backup_success = 0;
  storage_used = pos 0;
}

-- float64 of an int64.
unfoldable pub float_of : ℤ → ℤ
unfolding float64
float_of (pos n) = pos (float64 n)
float_of (negsuc n) = neg_ℕ (float64 (suc n))

unfoldable pub record_backup_success : Time → ℤ → ℤ → Metrics → Metrics
unfolding float_of
record_backup_success now duration size m = record m {
  backup_total = m.backup_total + 1;
  backup_duration = m.backup_duration ++ duration ∷ [];
  backup_size = float_of size;
  last_backup_time = now;
  last_backup_success = 1;
}

unfoldable pub record_backup_failure : Time → Metrics → Metrics
record_backup_failure now m = record m {
  backup_total = m.backup_total + 1;
  backup_failures = m.backup_failures + 1;
  last_backup_time = now;
  last_backup_success = 0;
}

unfoldable pub set_storage_used : ℤ → Metrics → Metrics
unfolding float_of
set_storage_used n m = record m { storage_used = float_of n }

-- The calls of the three methods, in any order.
pub data Recorded (m : Metrics) : Metrics → Type 0 where
  nothing : Recorded m m
  success :
      {n : Metrics} (now : Time) (duration size : ℤ)
      → Recorded m n
      → Recorded m (record_backup_success now duration size n)
  failure : {n : Metrics} (now : Time) → Recorded m n → Recorded m (record_backup_failure now n)
  used : {n : Metrics} (size : ℤ) → Recorded m n → Recorded m (set_storage_used size n)

-- Every attempt is counted once: as a failure, or by its duration.
attempts :
    (namespace : Str) {m : Metrics}
    → Recorded (new namespace) m
    → m.backup_total ≡ m.backup_failures + length m.backup_duration
unfolding new record_backup_success record_backup_failure set_storage_used
attempts namespace nothing = refl
attempts namespace (success {n} now duration size before) =
    omega (arith, attempts namespace before, length-append n.backup_duration (duration ∷ []))
attempts namespace (failure now before) = omega (arith, attempts namespace before)
attempts namespace (used size before) = attempts namespace before
