-- ===== src/Scheduler/Threads/Deadlock.antt =====
-- Stop of internal/backup/scheduler.go holds the mutex while it waits for the jobs, and a job wants
-- the mutex before it returns.
use datasaver.Base.{ℕ, [], ◌≡◌, ◌≢◌, ◌⊎◌, arith}
use datasaver.Scheduler.Threads.{
  waiting, backing_up, before_lock, updating, by_stop, System, CronJobs, Step, stop_locks,
  stop_returns, stop_cron, stop_done, job_starts, job_schedules, job_unscheduled, job_locks,
  job_updates, first_reads, reads, read_ends, Reach, here, later,
}

-- Stop waits with the mutex, and the job has not got to it.
pub record IsStuck (i : ℕ) (x : System) : Type 0 where
  pub waits : x.stop ≡ waiting
  pub held : x.lock ≡ by_stop
  pub scheduled : x.scheduler.entries ≢ []
  pub unlocked : (j : ℕ) → x.jobs j ≢ updating
  pub job : (x.jobs i ≡ backing_up) ⊎ (x.jobs i ≡ before_lock)

Step-IsStuck : {c : CronJobs} {x y : System} (i : ℕ) → Step c x y → IsStuck i x → IsStuck i y
Step-IsStuck i (stop_locks at l) h = absurd (ground (arith, h.waits, at))
Step-IsStuck i (stop_returns at r) h = absurd (ground (arith, h.waits, at))
Step-IsStuck i (stop_cron at r) h = absurd (ground (arith, h.waits, at))
Step-IsStuck {c} {x} i (stop_done at done) h =
    absurd (ground (arith, h.job, (c.done_iff x.jobs).0 done i))
Step-IsStuck i (job_starts j at s) h = record {
  waits = h.waits;
  held = h.held;
  scheduled = h.scheduled;
  unlocked = λ k now. h.unlocked k (ground (arith, now));
  job = ground (arith, h.job, at);
}
Step-IsStuck i (job_schedules j at s) h = record {
  waits = h.waits;
  held = h.held;
  scheduled = h.scheduled;
  unlocked = λ k now. h.unlocked k (ground (arith, now));
  job = ground (arith, h.job, at);
}
Step-IsStuck i (job_unscheduled j at s) h = absurd (h.scheduled s)
Step-IsStuck i (job_locks j at l) h = absurd (ground (arith, h.held, l))
Step-IsStuck i (job_updates j next at) h = absurd (h.unlocked j at)
Step-IsStuck i (first_reads l) h = absurd (ground (arith, h.held, l))
Step-IsStuck i (reads n l) h = absurd (ground (arith, h.held, l))
Step-IsStuck i (read_ends n l) h = absurd (ground (arith, h.held, l))

pub Reach-IsStuck : {c : CronJobs} {x y : System} (i : ℕ) → Reach c x y → IsStuck i x → IsStuck i y
Reach-IsStuck i here h = h
Reach-IsStuck i (later r st) h = Step-IsStuck i st (Reach-IsStuck i r h)
