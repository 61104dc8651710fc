-- ===== src/Scheduler/Threads/Owners.antt =====
-- Who holds the mutex of internal/backup/scheduler.go, however its threads interleave.
use datasaver.Base.{ℕ, ◌≡◌, ◌⊎◌, arith}
use datasaver.Scheduler.Threads.{
  locked, waiting, unstarted, backing_up, before_lock, updating, free, by_stop, by_job, by_readers,
  System, CronJobs, Step, stop_locks, stop_returns, stop_cron, stop_done, job_starts, job_schedules,
  job_unscheduled, job_locks, job_updates, first_reads, reads, read_ends, Reach, here, later,
}

-- Whoever is behind Lock holds the mutex.
pub record IsOwned (x : System) : Type 0 where
  pub by_waiting : (x.stop ≡ locked) ⊎ (x.stop ≡ waiting) → x.lock ≡ by_stop
  pub by_updating : (i : ℕ) → x.jobs i ≡ updating → x.lock ≡ by_job i

-- What a step finds of the mutex, of the caller of Stop and of the job.
abbrev Guard : {c : CronJobs} {x y : System} → Step c x y → Type 0
Guard {x = x} (stop_locks at l) = x.lock ≡ free
Guard {x = x} (stop_returns at r) = x.stop ≡ locked
Guard {x = x} (stop_cron at r) = x.stop ≡ locked
Guard {x = x} (stop_done at d) = x.stop ≡ waiting
Guard {x = x} (job_starts i at s) = x.jobs i ≡ unstarted
Guard {x = x} (job_schedules i at s) = x.jobs i ≡ backing_up
Guard {x = x} (job_unscheduled i at s) = x.jobs i ≡ backing_up
Guard {x = x} (job_locks i at l) = (x.jobs i ≡ before_lock) × (x.lock ≡ free)
Guard {x = x} (job_updates i next at) = x.jobs i ≡ updating
Guard {x = x} (first_reads l) = x.lock ≡ free
Guard {x = x} (reads n l) = x.lock ≡ by_readers n
Guard {x = x} (read_ends n l) = x.lock ≡ by_readers n

guard : {c : CronJobs} {x y : System} (mv : Step c x y) → Guard mv
guard (stop_locks at l) = l
guard (stop_returns at r) = at
guard (stop_cron at r) = at
guard (stop_done at d) = at
guard (job_starts i at s) = at
guard (job_schedules i at s) = at
guard (job_unscheduled i at s) = at
guard (job_locks i at l) = (at, l)
guard (job_updates i next at) = at
guard (first_reads l) = l
guard (reads n l) = l
guard (read_ends n l) = l

Step-IsOwned : {c : CronJobs} {x y : System} → Step c x y → IsOwned x → IsOwned y
Step-IsOwned (job_updates j next done) h = record {
  by_waiting = λ at. ground (arith, h.by_waiting, h.by_updating j done);
  by_updating = λ i at. ground (arith, h.by_updating j done, h.by_updating i);
}
Step-IsOwned (read_ends n l) h = record {
  by_waiting = λ at. ground (arith, h.by_waiting at, l);
  by_updating = λ i at. ground (arith, h.by_updating i at, l);
}
Step-IsOwned mv h = record {
  by_waiting = λ at. ground (arith, guard mv, h.by_waiting);
  by_updating = λ i at. ground (arith, guard mv, h.by_waiting, h.by_updating i);
}

pub Reach-IsOwned : {c : CronJobs} {x y : System} → Reach c x y → IsOwned x → IsOwned y
Reach-IsOwned here h = h
Reach-IsOwned (later r st) h = Step-IsOwned st (Reach-IsOwned r h)
