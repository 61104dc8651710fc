-- ===== src/Scheduler/Threads.antt =====
-- internal/backup/scheduler.go with its mutex: a caller of Stop, the jobs that cron starts, each on
-- a goroutine of its own, and callers of NextRun and IsRunning, interleaved in any order.
pub mod Owners
pub mod Deadlock
pub mod Stopping
use datasaver.Base.{
  ℕ, zero, suc, ◌==◌, Bool, true, false, Str, List, [], if◌then◌else◌, ◌≡◌, ◌≢◌, ◌↔◌,
}
use datasaver.Clock.{Time}
use datasaver.Scheduler.{Scheduler}

-- Where the caller of Stop stands: before Lock, behind it, at the receive from ctx.Done(), and
-- behind the deferred Unlock.
pub data StopPc : Type 0 where
  before_stop locked waiting stopped : StopPc

-- Where runBackup stands: not called, in Run and Cleanup, before Lock, behind it, and returned.
pub data JobPc : Type 0 where
  unstarted backing_up before_lock updating over : JobPc

-- A job that cron has started and that has not returned.
abbrev pub under_way : JobPc → Bool
under_way unstarted = false
under_way over = false
under_way other = true

-- The sync.RWMutex: free, held by the caller of Stop, by a job, or by readers, of which there is
-- one more than the number says.
pub data Lock : Type 0 where
  free : Lock
  by_stop : Lock
  by_job : ℕ → Lock
  by_readers : ℕ → Lock

pub record System : Type 0 where
  pub scheduler : Scheduler
  pub lock : Lock
  pub stop : StopPc
  pub jobs : ℕ → JobPc

abbrev pub at_job : ℕ → JobPc → (ℕ → JobPc) → ℕ → JobPc
at_job i pc jobs j = if i == j then pc else jobs j

-- RUnlock
abbrev pub fewer_readers : ℕ → Lock
fewer_readers zero = free
fewer_readers (suc n) = by_readers n

-- What the scheduler relies on of robfig/cron: a cron that is stopped starts no job, and the
-- context that Stop gives is done exactly when every job that was started has returned.
pub record CronJobs : Type 1 where
  pub Starts : Bool → Type 0
  pub Done : (ℕ → JobPc) → Type 0
  pub starts_ticking : (ticking : Bool) → Starts ticking → ticking ≡ true
  pub done_iff : (jobs : ℕ → JobPc) → Done jobs ↔ ((i : ℕ) → under_way (jobs i) ≡ false)

pub data Step (c : CronJobs) (x : System) : System → Type 0 where
  -- Stop
  stop_locks :
      x.stop ≡ before_stop → x.lock ≡ free → Step c x (record x { lock = by_stop; stop = locked })
  stop_returns :
      x.stop ≡ locked
      → x.scheduler.running ≡ false
      → Step c x (record x { lock = free; stop = stopped })
  stop_cron :
      x.stop ≡ locked
      → x.scheduler.running ≡ true
      → Step c x (record x { scheduler = record x.scheduler { ticking = false }; stop = waiting })
  stop_done :
      x.stop ≡ waiting
      → c.Done x.jobs
      → Step c x (record x {
        scheduler = record x.scheduler { running = false };
        lock = free;
        stop = stopped;
      })
  -- runBackup, for the job i
  job_starts :
      (i : ℕ)
      → x.jobs i ≡ unstarted
      → c.Starts x.scheduler.ticking
      → Step c x (record x { jobs = at_job i backing_up x.jobs })
  job_schedules :
      (i : ℕ)
      → x.jobs i ≡ backing_up
      → x.scheduler.entries ≢ []
      → Step c x (record x { jobs = at_job i before_lock x.jobs })
  job_unscheduled :
      (i : ℕ)
      → x.jobs i ≡ backing_up
      → x.scheduler.entries ≡ []
      → Step c x (record x { jobs = at_job i over x.jobs })
  job_locks :
      (i : ℕ)
      → x.jobs i ≡ before_lock
      → x.lock ≡ free
      → Step c x (record x { lock = by_job i; jobs = at_job i updating x.jobs })
  job_updates :
      (i : ℕ) (next : Time)
      → x.jobs i ≡ updating
      → Step c x (record x {
        scheduler = record x.scheduler { next_run = next };
        lock = free;
        jobs = at_job i over x.jobs;
      })
  -- NextRun and IsRunning
  first_reads : x.lock ≡ free → Step c x (record x { lock = by_readers 0 })
  reads : (n : ℕ) → x.lock ≡ by_readers n → Step c x (record x { lock = by_readers (suc n) })
  read_ends : (n : ℕ) → x.lock ≡ by_readers n → Step c x (record x { lock = fewer_readers n })

pub data Reach (c : CronJobs) (x : System) : System → Type 0 where
  here : Reach c x x
  later : {y z : System} → Reach c x y → Step c y z → Reach c x z
