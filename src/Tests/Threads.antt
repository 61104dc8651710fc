-- ===== src/Tests/Threads.antt =====
-- Examples of the theorems on the threads of the scheduler, and on the end of the daemon.
use datasaver.Base.{ℕ, true, false, bytes, [], ◌∷◌, ◌≡◌, ◌≢◌, ◌↔◌, inl, inr, refl, arith}
use datasaver.Scheduler.{Scheduler}
use datasaver.Scheduler.Threads.{
  before_stop, waiting, stopped, unstarted, backing_up, over, under_way, free, by_stop, System,
  at_job, before_lock, updating, CronJobs, stop_locks, stop_cron, stop_done, job_starts,
  job_schedules, job_locks, job_updates, Reach, here, later,
}
use datasaver.Scheduler.Threads.Stopping.{IsStarted}
use datasaver.Commands.Shutdown.{
  Daemon, serving, stopping, returned, DaemonReach, unmoved, and_then, signalled, threads_step,
  stop_returned, health_closed, metrics_closed, IsServing, daemon_returned, daemon_returns_iff,
}
use datasaver.Tests.Data.{day_time}

abbrev jobs_of_cron : CronJobs
jobs_of_cron = record {
  Starts = λ ticking. ticking ≡ true;
  Done = λ jobs. (i : ℕ) → under_way (jobs i) ≡ false;
  starts_ticking = λ ticking h. h;
  done_iff = λ jobs. (λ h. h, λ h. h);
}

abbrev ticks : Scheduler
ticks = record {
  schedule = bytes "0 2 * * *";
  running = true;
  next_run = day_time 1;
  entries = bytes "0 2 * * *" ∷ [];
  ticking = true;
}

abbrev fresh : System
fresh = record { scheduler = ticks; lock = free; stop = before_stop; jobs = λ i. unstarted }

has_entry : ticks.entries ≢ []
has_entry e = ground (arith, e)

fresh-IsStarted : IsStarted fresh
fresh-IsStarted = record {
  is_free = refl;
  at_stop = refl;
  at_jobs = λ i. refl;
  is_running = refl;
  scheduled = has_entry;
}

-- A job that returns before Stop is called.
abbrev job_done : System
job_done = record fresh {
  scheduler = record ticks { next_run = day_time 2 };
  jobs = at_job 0 over (at_job 0 updating (at_job 0 before_lock (at_job 0 backing_up fresh.jobs)));
}

abbrev ended : System
ended = record job_done {
  scheduler = record job_done.scheduler { ticking = false; running = false };
  stop = stopped;
}

idle : (i : ℕ) → under_way (job_done.jobs i) ≡ false
idle i = ground arith

-- A Stop during a backup.
abbrev busy : System
busy = record fresh {
  scheduler = record ticks { ticking = false };
  lock = by_stop;
  stop = waiting;
  jobs = at_job 0 backing_up fresh.jobs;
}

during : Reach jobs_of_cron fresh busy
during =
    later (later (later here (job_starts 0 refl refl)) (stop_locks refl refl)) (stop_cron refl refl)

abbrev serves : Daemon
serves = record {
  phase = serving;
  threads = fresh;
  health_shut = false;
  metrics_shut = false;
  cancelled = false;
}

serves-IsServing : IsServing serves
serves-IsServing = record {
  in_serving = refl;
  started = fresh-IsStarted;
  health_up = refl;
  metrics_up = refl;
  watching = refl;
}

abbrev gone : Daemon
gone = record {
  phase = returned;
  threads = ended;
  health_shut = true;
  metrics_shut = true;
  cancelled = true;
}

worked : DaemonReach jobs_of_cron serves (record serves { threads = job_done })
worked =
    and_then
      (and_then
        (and_then (and_then unmoved (threads_step (job_starts 0 refl refl) (inl refl)))
          (threads_step (job_schedules 0 refl has_entry) (inl refl)))
        (threads_step (job_locks 0 refl refl) (inl refl)))
      (threads_step (job_updates 0 (day_time 2) refl) (inl refl))

-- The signal, Stop, and the two servers.
goes : DaemonReach jobs_of_cron serves gone
goes =
    and_then
      (and_then
        (and_then
          (and_then
            (and_then
              (and_then (and_then worked (signalled refl))
                (threads_step (stop_locks refl refl) (inr refl)))
              (threads_step (stop_cron refl refl) (inr refl)))
            (threads_step (stop_done refl idle) (inr refl)))
          (stop_returned refl refl))
        (health_closed refl))
      (metrics_closed refl)

daemon_returned_example :
    (gone.phase ≡ returned
      → ((i : ℕ) → under_way (gone.threads.jobs i) ≡ false)
        × (gone.threads.scheduler.running ≡ false)
        × (gone.threads.scheduler.ticking ≡ false)
        × (gone.health_shut ≡ true)
        × (gone.metrics_shut ≡ true)
        × (gone.cancelled ≡ true))
    × ((i : ℕ) → under_way (gone.threads.jobs i) ≡ true → gone.health_shut ≡ false)
daemon_returned_example = daemon_returned jobs_of_cron serves gone serves-IsServing goes

abbrev held : Daemon
held = record serves { phase = stopping; threads = busy }

-- The signal comes during a backup.
holds : DaemonReach jobs_of_cron serves held
holds =
    and_then
      (and_then
        (and_then (and_then unmoved (threads_step (job_starts 0 refl refl) (inl refl)))
          (signalled refl))
        (threads_step (stop_locks refl refl) (inr refl)))
      (threads_step (stop_cron refl refl) (inr refl))

daemon_returns_iff_example :
    ((f : Daemon) × DaemonReach jobs_of_cron held f × (f.phase ≡ returned))
    ↔ ((i : ℕ) → under_way (held.threads.jobs i) ≡ false)
daemon_returns_iff_example =
    daemon_returns_iff jobs_of_cron serves held serves-IsServing holds refl refl
