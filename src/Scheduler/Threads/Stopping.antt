-- ===== src/Scheduler/Threads/Stopping.antt =====
-- When Stop of internal/backup/scheduler.go returns, and what has ended then.
use datasaver.Base.{ℕ, true, false, [], ◌≡◌, ◌≢◌, ◌↔◌, ◌⊎◌, inl, inr, refl, arith, Bool-cases}
use datasaver.Scheduler.Threads.Owners.{IsOwned, Reach-IsOwned}
use datasaver.Scheduler.Threads.Deadlock.{IsStuck, Reach-IsStuck}
use datasaver.Scheduler.Threads.{
  before_stop, waiting, stopped, JobPc, unstarted, backing_up, before_lock, updating, under_way,
  free, System, CronJobs, Step, stop_locks, stop_returns, stop_cron, stop_done, job_starts,
  job_schedules, job_unscheduled, job_locks, job_updates, first_reads, reads, read_ends, Reach,
  here, later,
}

-- Behind Start: the scheduler runs with an entry, and nothing has happened yet.
pub record IsStarted (x : System) : Type 0 where
  pub is_free : x.lock ≡ free
  pub at_stop : x.stop ≡ before_stop
  pub at_jobs : (i : ℕ) → x.jobs i ≡ unstarted
  pub is_running : x.scheduler.running ≡ true
  pub scheduled : x.scheduler.entries ≢ []

-- Until Stop returns the scheduler runs. From the call of cron.Stop the cron does not tick, and
-- once Stop has returned every job has.
pub record IsOrderly (x : System) : Type 0 where
  pub scheduled : x.scheduler.entries ≢ []
  pub runs : x.stop ≢ stopped → x.scheduler.running ≡ true
  pub halted : (x.stop ≡ waiting) ⊎ (x.stop ≡ stopped) → x.scheduler.ticking ≡ false
  pub ended : x.stop ≡ stopped → x.scheduler.running ≡ false
  pub quiet : x.stop ≡ stopped → (i : ℕ) → under_way (x.jobs i) ≡ false

Step-IsOrderly : {c : CronJobs} {x y : System} → Step c x y → IsOrderly x → IsOrderly y
Step-IsOrderly (stop_locks at l) h = record {
  scheduled = h.scheduled;
  runs = λ n. ground (arith, h.runs, at);
  halted = λ now. ground (arith, now, h.halted, at);
  ended = λ now. ground (arith, now, h.ended, at);
  quiet = λ ends i. absurd (ground (arith, ends));
}
Step-IsOrderly (stop_returns at r) h =
    absurd (ground (arith, r, h.runs (λ ends. ground (arith, at, ends))))
Step-IsOrderly (stop_cron at r) h = record {
  scheduled = h.scheduled;
  runs = λ n. ground (arith, h.runs, at, r);
  halted = λ now. ground (arith, now, h.halted, at, r);
  ended = λ now. ground (arith, now, h.ended, at, r);
  quiet = λ ends i. absurd (ground (arith, ends));
}
Step-IsOrderly {c} {x} (stop_done at done) h = record {
  scheduled = h.scheduled;
  runs = λ n. ground (arith, h.runs, at);
  halted = λ now. ground (arith, now, h.halted, at);
  ended = λ now. ground (arith, now, h.ended, at);
  quiet = λ ends i. (c.done_iff x.jobs).0 done i;
}
Step-IsOrderly {c} {x} (job_starts i at starts) h = record {
  scheduled = h.scheduled;
  runs = λ n. ground (arith, h.runs, at);
  halted = λ now. ground (arith, now, h.halted, at);
  ended = λ now. ground (arith, now, h.ended, at);
  quiet = λ ends j.
      ground
        (arith, h.quiet ends j, h.halted (inr ends), c.starts_ticking x.scheduler.ticking starts);
}
Step-IsOrderly (job_schedules i at s) h = record {
  scheduled = h.scheduled;
  runs = h.runs;
  halted = h.halted;
  ended = h.ended;
  quiet = λ ends j. ground (arith, at, h.quiet ends j);
}
Step-IsOrderly (job_unscheduled i at s) h = record {
  scheduled = h.scheduled;
  runs = h.runs;
  halted = h.halted;
  ended = h.ended;
  quiet = λ ends j. ground (arith, at, h.quiet ends j);
}
Step-IsOrderly (job_locks i at l) h = record {
  scheduled = h.scheduled;
  runs = h.runs;
  halted = h.halted;
  ended = h.ended;
  quiet = λ ends j. ground (arith, at, h.quiet ends j);
}
Step-IsOrderly (job_updates i next at) h = record {
  scheduled = h.scheduled;
  runs = h.runs;
  halted = h.halted;
  ended = h.ended;
  quiet = λ ends j. ground (arith, at, h.quiet ends j);
}
Step-IsOrderly (first_reads l) h = record {
  scheduled = h.scheduled;
  runs = h.runs;
  halted = h.halted;
  ended = h.ended;
  quiet = h.quiet;
}
Step-IsOrderly (reads n l) h = record {
  scheduled = h.scheduled;
  runs = h.runs;
  halted = h.halted;
  ended = h.ended;
  quiet = h.quiet;
}
Step-IsOrderly (read_ends n l) h = record {
  scheduled = h.scheduled;
  runs = h.runs;
  halted = h.halted;
  ended = h.ended;
  quiet = h.quiet;
}

Reach-IsOrderly : {c : CronJobs} {x y : System} → Reach c x y → IsOrderly x → IsOrderly y
Reach-IsOrderly here h = h
Reach-IsOrderly (later r st) h = Step-IsOrderly st (Reach-IsOrderly r h)

started-IsOrderly : {x : System} → IsStarted x → IsOrderly x
started-IsOrderly h = record {
  scheduled = h.scheduled;
  runs = λ n. h.is_running;
  halted = λ at. absurd (ground (arith, h.at_stop, at));
  ended = λ at. absurd (ground (arith, h.at_stop, at));
  quiet = λ at i. ground (arith, h.at_jobs i);
}

started-IsOwned : {x : System} → IsStarted x → IsOwned x
started-IsOwned h = record {
  by_waiting = λ at. absurd (ground (arith, h.at_stop, at));
  by_updating = λ i at. absurd (ground (arith, h.at_jobs i, at));
}

-- A Stop that returns has waited for every job: whatever order the threads of a started scheduler
-- run in, behind it the scheduler does not run, the cron does not tick, and no job is under way.
pub stopped_quiet :
    (c : CronJobs) (x y : System)
    → IsStarted x
    → Reach c x y
    → y.stop ≡ stopped
    → (y.scheduler.running ≡ false)
      × (y.scheduler.ticking ≡ false)
      × ((i : ℕ) → under_way (y.jobs i) ≡ false)
stopped_quiet c x y fresh r ends =
    let h = Reach-IsOrderly r (started-IsOrderly fresh) in
    (h.ended ends, h.halted (inr ends), h.quiet ends)

under_way_cases :
    (pc : JobPc) → under_way pc ≡ true → (pc ≡ updating) ⊎ ((pc ≡ backing_up) ⊎ (pc ≡ before_lock))
under_way_cases pc h = ground (arith, h)

-- While Stop waits, a job that is under way makes it wait for ever.
job_stays :
    {c : CronJobs} {x y : System} (i : ℕ)
    → IsStarted x
    → Reach c x y
    → y.stop ≡ waiting
    → under_way (y.jobs i) ≡ true
    → IsStuck i y
job_stays {c} {x} {y} i fresh r waits busy =
    let owned = Reach-IsOwned r (started-IsOwned fresh) in
    let held = owned.by_waiting (inr waits) in
    let none_updates : (j : ℕ) → y.jobs j ≢ updating =
      λ j now. ground (arith, owned.by_updating j now, held) in
    record {
      waits = waits;
      held = held;
      scheduled = (Reach-IsOrderly r (started-IsOrderly fresh)).scheduled;
      unlocked = none_updates;
      job = ground (arith, under_way_cases (y.jobs i) busy, none_updates i);
    }

-- Stop can return exactly if no job is under way when it begins to wait: it holds the mutex
-- meanwhile, and a job that is under way wants the mutex before it returns. This holds of a started
-- scheduler, whatever order its threads run in.
pub stop_returns_iff :
    (c : CronJobs) (x y : System)
    → IsStarted x
    → Reach c x y
    → y.stop ≡ waiting
    → ((z : System) × Reach c y z × (z.stop ≡ stopped)) ↔ ((i : ℕ) → under_way (y.jobs i) ≡ false)
stop_returns_iff c x y fresh r waits = (
  λ (z, r', ends) i. elim (Bool-cases (under_way (y.jobs i))) [
    | inr idle ↦ idle
    | inl busy ↦
        absurd (ground (arith, ends, (Reach-IsStuck i r' (job_stays i fresh r waits busy)).waits))
  ],
  λ idle. (_, later here (stop_done waits ((c.done_iff y.jobs).1 idle)), refl),
)
