-- ===== src/Commands/Shutdown.antt =====
-- The end of the daemon of cmd/datasaver/main.go: from the signal to the return, with the threads
-- of the scheduler going on meanwhile.
use datasaver.Base.{ℕ, Bool, true, false, ◌≡◌, ◌≢◌, ◌↔◌, ◌⊎◌, inl, inr, refl, arith}
use datasaver.Scheduler.Threads.{
  System, CronJobs, Step, Reach, here, later, waiting, stopped, stop_done, under_way,
}
use datasaver.Scheduler.Threads.Stopping.{IsStarted, stopped_quiet, stop_returns_iff}

-- Where daemonCmd stands: before the receive from sigCh, in scheduler.Stop, before the Shutdown of
-- each server, and returned.
pub data Phase : Type 0 where
  serving stopping closing_health closing_metrics returned : Phase

-- With the Shutdown calls that were made, and whether the context of the daemon is cancelled.
pub record Daemon : Type 0 where
  pub phase : Phase
  pub threads : System
  pub health_shut : Bool
  pub metrics_shut : Bool
  pub cancelled : Bool

-- A step of the daemon. The threads of the scheduler and callers of it run on in every phase, and
-- Stop runs in its own. A Shutdown ends by its timeout at the latest. The deferred cancel tells
-- alertMonitor to end.
pub data DaemonStep (c : CronJobs) (d : Daemon) : Daemon → Type 0 where
  signalled : d.phase ≡ serving → DaemonStep c d (record d { phase = stopping })
  threads_step :
      {y : System}
      → Step c d.threads y
      → (y.stop ≡ d.threads.stop) ⊎ (d.phase ≡ stopping)
      → DaemonStep c d (record d { threads = y })
  stop_returned :
      d.phase ≡ stopping
      → d.threads.stop ≡ stopped
      → DaemonStep c d (record d { phase = closing_health })
  health_closed :
      d.phase ≡ closing_health
      → DaemonStep c d (record d { phase = closing_metrics; health_shut = true })
  metrics_closed :
      d.phase ≡ closing_metrics
      → DaemonStep c d (record d { phase = returned; metrics_shut = true; cancelled = true })

pub data DaemonReach (c : CronJobs) (d : Daemon) : Daemon → Type 0 where
  unmoved : DaemonReach c d d
  and_then : {e f : Daemon} → DaemonReach c d e → DaemonStep c e f → DaemonReach c d f

-- The threads of the scheduler do in the daemon what they do by themselves.
DaemonReach-Reach : {c : CronJobs} {d e : Daemon} → DaemonReach c d e → Reach c d.threads e.threads
DaemonReach-Reach unmoved = here
DaemonReach-Reach (and_then r (signalled p)) = DaemonReach-Reach r
DaemonReach-Reach (and_then r (threads_step s p)) = later (DaemonReach-Reach r) s
DaemonReach-Reach (and_then r (stop_returned p s)) = DaemonReach-Reach r
DaemonReach-Reach (and_then r (health_closed p)) = DaemonReach-Reach r
DaemonReach-Reach (and_then r (metrics_closed p)) = DaemonReach-Reach r

-- Once all is set up, before a signal.
pub record IsServing (d : Daemon) : Type 0 where
  pub in_serving : d.phase ≡ serving
  pub started : IsStarted d.threads
  pub health_up : d.health_shut ≡ false
  pub metrics_up : d.metrics_shut ≡ false
  pub watching : d.cancelled ≡ false

-- Which servers are shut down in each phase, and that Stop has returned before.
record IsPhased (d : Daemon) : Type 0 where
  stop_over : d.phase ≢ serving → d.phase ≢ stopping → d.threads.stop ≡ stopped
  health_up :
      (d.phase ≡ serving) ⊎ ((d.phase ≡ stopping) ⊎ (d.phase ≡ closing_health))
      → d.health_shut ≡ false
  health_off : (d.phase ≡ closing_metrics) ⊎ (d.phase ≡ returned) → d.health_shut ≡ true
  metrics_off : d.phase ≡ returned → (d.metrics_shut ≡ true) × (d.cancelled ≡ true)

DaemonStep-IsPhased : {c : CronJobs} {d e : Daemon} → DaemonStep c d e → IsPhased d → IsPhased e
DaemonStep-IsPhased (signalled p) h = record {
  stop_over = λ ns nt. absurd (nt refl);
  health_up = λ now. h.health_up (inl p);
  health_off = λ now. absurd (ground (arith, now));
  metrics_off = λ now. absurd (ground (arith, now));
}
DaemonStep-IsPhased (threads_step s p) h = record {
  stop_over = λ ns nt. ground (arith, p, ns, nt, h.stop_over ns nt);
  health_up = h.health_up;
  health_off = h.health_off;
  metrics_off = h.metrics_off;
}
DaemonStep-IsPhased (stop_returned p s) h = record {
  stop_over = λ ns nt. s;
  health_up = λ now. h.health_up (inr (inl p));
  health_off = λ now. absurd (ground (arith, now));
  metrics_off = λ now. absurd (ground (arith, now));
}
DaemonStep-IsPhased (health_closed p) h = record {
  stop_over = λ ns nt. h.stop_over (λ e. ground (arith, p, e)) (λ e. ground (arith, p, e));
  health_up = λ now. absurd (ground (arith, now));
  health_off = λ now. refl;
  metrics_off = λ now. absurd (ground (arith, now));
}
DaemonStep-IsPhased (metrics_closed p) h = record {
  stop_over = λ ns nt. h.stop_over (λ e. ground (arith, p, e)) (λ e. ground (arith, p, e));
  health_up = λ now. absurd (ground (arith, now));
  health_off = λ now. h.health_off (inl p);
  metrics_off = λ now. (refl, refl);
}

DaemonReach-IsPhased : {c : CronJobs} {d e : Daemon} → IsServing d → DaemonReach c d e → IsPhased e
DaemonReach-IsPhased serves unmoved = record {
  stop_over = λ ns nt. absurd (ns serves.in_serving);
  health_up = λ now. serves.health_up;
  health_off = λ now. absurd (ground (arith, now, serves.in_serving));
  metrics_off = λ now. absurd (ground (arith, now, serves.in_serving));
}
DaemonReach-IsPhased serves (and_then r s) = DaemonStep-IsPhased s (DaemonReach-IsPhased serves r)

phase_cases :
    (p : Phase)
    → ((p ≡ serving) ⊎ ((p ≡ stopping) ⊎ (p ≡ closing_health)))
      ⊎ ((p ≡ closing_metrics) ⊎ (p ≡ returned))
phase_cases p = ground arith

DaemonReach-trans :
    {c : CronJobs} {d e f : Daemon} → DaemonReach c d e → DaemonReach c e f → DaemonReach c d f
DaemonReach-trans r unmoved = r
DaemonReach-trans r (and_then r' s) = and_then (DaemonReach-trans r r') s

-- A daemon that serves at first and then returns leaves nothing behind: whatever order its threads
-- run in, no backup job is under way then, the scheduler and its cron have stopped, both servers
-- are shut down and the context of the alert monitor is cancelled. While a job is under way the
-- health server is not shut down.
pub daemon_returned :
    (c : CronJobs) (d e : Daemon)
    → IsServing d
    → DaemonReach c d e
    → (e.phase ≡ returned
        → ((i : ℕ) → under_way (e.threads.jobs i) ≡ false)
          × (e.threads.scheduler.running ≡ false)
          × (e.threads.scheduler.ticking ≡ false)
          × (e.health_shut ≡ true)
          × (e.metrics_shut ≡ true)
          × (e.cancelled ≡ true))
      × ((i : ℕ) → under_way (e.threads.jobs i) ≡ true → e.health_shut ≡ false)
daemon_returned c d e serves r =
    let phased = DaemonReach-IsPhased serves r in
    let quiet = stopped_quiet c d.threads e.threads serves.started (DaemonReach-Reach r) in
    (
      λ now.
          let ends = phased.stop_over (λ e. ground (arith, now, e)) (λ e. ground (arith, now, e)) in
          let (halted, silent, idle) = quiet ends in
          let (closed, unwatched) = phased.metrics_off now in
          (idle, halted, silent, phased.health_off (inr now), closed, unwatched),
      λ i busy. elim (phase_cases e.phase) [
        | inl up ↦ phased.health_up up
        | inr down ↦
            let ends =
              phased.stop_over (λ e. ground (arith, down, e)) (λ e. ground (arith, down, e)) in
            let (halted, silent, idle) = quiet ends in absurd (ground (arith, busy, idle i))
      ],
    )

-- A daemon that serves at first, and whose scheduler.Stop waits, returns in some order of its
-- threads exactly if no backup job is under way then: a SIGTERM during a backup is not obeyed.
pub daemon_returns_iff :
    (c : CronJobs) (d e : Daemon)
    → IsServing d
    → DaemonReach c d e
    → e.phase ≡ stopping
    → e.threads.stop ≡ waiting
    → ((f : Daemon) × DaemonReach c e f × (f.phase ≡ returned))
      ↔ ((i : ℕ) → under_way (e.threads.jobs i) ≡ false)
daemon_returns_iff c d e serves r stops waits =
    let alone = stop_returns_iff c d.threads e.threads serves.started (DaemonReach-Reach r) waits in
    (
      λ (f, r', now).
          let phased = DaemonReach-IsPhased serves (DaemonReach-trans r r') in
          let ends = phased.stop_over (λ e. ground (arith, now, e)) (λ e. ground (arith, now, e)) in
          alone.0 (f.threads, DaemonReach-Reach r', ends),
      λ idle.
          let quits = stop_done waits ((c.done_iff e.threads.jobs).1 idle) in
          (
            _,
            and_then
                (and_then
                  (and_then (and_then unmoved (threads_step quits (inr stops)))
                    (stop_returned stops refl))
                  (health_closed refl))
                (metrics_closed refl),
            refl,
          ),
    )
