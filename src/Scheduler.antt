-- ===== src/Scheduler.antt =====
-- internal/backup/scheduler.go: the scheduler as a state machine over the cron library.
pub mod Life
pub mod Daily
pub mod Threads
use datasaver.Base.{
  ℕ, Bool, true, false, Str, bytes, List, [], ◌∷◌, ◌++◌, Option, none, some, if◌then◌else◌, Result,
  ok, err,
}
use datasaver.Clock.{Time, zero_time}

-- What the scheduler relies on of robfig/cron: AddFunc refuses some schedules, and an entry has a
-- next time after the current one.
pub record Cron : Type 0 where
  pub parse : Str → Option Str
  pub next : Str → Time → Time

-- The fields of a Scheduler, the entries of its cron and whether the cron runs.
pub record Scheduler : Type 0 where
  pub schedule : Str
  pub running : Bool
  pub next_run : Time
  pub entries : List Str
  pub ticking : Bool

unfoldable pub new_scheduler : Str → Scheduler
new_scheduler schedule = record {
  schedule = schedule;
  running = false;
  next_run = zero_time;
  entries = [];
  ticking = false;
}

module _ (c : Cron) where
  -- Start: the error of AddFunc, or none.
  unfoldable pub start : Time → Scheduler → Option Str × Scheduler
  start now s =
      let schedule = bytes "0 " ++ s.schedule in
      if s.running then (none, s) else elim (c.parse schedule) [
        | some e ↦ (some e, record s { running = true })
        | none ↦ (
          none,
          record s {
            running = true;
            entries = s.entries ++ schedule ∷ [];
            ticking = true;
            next_run = c.next schedule now;
          },
        )
      ]

  unfoldable pub stop : Scheduler → Scheduler
  stop s = if s.running then record s { ticking = false; running = false } else s

  -- GetNextRun over the entries of the cron: the first one's, if there is one.
  unfoldable pub first_next : Time → List Str → Time → Time
  first_next now [] old = old
  first_next now (e ∷ es) old = c.next e now

  -- The end of runBackup: the next time of the first entry.
  unfoldable pub after_backup : Time → Scheduler → Scheduler
  unfolding first_next
  after_backup now s = record s { next_run = first_next now s.entries s.next_run }
