-- ===== src/Scheduler/Life.antt =====
-- The life of a scheduler: calls of Start, Stop and the end of a backup, in any order.
use datasaver.Base.{
  ◌≤◌, true, Str, bytes, [], ◌∷◌, ◌++◌, none, some, ◌≡◌, arith, length, length-append,
}
use datasaver.Clock.{Time}
use datasaver.Scheduler.{Cron, Scheduler, new_scheduler, start, stop, after_backup}

pub data Step (c : Cron) : Scheduler → Scheduler → Type 0 where
  starts : (now : Time) (s : Scheduler) → Step c s (start c now s).1
  stops : (s : Scheduler) → Step c s (stop c s)
  backs_up : (now : Time) (s : Scheduler) → Step c s (after_backup c now s)

pub data Reach (c : Cron) (s : Scheduler) : Scheduler → Type 0 where
  here : Reach c s s
  later : {t u : Scheduler} → Reach c s t → Step c t u → Reach c s u

-- The cron ticks only while the scheduler counts as running, and then it has an entry.
pub record IsSound (s : Scheduler) : Type 0 where
  pub ticks_running : s.ticking ≡ true → s.running ≡ true
  pub has_entry : s.ticking ≡ true → 1 ≤ length s.entries

Step-IsSound : {c : Cron} {s t : Scheduler} → Step c s t → IsSound s → IsSound t
unfolding start stop after_backup
Step-IsSound {c} (starts now s) h = record {
  ticks_running = λ ticks. ground (arith, h.ticks_running);
  has_entry = λ ticks.
      ground (arith, h.has_entry, length-append s.entries ((bytes "0 " ++ s.schedule) ∷ []));
}
Step-IsSound (stops s) h = record {
  ticks_running = λ ticks. ground (arith, h.ticks_running);
  has_entry = λ ticks. ground (arith, h.has_entry);
}
Step-IsSound (backs_up now s) h = record {
  ticks_running = λ ticks. h.ticks_running ticks;
  has_entry = λ ticks. h.has_entry ticks;
}

Reach-IsSound : {c : Cron} {s t : Scheduler} → Reach c s t → IsSound s → IsSound t
Reach-IsSound here h = h
Reach-IsSound (later r st) h = Step-IsSound st (Reach-IsSound r h)

-- However Start, Stop and ends of backups follow each other on a new scheduler, the cron ticks only
-- while the scheduler counts as running, and then it has an entry.
pub new_scheduler-Reach-IsSound :
    (c : Cron) (schedule : Str) (s : Scheduler) → Reach c (new_scheduler schedule) s → IsSound s
unfolding new_scheduler
new_scheduler-Reach-IsSound c schedule s r = Reach-IsSound r (record {
  ticks_running = λ ticks. absurd (ground arith);
  has_entry = λ ticks. absurd (ground arith);
})

-- Where the cron library refuses the schedule, the first Start of a new scheduler gives its error,
-- the second one gives none, and still nothing is scheduled.
pub start_refused :
    (c : Cron) (schedule e : Str) (now later_on : Time)
    → c.parse (bytes "0 " ++ schedule) ≡ some e
    → ((start c now (new_scheduler schedule)).0 ≡ some e)
      × ((start c later_on (start c now (new_scheduler schedule)).1).0 ≡ none)
      × ((start c later_on (start c now (new_scheduler schedule)).1).1.entries ≡ [])
unfolding start new_scheduler
start_refused c schedule e now later_on refused =
    (ground (arith, refused), ground (arith, refused), ground (arith, refused))

-- Where the cron library takes the schedule, a Start after a Stop of a started scheduler adds the
-- job once more: it then stands in the cron twice.
pub start-stop-start :
    (c : Cron) (schedule : Str) (now later_on : Time)
    → c.parse (bytes "0 " ++ schedule) ≡ none
    → (start c later_on (stop c (start c now (new_scheduler schedule)).1)).1.entries
      ≡ (bytes "0 " ++ schedule) ∷ (bytes "0 " ++ schedule) ∷ []
unfolding start stop new_scheduler
start-stop-start c schedule now later_on taken = ground (arith, taken)
