-- ===== src/Demo/Schedules.antt =====
-- demo-app/cmd/scheduler/main.go and demo-app/cmd/scheduler-cron/main.go: programs that make
-- schedulers of tasks that write a line to the log.
use platforma.Base.{String, List, [], ◌∷◌, ◌++◌}
use platforma.Base.Errors.{Result, ok, ◌>>=◌}
use platforma.Base.Action.{Command}
use platforma.Log.Logger.{Context}
use platforma.Scheduler.{Scheduler, new_scheduler}

-- The lines of the log, with the contexts that they were written with.
abbrev pub Lines : Type 0
Lines = List (Context × String)

-- log.InfoContext(ctx, message); return nil.
abbrev pub logs : String → Context → Command Lines
logs message ctx lines = (ok tt, lines ++ (ctx, message) ∷ [])

-- The functions that are run.
abbrev pub scheduled_task : Context → Command Lines
scheduled_task = logs "scheduled task executed"

abbrev pub daily_backup : Context → Command Lines
daily_backup = logs "executing daily backup task"

abbrev pub weekday_report : Context → Command Lines
weekday_report = logs "generating weekday report"

abbrev pub frequent_health_check : Context → Command Lines
frequent_health_check = logs "performing health check"

module _ {S : Type 0} (parse : String → Result S) where
  unfoldable pub new_task : Result (Scheduler Lines)
  unfolding new_scheduler
  new_task = new_scheduler parse "@every 1s" scheduled_task

  -- The five schedulers, or the first error, with which main returns.
  unfoldable pub new_schedulers : Result (List (Scheduler Lines))
  unfolding new_scheduler
  new_schedulers = do
    s1 ← new_scheduler parse "@every 5s" (logs "@every syntax: every 5 seconds")
    s2 ← new_scheduler parse "@every 3s" (logs "@every syntax: every 3 seconds")
    s3 ← new_scheduler parse "@daily" daily_backup
    s4 ← new_scheduler parse "0 9 * * MON-FRI" weekday_report
    s5 ← new_scheduler parse "@hourly" frequent_health_check
    ok (s1 ∷ s2 ∷ s3 ∷ s4 ∷ s5 ∷ [])
