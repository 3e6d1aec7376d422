-- ===== src/Tests/Queueing.antt =====
-- queue/ with one worker and room for one job.
use platforma.Base.{ℕ, ◌≤◌, ◌+◌, ◌*◌, ◌⊎◌, ◌≡◌, refl, true, List, [], ◌∷◌, ◌++◌, none, some}
use platforma.Queue.ChanQueue.{
  ChanQueue, returned, panicked, send, new_chan_queue, open_queue, close_queue, enqueue_job,
  get_job_chan,
}
use platforma.Queue.ChanQueue.Laws.{contents, close_then_panics}
use platforma.Queue.Processor.{
  System, Choice, enqueue, cancel, check, receive, handled, expire, shut_down, start, step, run,
  all_finished, put_worker, worker_at, check_phase, receive_phase, notice_phase, handled_phase,
  take_job, finished,
}
use mathlib.Core.List.{Perm}
use platforma.Queue.Processor.Closed.{run_closed-contents}
use platforma.Queue.Processor.Progress.{CanMove, run_terminates}
use platforma.Queue.Processor.Refinement.{JobsReach, view, run-JobsReach}
use platforma.Queue.Processor.Invariant.{Inv}
use platforma.Queue.Processor.Schedule.{run-Inv}

abbrev one_job : ChanQueue ℕ
one_job = open_queue (new_chan_queue 1)

close_then_panics_example :
    (q' : ChanQueue ℕ) × (close_queue one_job ≡ returned none q')
    × (contents q' ≡ contents one_job)
    × (q'.opened ≡ true)
    × ((job : ℕ) → enqueue_job send q' job ≡ panicked)
    × (close_queue q' ≡ panicked)
unfolding open_queue new_chan_queue
close_then_panics_example = close_then_panics one_job refl refl

-- The worker takes the job, the context ends, and the worker times out.
abbrev shutdown_run : List (Choice ℕ)
shutdown_run =
    check 0
    ∷ check 0
    ∷ enqueue send 7
    ∷ receive 0
    ∷ cancel
    ∷ handled 0
    ∷ check 0
    ∷ expire 0
    ∷ check 0
    ∷ []

abbrev stopped : System ℕ
stopped = record (start (new_chan_queue 1) 0) {
  queue = one_job;
  workers = record { phase = finished; expired = true } ∷ [];
  cancelled = true;
  accepted = 7 ∷ [];
  received = 7 ∷ [];
  done = 7 ∷ [];
}

shutdown_run_stops : run 0 shutdown_run (start (new_chan_queue 1) 1) ≡ some stopped
unfolding run step start open_queue new_chan_queue enqueue_job put_worker worker_at check_phase
    receive_phase notice_phase handled_phase take_job get_job_chan
shutdown_run_stops = refl

abbrev after_shut_down : System ℕ
after_shut_down = record stopped {
  queue = record one_job { channel = some (record { items = []; capacity = 1; closed = true }) };
  closed = true;
}

shuts_down : run 0 (shut_down ∷ []) stopped ≡ some after_shut_down
unfolding run step open_queue new_chan_queue close_queue all_finished start
shuts_down = refl

run-Inv_example : Inv stopped
unfolding new_chan_queue
run-Inv_example = run-Inv 0 shutdown_run (new_chan_queue 1) 1 stopped refl shutdown_run_stops

-- Run closes the queue, and nothing can move any more.
run_terminates_example :
    (1 ≤ 5 * 1 + 3 * 1 + 1) × (((after_shut_down).closed ≡ true) ⊎ CanMove 0 after_shut_down)
unfolding new_chan_queue
run_terminates_example =
    run_terminates 0 shutdown_run (shut_down ∷ []) (new_chan_queue 1) 1 stopped after_shut_down refl
      shutdown_run_stops refl (tt, tt) shuts_down

run-JobsReach_example :
    JobsReach (record { waiting = []; working = []; finished = [] }) (view stopped)
unfolding new_chan_queue
run-JobsReach_example =
    run-JobsReach 0 shutdown_run (new_chan_queue 1) 1 stopped refl shutdown_run_stops

-- One job is handled, and one is left when the worker's time runs out.
abbrev late_run : List (Choice ℕ)
late_run =
    check 0
    ∷ check 0
    ∷ enqueue send 7
    ∷ receive 0
    ∷ enqueue send 8
    ∷ cancel
    ∷ handled 0
    ∷ check 0
    ∷ expire 0
    ∷ check 0
    ∷ shut_down
    ∷ []

abbrev after_late_run : System ℕ
after_late_run = record after_shut_down {
  queue = record one_job {
    channel = some (record { items = 8 ∷ []; capacity = 1; closed = true });
  };
  accepted = 7 ∷ 8 ∷ [];
}

late_run_ends : run 0 late_run (start (new_chan_queue 1) 1) ≡ some after_late_run
unfolding run step start open_queue new_chan_queue enqueue_job put_worker worker_at check_phase
    receive_phase notice_phase handled_phase take_job get_job_chan close_queue all_finished
late_run_ends = refl

run_closed-contents_example :
    (handed_out : List ℕ) × Perm handed_out (7 ∷ [])
    × (7 ∷ 8 ∷ [] ≡ handed_out ++ contents after_late_run.queue)
unfolding new_chan_queue start
run_closed-contents_example =
    run_closed-contents 0 late_run (new_chan_queue 1) 1 after_late_run refl late_run_ends refl
