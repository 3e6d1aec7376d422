-- ===== src/Tests/Running.antt =====
-- What can happen next while queue/ and the services of application/ run.
use platforma.Base.{
  ◌≢◌, ◌↔◌, arith, ℕ, ◌⊎◌, ◌≡◌, refl, true, false, List, [], ◌∷◌, ◌++◌, none, some,
}
use platforma.Base.Dict.{lookup, insert}
use platforma.Base.Errors.{foreign}
use platforma.Queue.ChanQueue.{send, new_chan_queue, open_queue, enqueue_job, get_job_chan}
use platforma.Queue.ChanQueue.Laws.{contents}
use platforma.Queue.Processor.{
  System, Choice, enqueue, check, receive, start, step, run, put_worker, worker_at, check_phase,
  receive_phase, take_job, handling,
}
use platforma.Queue.Processor.Room.{run_room}
use platforma.Application.{
  fresh, Application, Services, Event, begins, returns, panics, running, returned, panicked,
  all_started, all_done, in_wait, over, wait_done, spawn_services, register_service, service_step,
  serve, start_service, fail_service, start_application,
}
use platforma.Tests.Starting.{app}
use platforma.Application.Ending.{unended, all_ended, serve_waits}

-- The worker of a queue with room for one job has taken the first job.
abbrev one_taken : List (Choice ℕ)
one_taken = check 0 ∷ check 0 ∷ enqueue send 7 ∷ receive 0 ∷ []

abbrev busy : System ℕ
busy = record (start (new_chan_queue 1) 0) {
  queue = open_queue (new_chan_queue 1);
  workers = record { phase = handling 7; expired = false } ∷ [];
  accepted = 7 ∷ [];
  received = 7 ∷ [];
}

one_taken_runs : run 0 one_taken (start (new_chan_queue 1) 1) ≡ some busy
unfolding run step start open_queue new_chan_queue enqueue_job put_worker worker_at check_phase
    receive_phase take_job get_job_chan
one_taken_runs = refl

run_room_example :
    (s' : System ℕ) × (step 0 (enqueue send 8) busy ≡ some s')
    × (s'.accepted ≡ 7 ∷ 8 ∷ [])
    × (contents s'.queue ≡ contents busy.queue ++ 8 ∷ [])
unfolding new_chan_queue start
run_room_example =
    run_room 0 8 one_taken (new_chan_queue 1) 1 busy refl one_taken_runs refl (ground arith)

abbrev two_services : Application ℕ
two_services = record app {
  services = ("clock", tt) ∷ ("api", tt) ∷ [];
  health = record { started_at = none; services = ("clock", fresh) ∷ ("api", fresh) ∷ [] };
}

both_register :
    register_service
      (record two_services {
        services = ("clock", tt) ∷ [];
        health = record { started_at = none; services = ("clock", fresh) ∷ [] };
      })
      "api"
      tt
      none
    ≡ two_services
unfolding register_service insert
both_register = refl

-- One service fails and the other one panics, while `run` waits.
abbrev both_end : List Event
both_end =
    begins "clock" 1
    ∷ begins "api" 2
    ∷ all_started 3
    ∷ returns "clock" (some (foreign "context error")) 4
    ∷ panics "api"
    ∷ all_done
    ∷ []

abbrev finished : Services
finished = record {
  stages = ("clock", returned (some (foreign "context error"))) ∷ ("api", panicked) ∷ [];
  health =
      fail_service "clock" (foreign "context error") 4
        (start_application 3 (start_service "api" 2 (start_service "clock" 1 two_services.health)));
  wait_count = 0;
  phase = over;
}

both_end_ends : serve both_end (spawn_services two_services) ≡ some finished
unfolding serve spawn_services service_step start_service fail_service start_application lookup
    insert
both_end_ends = refl

serve_waits_example :
    (0 ≡ unended finished.stages)
    × ((lookup "api" finished.stages ≢ some running) ⊎ ((n : ℕ) × (wait_done 0 ≡ some n)))
    × ((service_step all_done finished ≡ some finished)
        ↔ ((over ≡ in_wait) × (all_ended finished.stages ≡ true)))
    × ((over ≢ over) ⊎ (all_ended finished.stages ≡ true))
serve_waits_example = serve_waits two_services both_end finished "api" both_end_ends
