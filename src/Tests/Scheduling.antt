-- ===== src/Tests/Scheduling.antt =====
-- scheduler/ with a parser that takes every text, and a runner that fails each time.
use platforma.Base.{ℕ, suc, ◌≡◌, refl, String, List, [], ◌∷◌, some}
use platforma.Base.Errors.{Error, foreign, sentinel, wrapped, Result, ok, err}
use platforma.Base.Action.{Command}
use platforma.Log.Logger.{Context, background}
use platforma.Scheduler.{
  Scheduler, Ticking, Event, fires, completes, cancelled, stopped, returned, started_line, end_line,
  call_context, new_scheduler, start, start_scheduler, tick, run_ticks, remove_at,
}
use platforma.Scheduler.Ticks.{starts_logged, ends_logged, calls_of}
use platforma.Scheduler.Returns.{start_scheduler-run_ticks, run_ticks-winding_down, winding_down}

-- The world counts the calls.
abbrev failing : Context → Command ℕ
failing ctx w = (err (foreign "unreachable"), suc w)

abbrev hourly : Scheduler ℕ
hourly = record { cron_expr = "@hourly"; runner = failing }

abbrev parse_any : String → Result (Unit {0})
parse_any spec = ok tt

empty_expression :
    new_scheduler parse_any "" failing
    ≡ err (wrapped "invalid cron expression" (sentinel "scheduler.errEmptyCronExpression"))
unfolding new_scheduler
empty_expression = refl

-- Two calls overlap; the second one ends after the context is cancelled.
abbrev two_calls : List Event
two_calls =
    fires "a"
    ∷ fires "b"
    ∷ completes 0
    ∷ cancelled (foreign "context canceled")
    ∷ completes 0
    ∷ stopped
    ∷ []

abbrev over : Ticking ℕ
over = record {
  world = 2;
  running = [];
  lines =
      started_line (call_context background "a")
      ∷ started_line (call_context background "b")
      ∷ end_line (call_context background "a") (err (foreign "unreachable"))
      ∷ end_line (call_context background "b") (err (foreign "unreachable"))
      ∷ [];
  phase = returned (wrapped "scheduler context canceled" (foreign "context canceled"));
}

two_calls_end : run_ticks hourly background two_calls (start 0) ≡ some over
unfolding run_ticks tick remove_at
two_calls_end = refl

start_scheduler-run_ticks_example :
    (start_scheduler parse_any hourly 0 ≡ ok (start 0))
    × ((cause : Error) × (wrapped "scheduler context canceled" (foreign "context canceled")
          ≡ wrapped "scheduler context canceled" cause))
    × (starts_logged "a" over.lines ≡ calls_of "a" two_calls)
    × (ends_logged "a" over.lines ≡ calls_of "a" two_calls)
start_scheduler-run_ticks_example =
    start_scheduler-run_ticks parse_any parse_any "@hourly" failing hourly background 0 two_calls
      over (wrapped "scheduler context canceled" (foreign "context canceled")) "a"
      (λ spec schedule h. refl) (unfold new_scheduler in refl) two_calls_end refl

abbrev busy : Ticking ℕ
busy = record (start 0) { running = background ∷ background ∷ [] }

run_ticks-winding_down_example :
    (t' : Ticking ℕ) × (run_ticks hourly background
        (cancelled (foreign "context canceled") ∷ winding_down 2)
        busy
      ≡ some t')
    × (t'.phase ≡ returned (wrapped "scheduler context canceled" (foreign "context canceled")))
run_ticks-winding_down_example =
    run_ticks-winding_down hourly background (foreign "context canceled") busy refl
