-- ===== src/Scheduler.antt =====
-- scheduler/scheduler.go. The cron library is a parameter: its parser, what AddFunc answers, and the
-- times at which it calls the function; each call is made in a goroutine of its own.
pub mod Ticks
pub mod Returns
use platforma.Base.{
  ℕ, zero, suc, String, Bool, true, false, List, [], ◌∷◌, ◌++◌, Option, none, some, str_eq,
  if◌then◌else◌,
}
use platforma.Base.Errors.{Error, sentinel, wrapped, Result, ok, err}
use platforma.Base.Action.{Command}
use platforma.Log.{Level, level_info, level_error, string}
use platforma.Log.Logger.{Context, package_key}
use platforma.Log.Tracing.{with_value}

pub record Scheduler (W : Type 0) : Type 0 where
  pub cron_expr : String
  pub runner : Context → Command W

-- A line of the log, written with a context.
pub record Line : Type 0 where
  pub level : Level
  pub context : Context
  pub message : String
  pub error : Option Error

pub data Phase : Type 0 where
  ticking : Phase
  stopping returned : Error → Phase

-- Run while it waits; `running` are the contexts of the calls that have not ended.
pub record Ticking (W : Type 0) : Type 0 where
  pub world : W
  pub running : List Context
  pub lines : List Line
  pub phase : Phase

-- The library calls the function, and uuid gives the call an ID; the call at a place of `running`
-- ends; Run sees that its context is done, and Stop keeps the library from further calls; the
-- context that Stop returned is done.
pub data Event : Type 0 where
  fires : String → Event
  completes : ℕ → Event
  cancelled : Error → Event
  stopped : Event

abbrev pub started_line : Context → Line
started_line ctx = record {
  level = level_info;
  context = ctx;
  message = "scheduler task started";
  error = none;
}

abbrev pub end_line : Context → Result (Unit {0}) → Line
end_line ctx (ok _) = record {
  level = level_info;
  context = ctx;
  message = "scheduler task finished";
  error = none;
}
end_line ctx (err e) = record {
  level = level_error;
  context = ctx;
  message = "error in scheduler";
  error = some e;
}

unfoldable pub remove_at : ℕ → List Context → Option (Context × List Context)
remove_at i [] = none
remove_at zero (c ∷ cs) = some (c, cs)
remove_at (suc i) (c ∷ cs) = elim (remove_at i cs) [
  | none ↦ none
  | some (d, rest) ↦ some (d, c ∷ rest)
]

-- The context of a call: context.WithValue(ctx, log.TraceIDKey, uuid.NewString()).
abbrev pub call_context : Context → String → Context
unfolding with_value
call_context ctx id = with_value (package_key "traceId") (string id) ctx

module _ {W : Type 0} where
  abbrev checked : {S : Type 0} → String → (Context → Command W) → Result S → Result (Scheduler W)
  checked expr runner (ok _) = ok (record { cron_expr = expr; runner = runner })
  checked expr runner (err e) = err (wrapped "invalid cron expression" e)

  unfoldable pub new_scheduler :
      {S : Type 0} → (String → Result S) → String → (Context → Command W) → Result (Scheduler W)
  new_scheduler parse expr runner =
      if str_eq expr ""
      then err (wrapped "invalid cron expression" (sentinel "scheduler.errEmptyCronExpression"))
      else checked expr runner (parse expr)

  abbrev pub start : W → Ticking W
  start w = record { world = w; running = []; lines = []; phase = ticking }

  abbrev added : W → Result (Unit {0}) → Result (Ticking W)
  added w (ok _) = ok (start w)
  added w (err e) = err (wrapped "failed to add cron task" e)

  -- Run up to <-ctx.Done().
  unfoldable pub start_scheduler :
      (String → Result (Unit {0})) → Scheduler W → W → Result (Ticking W)
  start_scheduler add_func s w = added w (add_func s.cron_expr)

  abbrev pub begin_call : Context → String → Phase → Ticking W → Option (Ticking W)
  begin_call ctx id ticking t = some (record t {
    running = t.running ++ call_context ctx id ∷ [];
    lines = t.lines ++ started_line (call_context ctx id) ∷ [];
  })
  begin_call ctx id _ t = none

  abbrev pub end_call :
      Scheduler W → Option (Context × List Context) → Ticking W → Option (Ticking W)
  end_call s none t = none
  end_call s (some (c, rest)) t = some (record t {
    world = (s.runner c t.world).1;
    running = rest;
    lines = t.lines ++ end_line c (s.runner c t.world).0 ∷ [];
  })

  abbrev pub cancel : Error → Phase → Ticking W → Option (Ticking W)
  cancel cause ticking t = some (record t { phase = stopping cause })
  cancel cause _ t = none

  -- Stop's context is done once no call runs.
  abbrev pub finish : Phase → List Context → Ticking W → Option (Ticking W)
  finish (stopping cause) [] t =
      some (record t { phase = returned (wrapped "scheduler context canceled" cause) })
  finish _ _ t = none

  unfoldable pub tick : Scheduler W → Context → Event → Ticking W → Option (Ticking W)
  unfolding remove_at
  tick s ctx (fires id) t = begin_call ctx id t.phase t
  tick s ctx (completes i) t = end_call s (remove_at i t.running) t
  tick s ctx (cancelled cause) t = cancel cause t.phase t
  tick s ctx stopped t = finish t.phase t.running t

  abbrev then_ticks : Option (Ticking W) → (Ticking W → Option (Ticking W)) → Option (Ticking W)
  then_ticks none next = none
  then_ticks (some t) next = next t

  unfoldable pub run_ticks : Scheduler W → Context → List Event → Ticking W → Option (Ticking W)
  unfolding tick
  run_ticks s ctx [] t = some t
  run_ticks s ctx (e ∷ es) t = then_ticks (tick s ctx e t) (run_ticks s ctx es)
