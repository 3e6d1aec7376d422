-- ===== src/Demo/WideEvents.antt =====
-- demo-app/cmd/wide-events/main.go: one event that is written to the log.
use platforma.Base.{ℕ, Bool, [], ◌∷◌, Option, some}
use platforma.Log.{
  int, other, new_event, add_step, add_error, add_attrs, DefaultSampler, should_sample, level_info,
}
use platforma.Log.Logger.{
  Entry, WideEventLogger, new_wide_event_logger, logger_write_event, background,
}

-- Times are in nanoseconds.
abbrev pub sampler : DefaultSampler
sampler = record { slow_threshold = 3000000000; keep_http_status_at_least = 200 }

-- `kept` is the random draw with the rate 0.1.
abbrev pub logger : Bool → WideEventLogger
logger kept = new_wide_event_logger (some (λ ctx e. should_sample sampler kept e)) []

-- The clock at the calls of NewEvent, AddStep, AddError and WriteEvent.
unfoldable pub main : Bool → (begin step_at error_at now : ℕ) → Option Entry
unfolding new_wide_event_logger should_sample new_event add_step add_error add_attrs
    logger_write_event
main kept begin step_at error_at now = logger_write_event (logger kept) background now (
    add_attrs (("attr1", int 1) ∷ ("attr2", other "true") ∷ []) (
      add_error (some "some error") error_at
        (add_step level_info "some step" step_at (new_event "test_event" begin))))
