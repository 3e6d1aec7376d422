-- ===== src/Demo/Clock.antt =====
-- demo-app/cmd/clock/main.go: a service that writes a line to the log each second.
use platforma.Base.{String, List, [], ◌∷◌, ◌++◌, Option, none, some}
use platforma.Base.Errors.{Error, wrapped}
use platforma.Application.{Application, register_service}
use platforma.Application.Registry.{new_application}

-- The case that the select statement takes.
pub data Wake : Type 0 where
  ticks : Wake
  done : Error → Wake  -- ctx.Err()

-- The lines of the log, and the error once Run has returned.
unfoldable pub run : List Wake → List String → List String × Option Error
run [] lines = (lines, none)
run (ticks ∷ wakes) lines = run wakes (lines ++ "tick" ∷ [])
run (done cause ∷ wakes) lines = (lines ++ "finished" ∷ [], some (wrapped "context error" cause))

-- The application; the clock has no Healthcheck.
unfoldable pub new_app : {W : Type 0} (Runner : Type 0) → Runner → Application W
unfolding register_service new_application
new_app Runner clock = register_service (new_application Runner) "clock" clock none
