-- ===== src/Application.antt =====
-- application/: startup tasks, services and their health, and the commands. A service runs in its
-- own goroutine: what the goroutines do to the shared health record is a step on `Services`.
pub mod Startup
pub mod Coherence
pub mod Registry
pub mod Ending
use platforma.Base.{
  ℕ, zero, suc, length, String, Bool, true, false, List, [], ◌∷◌, ◌++◌, map, Option, none, some,
  str_eq, if◌then◌else◌,
}
use platforma.Base.Dict.{lookup, insert}
use platforma.Base.Errors.{Error, sentinel, wrapped, Result, ok, err}
use platforma.Base.Action.{Action, Command}

pub data ServiceStatus : Type 0 where
  not_started started failed : ServiceStatus

-- The error is kept as a value, not as its text.
pub record ServiceHealth : Type 0 where
  pub status : ServiceStatus
  pub started_at : Option ℕ
  pub stopped_at : Option ℕ
  pub error : Option Error
  pub payload : Option String

pub record Health : Type 0 where
  pub started_at : Option ℕ
  pub services : List (String × ServiceHealth)

unfoldable pub new_health : Health
new_health = record { started_at = none; services = [] }

-- `if service, ok := h.Services[name]; ok { ...; h.Services[name] = service }`.
pub update_found : String → (ServiceHealth → ServiceHealth) → Option ServiceHealth → Health → Health
update_found name change none h = h
update_found name change (some s) h = record h { services = insert name (change s) h.services }

unfoldable pub start_service : String → ℕ → Health → Health
unfolding update_found lookup
start_service name now h =
    update_found name (λ s. record s { status = started; started_at = some now })
      (lookup name h.services) h

unfoldable pub fail_service : String → Error → ℕ → Health → Health
unfolding update_found lookup
fail_service name e now h =
    update_found name (λ s. record s { status = failed; stopped_at = some now; error = some e })
      (lookup name h.services) h

unfoldable pub set_service_data : String → String → Health → Health
unfolding update_found lookup
set_service_data name data_text h =
    update_found name (λ s. record s { payload = some data_text }) (lookup name h.services) h

unfoldable pub start_application : ℕ → Health → Health
start_application now h = record h { started_at = some now }

pub record StartupTask (W : Type 0) : Type 0 where
  pub runner : Command W
  pub name : String
  pub abort_on_error : Bool

-- Healthcheck is code of the service, which may change the world.
abbrev pub Healthchecker : Type 0 → Type 0
Healthchecker W = W → String × W

-- A service's healthchecker is nil unless it implements Healthchecker.
pub record Application (W : Type 0) : Type 1 where
  pub Runner : Type 0
  pub startup_tasks : List (StartupTask W)
  pub services : List (String × Runner)
  pub healthcheckers : List (String × Healthchecker W)
  pub databases : List (String × ℕ)  -- the addresses of the *Database values
  pub health : Health

abbrev pub fresh : ServiceHealth
fresh = record {
  status = not_started;
  started_at = none;
  stopped_at = none;
  error = none;
  payload = none;
}

-- Where the goroutine of a service is.
pub data Stage : Type 0 where
  waiting running : Stage
  returned : Option Error → Stage
  panicked : Stage

-- Where `run` itself is: it has started the goroutines, it is in wg.Wait, it has returned.
pub data RunPhase : Type 0 where
  launched in_wait over : RunPhase

-- The goroutines of `run`, by service name, the record that they share, the counter of their
-- WaitGroup, and `run`.
pub record Services : Type 0 where
  pub stages : List (String × Stage)
  pub health : Health
  pub wait_count : ℕ
  pub phase : RunPhase

pub data Event : Type 0 where
  begins : String → ℕ → Event
  returns : String → Option Error → ℕ → Event
  panics : String → Event
  reports : String → String → Event  -- Application.Health, for one healthchecker
  all_started : ℕ → Event  -- a.health.StartedAt = time.Now()
  all_done : Event  -- wg.Wait returns, and `run` with it

infixl 5 ◌>>=◌
abbrev ◌>>=◌ {ℓ κ} : {A : Type ℓ} {B : Type κ} → Option A → (A → Option B) → Option B
none >>= f = none
some a >>= f = f a

abbrev is_waiting : Stage → Option (Unit {0})
is_waiting waiting = some tt
is_waiting _ = none

abbrev is_running : Stage → Option (Unit {0})
is_running running = some tt
is_running _ = none

-- wg.Done panics when the counter is zero, which ends the program.
abbrev pub wait_done : ℕ → Option ℕ
wait_done zero = none
wait_done (suc n) = some n

abbrev pub is_launched : RunPhase → Option (Unit {0})
is_launched launched = some tt
is_launched _ = none

-- `run` gets out of wg.Wait once the counter is zero.
abbrev pub wait_over : RunPhase → ℕ → Option RunPhase
wait_over in_wait zero = some over
wait_over _ _ = none

abbrev report_failure : String → Option Error → ℕ → Health → Health
report_failure name none now h = h
report_failure name (some e) now h = fail_service name e now h

-- A goroutine's deferred calls run when its service returns and when it panics: the panic is
-- recovered, and wg.Done is called.
unfoldable pub service_step : Event → Services → Option Services
service_step (begins name now) s = do
  stage ← lookup name s.stages
  _ ← is_waiting stage
  some
      (record s { stages = insert name running s.stages; health = start_service name now s.health })
service_step (returns name e now) s = do
  stage ← lookup name s.stages
  _ ← is_running stage
  n ← wait_done s.wait_count
  some (record s {
    stages = insert name (returned e) s.stages;
    health = report_failure name e now s.health;
    wait_count = n;
  })
service_step (panics name) s = do
  stage ← lookup name s.stages
  _ ← is_running stage
  n ← wait_done s.wait_count
  some (record s { stages = insert name panicked s.stages; wait_count = n })
service_step (reports name text) s =
    some (record s { health = set_service_data name text s.health })
service_step (all_started now) s = do
  _ ← is_launched s.phase
  some (record s { health = start_application now s.health; phase = in_wait })
service_step all_done s = do p ← wait_over s.phase s.wait_count; some (record s { phase = p })

unfoldable pub serve : List Event → Services → Option Services
serve [] s = some s
serve (e ∷ es) s = service_step e s >>= serve es

module _ {W : Type 0} where
  unfoldable pub run_tasks : List (StartupTask W) → Command W
  run_tasks [] w = (ok tt, w)
  run_tasks (task ∷ tasks) w =
      let (r, w') = task.runner w in
      elim r [
        | ok _ ↦ run_tasks tasks w'
        | err e ↦ elim task.abort_on_error [
          | true ↦ (err (wrapped "failed to run startup task" e), w')
          | false ↦ run_tasks tasks w'
        ]
      ]

  -- `migrate_at` is Database.Migrate of the database at an address; the entries stand in the order in
  -- which the range statement meets them.
  unfoldable pub migrate_databases : (ℕ → W → Option Error × W) → List (String × ℕ) → Command W
  migrate_databases migrate_at [] w = (ok tt, w)
  migrate_databases migrate_at ((name, address) ∷ databases) w =
      let (e, w') = migrate_at address w in
      elim e [
        | some x ↦ (err (wrapped "failed to migrate database" x), w')
        | none ↦ migrate_databases migrate_at databases w'
      ]

  unfoldable pub on_start : StartupTask W → Application W → Application W
  on_start task app = record app { startup_tasks = app.startup_tasks ++ task ∷ [] }

  abbrev add_healthchecker :
      String
      → Option (Healthchecker W)
      → List (String × Healthchecker W)
      → List (String × Healthchecker W)
  add_healthchecker name none checkers = checkers
  add_healthchecker name (some check) checkers = insert name check checkers

  unfoldable pub register_service :
      (app : Application W) → String → app.Runner → Option (Healthchecker W) → Application W
  register_service app name service check = record app {
    services = insert name service app.services;
    health = record app.health { services = insert name fresh app.health.services };
    healthcheckers = add_healthchecker name check app.healthcheckers;
  }

  -- The goroutines that `run` starts once the startup tasks are done, with one wg.Add(1) for each.
  unfoldable pub spawn_services : Application W → Services
  spawn_services app = record {
    stages = map (λ service. (service.0, waiting)) app.services;
    health = app.health;
    wait_count = length app.services;
    phase = launched;
  }

  -- What `run` does before the first goroutine.
  unfoldable pub run_application : Application W → W → Result Services × W
  unfolding run_tasks spawn_services
  run_application app w =
      let (r, w') = run_tasks app.startup_tasks w in
      elim r [ err e ↦ (err e, w') | ok _ ↦ (ok (spawn_services app), w') ]

abbrev pub unknown_command : Error
unknown_command = sentinel "application.ErrUnknownCommand"

pub data Invocation : Type 0 where
  usage run migrate unknown : Invocation

-- The switch of Run over os.Args.
unfoldable pub dispatch : List String → Invocation
dispatch (program ∷ command ∷ args) =
    if str_eq command "run"
    then run
    else if str_eq command "migrate"
    then migrate
    else if str_eq command "--help"
    then usage
    else if str_eq command "-h"
    then usage
    else unknown
dispatch _ = usage
