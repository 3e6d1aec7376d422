-- ===== src/Tests/Starting.antt =====
-- application/ with one service and two startup tasks.
use platforma.HttpServer.Responses.{write_json, write_header, write_body, set_content_type}
use platforma.Database.Migrate.{plain, new_database}
use platforma.Application.Registry.{
  register_domain, register_in_database, health_check_serve, report_health,
}
use platforma.Base.{ℕ, ◌+◌, ◌≡◌, refl, true, false, List, [], ◌∷◌, none, some}
use platforma.Base.Dict.{lookup, insert}
use platforma.Base.Errors.{foreign, wrapped, ok, err}
use platforma.Application.{
  StartupTask, Application, Services, Event, begins, returns, returned, failed, reports, launched,
  register_service, spawn_services, run_application, service_step, serve, start_service,
  fail_service, set_service_data,
}
use platforma.Application.Startup.{AbortedAt, run_application-AbortedAt}
use platforma.Application.Coherence.{IsCoherent, serve-IsCoherent}
use platforma.Application.Coherence.Registering.{register_service-IsCoherent}

-- The world counts the tasks that ran.
abbrev flaky : StartupTask ℕ
flaky = record {
  runner = λ w. (err (foreign "flaky"), w + 1);
  name = "flaky";
  abort_on_error = false;
}

abbrev vital : StartupTask ℕ
vital = record {
  runner = λ w. (err (foreign "vital"), w + 1);
  name = "vital";
  abort_on_error = true;
}

abbrev pub app : Application ℕ
app = record {
  Runner = Unit;
  startup_tasks = flaky ∷ vital ∷ flaky ∷ [];
  services = [];
  healthcheckers = [];
  databases = [];
  health = record { started_at = none; services = [] };
}

run_application-AbortedAt_example :
    AbortedAt app.startup_tasks 0 (wrapped "failed to run startup task" (foreign "vital")) 2
unfolding run_application
run_application-AbortedAt_example =
    run_application-AbortedAt app 0 2 (wrapped "failed to run startup task" (foreign "vital")) refl

app-IsCoherent : IsCoherent (spawn_services app)
unfolding IsCoherent spawn_services lookup
app-IsCoherent name = tt

abbrev failing_run : List Event
failing_run =
    begins "http" 5 ∷ reports "http" "busy" ∷ returns "http" (some (foreign "port in use")) 9 ∷ []

abbrev one_service : Services
one_service = spawn_services (register_service app "http" tt none)

one_service-IsCoherent : IsCoherent one_service
one_service-IsCoherent = register_service-IsCoherent app "http" tt none app-IsCoherent

abbrev after_failure : Services
after_failure = record {
  stages = ("http", returned (some (foreign "port in use"))) ∷ [];
  health = record {
    started_at = none;
    services =
        (
          "http",
          record {
            status = failed;
            started_at = some 5;
            stopped_at = some 9;
            error = some (foreign "port in use");
            payload = some "busy";
          },
        )
        ∷ [];
  };
  wait_count = 0;
  phase = launched;
}

failing_run_ends : serve failing_run one_service ≡ some after_failure
unfolding serve spawn_services register_service service_step start_service fail_service
    set_service_data lookup insert
failing_run_ends = refl

serve-IsCoherent_example : IsCoherent after_failure
serve-IsCoherent_example =
    serve-IsCoherent failing_run one_service after_failure one_service-IsCoherent failing_run_ends

-- A name that no database has.
unknown_database : register_domain app "auth" "main" plain (λ a. new_database) ≡ none
unfolding register_domain register_in_database lookup
unknown_database = refl

-- The health check reports what the healthcheckers say, and answers 200.
abbrev checked : Application ℕ
checked = register_service app "http" tt (some (λ w. ("busy", w + 1)))

health_check_answers :
    (health_check_serve
      (λ h. ok "{}")
      checked
      0
      (record { status = none; content_type = none; body = [] })).0.1
    ≡ record { status = some 200; content_type = some "application/json"; body = "{}" ∷ [] }
unfolding health_check_serve write_json write_header write_body set_content_type report_health
    register_service
health_check_answers = refl
