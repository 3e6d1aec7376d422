-- ===== src/Tests/Programs.antt =====
-- The programs of demo-app/ on small inputs.
use platforma.Base.{◌≡◌, refl, false, String, List, [], ◌∷◌, ◌++◌, Option, none, some}
use platforma.Base.Text.{text_eq, ext, utf8_len, strip_prefix?, trim_space}
use platforma.Base.Text.Sort.{sort}
use platforma.Base.Dict.{insert, lookup}
use platforma.Base.Errors.{Result, ok, foreign, wrapped}
use platforma.Database.Parser.{parse_migration_file, parse_content}
use platforma.Database.Files.{parse_migrations}
use platforma.Database.Service.{
  Sql, contains_log, migrate_self, get_migration_logs, apply_migrations, save_migration_logs,
}
use platforma.Database.Migrate.{Database, new_database, register_repository, collect, migrate}
use platforma.Log.{
  Event, Value, int, other, new_event, add_step, add_error, add_attrs, attr, should_sample,
  write_event, finish, to_attrs, reserved_attr_keys, contains,
}
use platforma.Log.Logger.{
  background, Entry, new_wide_event_logger, logger_write_event, log_attrs, context_handle,
  context_attrs, replace_attrs,
}
use platforma.Demo.WideEvents
use platforma.Scheduler.{
  Ticking, fires, completes, new_scheduler, Scheduler, start, ticking, started_line, call_context,
  end_line, run_ticks, tick, remove_at,
}
use platforma.Demo.Auth.Setup.{session_files, auth_files}
use platforma.Demo.Database.{User, UserRepository, printed, main}
use platforma.Demo.Database.Rows.{UserTable}
use platforma.Demo.Schedules.{Lines, scheduled_task, new_task}
use platforma.Demo.Clock.{ticks, done, run}
use platforma.Tests.Parsing.{directory}
use platforma.Tests.Migrating.{lenient, empty_server}

-- A database whose World is the rows of the table users.
abbrev rows : Sql
rows = record {
  World = List User;
  execute = λ query w. (none, w);
  select_logs = λ w. (ok [], w);
  insert_log = λ l w. (none, w);
  now = λ w. 0;
}

abbrev user_of : String → String → User
user_of name email = record { id = 1; name = name; email = email }

abbrev users : UserRepository (List User)
users = record {
  create = λ name email w. (ok (user_of name email), w ++ user_of name email ∷ []);
  get_all = λ w. (ok w, w);
}

users-UserTable : UserTable users
users-UserTable = record {
  Stored = λ user w. (before after : List User) × (w ≡ before ++ user ∷ after);
  inserted = λ name email user w h. (cc, cc, (w, [], cc));
  listed = λ user found w s h. let (before, after, split) = s in (before, after, cc);
}

abbrev connect : String → List User → Result Database × List User
connect url w = (ok new_database, w)

abbrev url : String
url = "postgres://"

abbrev jane : User
jane = user_of "Jane" "jane@example.com"

main_prints : main rows users directory connect url (jane ∷ []) ≡ (
  printed (jane ∷ user_of "John Doe" "john@example.com" ∷ []),
  jane ∷ user_of "John Doe" "john@example.com" ∷ [],
)
unfolding main register_repository insert migrate migrate_self get_migration_logs collect
    parse_migrations apply_migrations text_eq contains_log save_migration_logs sort
    parse_migration_file parse_content ext utf8_len strip_prefix? trim_space new_database
main_prints = refl

-- Both files that the domains of demo-app/cmd/auth/main.go embed are applied.
auth_migrations :
    (migrate lenient
      (("session_repository", session_files) ∷ ("auth_repository", auth_files) ∷ [])
      empty_server).0
    ≡ none
unfolding migrate migrate_self get_migration_logs collect parse_migrations apply_migrations text_eq
    contains_log save_migration_logs sort parse_migration_file parse_content ext utf8_len
    strip_prefix? trim_space
auth_migrations = refl

clock_runs : run (ticks ∷ ticks ∷ done (foreign "context canceled") ∷ []) [] ≡ (
  "tick" ∷ "tick" ∷ "finished" ∷ [],
  some (wrapped "context error" (foreign "context canceled")),
)
unfolding run
clock_runs = refl

abbrev every_second : Scheduler Lines
every_second = record { cron_expr = "@every 1s"; runner = scheduled_task }

task_made : new_task (λ spec. ok tt) ≡ ok every_second
unfolding new_task new_scheduler
task_made = refl

abbrev executed : Ticking Lines
executed = record {
  world = (call_context background "a", "scheduled task executed") ∷ [];
  running = [];
  lines =
      started_line (call_context background "a")
      ∷ end_line (call_context background "a") (ok tt)
      ∷ [];
  phase = ticking;
}

task_executed :
    run_ticks every_second background (fires "a" ∷ completes 0 ∷ []) (start []) ≡ some executed
unfolding run_ticks tick remove_at
task_executed = refl

abbrev ev : Event
ev = add_attrs (("attr1", int 1) ∷ ("attr2", other "true") ∷ []) (new_event "test_event" 5)

attr_added : attr "attr1" ev ≡ some (int 1)
unfolding add_attrs new_event insert lookup
attr_added = refl

-- The event has an error, so it is written even if the draw is against it.
abbrev attr1_of : Option Entry → Option Value
attr1_of none = none
attr1_of (some entry) = lookup "attr1" entry.attrs

event_written : attr1_of (WideEvents.main false 5 6 7 8) ≡ some (int 1)
unfolding WideEvents.main new_wide_event_logger should_sample new_event add_step add_error add_attrs
    logger_write_event insert lookup log_attrs context_handle context_attrs replace_attrs
    write_event finish to_attrs reserved_attr_keys contains
event_written = refl
