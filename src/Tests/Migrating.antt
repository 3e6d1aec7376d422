-- ===== src/Tests/Migrating.antt =====
-- database/service.go and database/database.go over a server with one kind of table.
use platforma.Base.{
  ℕ, suc, ◌-◌, ◌≡◌, ◌≢◌, ◌⊎◌, refl, String, List, [], ◌∷◌, ◌++◌, Option, none, some, arith,
  if◌then◌else◌,
}
use platforma.Base.Text.{Text, codes, text_eq}
use platforma.Base.Text.Sort.{sort}
use platforma.Base.Dict.{lookup, insert}
use platforma.Base.Errors.{ok, err, wrapped, foreign}
use platforma.Database.Parser.{Migration}
use platforma.Database.Files.{FileSystem, parse_migrations}
use platforma.Database.Service.{
  Sql, MigrationLog, contains_log, apply_migrations, save_migration_logs, migrate_self,
  get_migration_logs,
}
use platforma.Database.Service.Effects.{
  pending, logged, up_error, downs, apply_migrations_success, apply_migrations_failure,
}
use platforma.Database.Service.Atomic.{IsReversible, apply_migrations_atomic}
use platforma.Database.Service.Rerun.{LogTable, apply_migrations_twice, apply_migrations_unsaved}
use platforma.Database.Migrate.{
  plain, migrator, new_database, register_repository, collect, migrate,
}
use platforma.Database.Migrate.Pipeline.{migrate_malformed}

-- The number of tables, and the rows of platforma_migrations.
abbrev pub Server : Type 0
Server = ℕ × List MigrationLog

abbrev run_query : Text → Server → Option String × Server
run_query query w =
    if text_eq query (codes "up")
    then (none, (suc w.0, w.1))
    else if text_eq query (codes "down")
    then (none, (w.0 - 1, w.1))
    else (some "syntax error", w)

abbrev server : Sql
server = record {
  World = Server;
  execute = run_query;
  select_logs = λ w. (ok w.1, w);
  insert_log = λ l w. (none, (w.0, w.1 ++ l ∷ []));
  now = λ w. 0;
}

-- A server that refuses to write the log.
abbrev read_only : Sql
read_only = record server { insert_log = λ l w. (some "permission denied", w) }

abbrev good : String → Migration
good id = record { id = codes id; up = codes "up"; down = codes "down"; repository = "users" }

abbrev bad : Migration
bad = record (good "3") { up = codes "upp" }

abbrev pub empty_server : Server
empty_server = (0, [])

apply_migrations_success_example :
    apply_migrations server (good "1" ∷ good "2" ∷ []) [] empty_server
    ≡ (none, logged server (good "1" ∷ good "2" ∷ []) (2, []))
unfolding pending contains_log text_eq
apply_migrations_success_example =
    apply_migrations_success server (good "1" ∷ good "2" ∷ []) [] empty_server (2, [])
      (refl, (refl, refl))

apply_migrations_failure_example :
    apply_migrations server (good "1" ∷ bad ∷ good "2" ∷ []) [] empty_server
    ≡ (some (up_error "syntax error"), downs server (good "1" ∷ []) (1, []))
unfolding pending contains_log text_eq
apply_migrations_failure_example =
    apply_migrations_failure server (good "1" ∷ bad ∷ good "2" ∷ []) (good "1" ∷ []) (good "2" ∷ [])
      bad [] empty_server (1, []) "syntax error" refl (refl, refl) refl

good-IsReversible : (id : String) → IsReversible server (good id)
unfolding text_eq
good-IsReversible id = record { clean = λ w message e. cc; undone = λ w e. ground arith }

bad-IsReversible : IsReversible server bad
unfolding text_eq
bad-IsReversible = record { clean = λ w message e. refl; undone = λ w e. cc }

apply_migrations_atomic_example :
    (apply_migrations server (good "1" ∷ bad ∷ []) [] (5, [])).1 ≡ (5, [])
unfolding apply_migrations text_eq
apply_migrations_atomic_example =
    apply_migrations_atomic server (good "1" ∷ bad ∷ []) [] (5, []) {e = up_error "syntax error"}
      (good-IsReversible "1", (bad-IsReversible, tt)) refl

-- An INSERT of the toy server adds its row.
abbrev server_log : LogTable server
server_log = record { rows = λ w. w.1; inserted = λ l w h. refl }

abbrev read_only_log : LogTable read_only
read_only_log = record { rows = λ w. w.1; inserted = λ l w h. cc }

abbrev after_two : Server
after_two = (apply_migrations server (good "1" ∷ good "2" ∷ []) [] empty_server).1

apply_migrations_twice_example :
    apply_migrations server (good "1" ∷ good "2" ∷ []) after_two.1 after_two ≡ (none, after_two)
unfolding pending contains_log text_eq save_migration_logs
apply_migrations_twice_example =
    apply_migrations_twice server server_log (good "1" ∷ good "2" ∷ []) empty_server (2, [])
      (refl, (refl, refl)) refl refl

apply_migrations_unsaved_example :
    ((apply_migrations read_only (good "1" ∷ []) [] empty_server).0 ≡ none)
    × (pending (apply_migrations read_only (good "1" ∷ []) [] empty_server).1.1 (good "1" ∷ [])
        ≡ pending [] (good "1" ∷ []))
unfolding pending contains_log text_eq
apply_migrations_unsaved_example =
    apply_migrations_unsaved read_only read_only_log (good "1" ∷ []) empty_server (1, [])
      (refl, refl) refl (λ l v. refl)

abbrev pub no_files : FileSystem
no_files = record { read_dir = ok []; open_file = λ _. err (foreign "not found") }

abbrev broken_files : FileSystem
broken_files = record {
  read_dir = err (foreign "no directory");
  open_file = λ _. err (foreign "not found");
}

-- A server that accepts every statement.
abbrev pub lenient : Sql
lenient = record server { execute = λ query w. (none, (suc w.0, w.1)) }

directory_broken :
    parse_migrations broken_files
    ≡ err (wrapped "failed to read migrations directory" (foreign "no directory"))
unfolding parse_migrations sort
directory_broken = refl

migrate_malformed_example :
    let (e, w') =
      migrate lenient (("posts", no_files) ∷ ("users", broken_files) ∷ []) empty_server in
    (e ≢ none)
    × ((w' ≡ (migrate_self lenient empty_server).1)
        ⊎ (w' ≡ (get_migration_logs lenient (migrate_self lenient empty_server).1).1))
migrate_malformed_example =
    migrate_malformed lenient (("posts", no_files) ∷ []) [] "users" broken_files
      (wrapped "failed to read migrations directory" (foreign "no directory")) empty_server
      directory_broken

lenient_server_migrates : (migrate lenient (("users", no_files) ∷ []) empty_server).0 ≡ none
unfolding migrate migrate_self get_migration_logs collect parse_migrations apply_migrations text_eq
    contains_log save_migration_logs sort
lenient_server_migrates = refl

-- A repository without migrations leaves those that had its name.
old_migrations_stay :
    lookup "users"
      (register_repository "users" plain
        (register_repository "users" (migrator no_files) new_database)).migrators
    ≡ some no_files
unfolding register_repository lookup insert new_database
old_migrations_stay = refl
