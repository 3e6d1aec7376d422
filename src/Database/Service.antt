-- ===== src/Database/Service.antt =====
-- database/service.go and database/repository.go over a connection to the database server, which
-- is given by what it answers. `World` is the state of the server and of the clock.
pub mod Effects
pub mod Atomic
pub mod Rerun
use mathlib.Core.Bool.{Bool, true, false, ◌&&◌, ◌||◌}
use platforma.Base.{ℕ, String, List, [], ◌∷◌, ◌++◌, reverse, Option, none, some, str_eq}
use platforma.Base.Text.{Text, codes, text_eq}
use platforma.Base.Errors.{Error, foreign, wrapped, join, Result, ok, err, wrap}
use platforma.Database.Parser.{Migration}

pub record MigrationLog : Type 0 where
  pub repository : String
  pub id : Text
  pub timestamp : ℕ

-- sqlx: ExecContext of a query, SelectContext of all rows of platforma_migrations, NamedExecContext
-- of the INSERT of one row. An error is its message.
pub record Sql : Type 1 where
  pub World : Type 0
  pub execute : Text → World → Option String × World
  pub select_logs : World → Result (List MigrationLog) × World
  pub insert_log : MigrationLog → World → Option String × World
  pub now : World → ℕ

-- fmt.Errorf("...: %w", err) where err is not nil.
abbrev pub wrap_error : String → Option Error → Option Error
wrap_error message none = none
wrap_error message (some e) = some (wrapped message e)

abbrev foreign_error : Option String → Option Error
foreign_error none = none
foreign_error (some message) = some (foreign message)

-- `if err != nil { masterErr = errors.Join(masterErr, err) }`
abbrev join_failed : Option Error → Option Error → Option Error
join_failed master none = master
join_failed master (some e) = join master (some e)

-- The nil slice that a failed SELECT leaves.
abbrev logs_or_nil : Result (List MigrationLog) → List MigrationLog
logs_or_nil (ok logs) = logs
logs_or_nil (err e) = []

-- slices.ContainsFunc over the log.
unfoldable pub contains_log : String → Text → List MigrationLog → Bool
contains_log repository id [] = false
contains_log repository id (l ∷ logs) =
    (str_eq l.repository repository && text_eq l.id id) || contains_log repository id logs

abbrev is_logged : List MigrationLog → Migration → Bool
is_logged logs m = contains_log m.repository m.id logs

abbrev self_repository : String
self_repository = "platforma_migration"

-- (*repository).migrations.
abbrev pub self_migrations : List Migration
self_migrations =
    record {
      id = codes "init";
      up =
          codes
            "CREATE TABLE IF NOT EXISTS platforma_migrations (repository TEXT, id TEXT, timestamp TIMESTAMP)";
      down = codes "DROP TABLE platforma_migrations";
      repository = "";
    }
    ∷ []

module _ (sql : Sql) where
  open sql use {World, execute, select_logs, insert_log, now}

  -- (*repository).executeQuery.
  unfoldable pub execute_query : Text → World → Option Error × World
  execute_query query w =
      let (e, w') = execute query w in (wrap_error "failed to execute query" (foreign_error e), w')

  unfoldable pub apply_migration : Migration → World → Option Error × World
  unfolding execute_query
  apply_migration m w =
      let (e, w') = execute_query m.up w in (wrap_error "failed to apply migration" e, w')

  unfoldable pub revert_migration : Migration → World → Option Error × World
  unfolding execute_query
  revert_migration m w =
      let (e, w') = execute_query m.down w in (wrap_error "failed to revert migration" e, w')

  -- The loop of revertMigrations, over the migrations in the order in which it takes them.
  unfoldable pub revert_from : Option Error → List Migration → World → Option Error × World
  unfolding revert_migration
  revert_from master [] w = (master, w)
  revert_from master (m ∷ ms) w =
      let (e, w') = revert_migration m w in
      revert_from (join_failed master (wrap_error "failed to revert migration" e)) ms w'

  unfoldable pub revert_migrations : List Migration → World → Option Error × World
  unfolding revert_from
  revert_migrations ms w = revert_from none (reverse ms) w

  unfoldable pub get_migration_logs : World → Result (List MigrationLog) × World
  get_migration_logs w =
      let (r, w') = select_logs w in
      (wrap "failed to get migration logs" (wrap "failed to get migration logs" r), w')

  unfoldable pub save_migration_log : String → Text → World → Option Error × World
  save_migration_log repository id w =
      let (e, w') = insert_log (record { repository = repository; id = id; timestamp = now w }) w in
      (
        wrap_error "failed to save migration log"
            (wrap_error "failed to save migration log" (foreign_error e)),
        w',
      )

  -- The loop of saveMigrationLogs.
  unfoldable pub save_from : Option Error → List Migration → World → Option Error × World
  unfolding save_migration_log
  save_from master [] w = (master, w)
  save_from master (m ∷ ms) w =
      let (e, w') = save_migration_log m.repository m.id w in save_from (join_failed master e) ms w'

  unfoldable pub save_migration_logs : List Migration → World → Option Error × World
  unfolding save_from
  save_migration_logs ms w = save_from none ms w

  -- The loop of applyMigrations; `applied` is appliedMigrations. An error of saveMigrationLogs is
  -- logged and dropped, and so is one of revertMigrations.
  unfoldable pub apply_from :
      List MigrationLog → List Migration → List Migration → World → Option Error × World
  unfolding apply_migration revert_migrations save_migration_logs contains_log
  apply_from logs applied [] w = (none, (save_migration_logs applied w).1)
  apply_from logs applied (m ∷ ms) w = elim (is_logged logs m) [
    | true ↦ apply_from logs applied ms w
    | false ↦
        let (e, w') = apply_migration m w in
        elim e [
          | none ↦ apply_from logs (applied ++ m ∷ []) ms w'
          | some x ↦ (some x, (revert_migrations applied w').1)
        ]
  ]

  unfoldable pub apply_migrations :
      List Migration → List MigrationLog → World → Option Error × World
  unfolding apply_from
  apply_migrations ms logs w = apply_from logs [] ms w

  -- The loop of migrateSelf, which names the repository only when a migration has been applied.
  unfoldable pub migrate_self_from :
      List MigrationLog → List Migration → List Migration → World → Option Error × World
  unfolding apply_migration revert_migrations save_migration_logs contains_log
  migrate_self_from logs applied [] w = (none, (save_migration_logs applied w).1)
  migrate_self_from logs applied (m ∷ ms) w = elim (contains_log self_repository m.id logs) [
    | true ↦ migrate_self_from logs applied ms w
    | false ↦
        let (e, w') = apply_migration m w in
        elim e [
          | none ↦
              migrate_self_from logs (applied ++ record m { repository = self_repository } ∷ []) ms
                w'
          | some x ↦ (some x, (revert_migrations applied w').1)
        ]
  ]

  unfoldable pub migrate_self : World → Option Error × World
  unfolding migrate_self_from
  migrate_self w =
      let (r, w') = select_logs w in migrate_self_from (logs_or_nil r) [] self_migrations w'
