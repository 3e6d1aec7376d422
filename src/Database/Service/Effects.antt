-- ===== src/Database/Service/Effects.antt =====
-- What applyMigrations does to the database, on each branch.
use mathlib.Core.List.{append-nil, append_assoc}
use platforma.Base.{
  ◌≡◌, refl, ap, ◌∙◌, true, false, List, [], ◌∷◌, ◌++◌, reverse, Option, none, some, arith, String,
}
use platforma.Base.Errors.{Error, foreign, wrapped}
use platforma.Database.Parser.{Migration}
use platforma.Database.Service.{
  Sql, MigrationLog, is_logged, revert_from, revert_migrations, save_migration_logs,
  save_migration_log, save_from, apply_migration, apply_from, apply_migrations,
}

-- The migrations without an entry in the log.
unfoldable pub pending : List MigrationLog → List Migration → List Migration
pending logs [] = []
pending logs (m ∷ ms) =
    let rest = pending logs ms in elim (is_logged logs m) [ true ↦ rest | false ↦ m ∷ rest ]

-- The error of a migration whose Up query failed.
abbrev pub up_error : String → Error
up_error message =
    wrapped "failed to apply migration" (wrapped "failed to execute query" (foreign message))

module _ (sql : Sql) where
  open sql use {World, execute, insert_log, now}

  -- Every Up query succeeds, one after the other, and leads from `w` to `w'`.
  abbrev pub Ups : List Migration → World → World → Type 0
  Ups [] w w' = w ≡ w'
  Ups (m ∷ ms) w w' = ((execute m.up w).0 ≡ none) × Ups ms (execute m.up w).1 w'

  -- The Down queries, whatever they answer.
  unfoldable pub downs : List Migration → World → World
  downs [] w = w
  downs (m ∷ ms) w = downs ms (execute m.down w).1

  -- One INSERT for each migration, in order, whatever the server answers: a row with the repository
  -- and the ID of the migration and the time of the statement.
  unfoldable pub logged : List Migration → World → World
  logged [] w = w
  logged (m ∷ ms) w =
      logged ms
        (insert_log (record { repository = m.repository; id = m.id; timestamp = now w }) w).1

  save_from-logged :
      (ms : List Migration) (master : Option Error) (w : World)
      → (save_from sql master ms w).1 ≡ logged ms w
  unfolding save_from logged save_migration_log
  save_from-logged [] master w = refl
  save_from-logged (m ∷ ms) master w = save_from-logged ms _ _

  -- The loop of applyMigrations over migrations that are all pending.
  unfoldable pub apply_all : List Migration → List Migration → World → Option Error × World
  apply_all applied [] w = (none, (save_migration_logs sql applied w).1)
  apply_all applied (m ∷ ms) w =
      let (e, w') = apply_migration sql m w in
      elim e [
        | none ↦ apply_all (applied ++ m ∷ []) ms w'
        | some x ↦ (some x, (revert_migrations sql applied w').1)
      ]

  apply_from-pending :
      (logs : List MigrationLog) (applied ms : List Migration) (w : World)
      → apply_from sql logs applied ms w ≡ apply_all applied (pending logs ms) w
  unfolding apply_from apply_all pending apply_migration
  apply_from-pending logs applied [] w = refl
  apply_from-pending logs applied (m ∷ ms) w = ground (
    arith,
    apply_from-pending logs applied ms w,
    apply_from-pending logs (applied ++ m ∷ []) ms (execute m.up w).1,
  )

  pub downs-revert_from :
      (ms : List Migration) (master : Option Error) (w : World)
      → (revert_from sql master ms w).1 ≡ downs ms w
  unfolding revert_from downs
  downs-revert_from [] master w = refl
  downs-revert_from (m ∷ ms) master w = downs-revert_from ms _ (execute m.down w).1

  apply_all_success :
      (applied ms : List Migration) (w w' : World)
      → Ups ms w w'
      → apply_all applied ms w ≡ (none, (save_migration_logs sql (applied ++ ms) w').1)
  unfolding apply_all apply_migration
  apply_all_success applied [] w w' h = ground (arith, append-nil applied)
  apply_all_success applied (m ∷ ms) w w' h = ground (
    arith,
    apply_all_success (applied ++ m ∷ []) ms (execute m.up w).1 w' h.1,
    append_assoc applied (m ∷ []) ms,
  )

  apply_all_failure :
      (applied pre : List Migration) (m : Migration) (post : List Migration) (w w' : World)
      {message : String}
      → Ups pre w w'
      → (execute m.up w').0 ≡ some message
      → apply_all applied (pre ++ m ∷ post) w
        ≡ (some (up_error message), downs (reverse (applied ++ pre)) (execute m.up w').1)
  unfolding apply_all apply_migration revert_migrations
  apply_all_failure applied [] m post w w' h e =
      ground
        (arith, append-nil applied, downs-revert_from (reverse applied) none (execute m.up w').1)
  apply_all_failure applied (n ∷ pre) m post w w' h e = ground (
    arith,
    apply_all_failure (applied ++ n ∷ []) pre m post (execute n.up w).1 w' h.1 e,
    append_assoc applied (n ∷ []) pre,
  )

  pub apply_migrations_all :
      (ms : List Migration) (logs : List MigrationLog) (w : World)
      → apply_migrations sql ms logs w ≡ apply_all [] (pending logs ms) w
  unfolding apply_migrations
  apply_migrations_all ms logs w = apply_from-pending logs [] ms w

  pub apply_migrations-save_migration_logs :
      (ms : List Migration) (logs : List MigrationLog) (w w' : World)
      → Ups (pending logs ms) w w'
      → apply_migrations sql ms logs w ≡ (none, (save_migration_logs sql (pending logs ms) w').1)
  apply_migrations-save_migration_logs ms logs w w' h =
      apply_migrations_all ms logs w ∙ apply_all_success [] (pending logs ms) w w' h

  -- When the Up queries of all pending migrations succeed, in order, applyMigrations succeeds, and
  -- then the log entry of each of them is inserted, in that order, with the migration's repository and
  -- ID; the INSERTs go on after one that fails.
  pub apply_migrations_success :
      (ms : List Migration) (logs : List MigrationLog) (w w' : World)
      → Ups (pending logs ms) w w'
      → apply_migrations sql ms logs w ≡ (none, logged (pending logs ms) w')
  unfolding save_migration_logs
  apply_migrations_success ms logs w w' h =
      apply_migrations-save_migration_logs ms logs w w' h
      ∙ ap (λ v. (none, v)) (save_from-logged (pending logs ms) none w')

  -- When the Up query of a pending migration fails after those before it succeeded, applyMigrations stops there with its error, runs the Down queries of
  -- those applied before it, last first, and writes no log entry.
  pub apply_migrations_failure :
      (ms pre post : List Migration) (m : Migration) (logs : List MigrationLog) (w w' : World)
      (message : String)
      → pending logs ms ≡ pre ++ m ∷ post
      → Ups pre w w'
      → (execute m.up w').0 ≡ some message
      → apply_migrations sql ms logs w
        ≡ (some (up_error message), downs (reverse pre) (execute m.up w').1)
  apply_migrations_failure ms pre post m logs w w' message split h e =
      apply_migrations_all ms logs w
      ∙ ap (λ l. apply_all [] l w) split
      ∙ apply_all_failure [] pre m post w w' h e
