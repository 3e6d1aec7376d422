-- ===== src/Database/Migrate/Pipeline.antt =====
-- Migrate over the registered repositories.
use platforma.Base.{
  ◌≡◌, ◌≢◌, ◌⊎◌, inl, inr, String, List, [], ◌∷◌, ◌++◌, Option, none, some, arith, str_eq,
  if◌then◌else◌,
}
use platforma.Base.Dict.{lookup, lookup-insert}
use platforma.Base.Errors.{Error, wrapped, ok, err, Result-cases}
use platforma.Database.Parser.{Migration}
use platforma.Database.Files.{FileSystem, parse_migrations}
use platforma.Database.Service.{
  Sql, MigrationLog, migrate_self, get_migration_logs, apply_migrations,
}
use platforma.Database.Migrate.{
  Repository, plain, migrator, Database, register_repository, collect, migrate,
}

abbrev pub registered : Repository → Option FileSystem → Option FileSystem
registered plain before = before
registered (migrator fsys) before = some fsys

-- Registering a value makes it a migrator under its name if it is one, and otherwise leaves the
-- migrator that had the name; other names keep theirs.
pub register_repository_migrators :
    (name other : String) (repo : Repository) (db : Database)
    → lookup other (register_repository name repo db).migrators ≡ (
        if str_eq name other
        then registered repo (lookup other db.migrators)
        else lookup other db.migrators)
unfolding register_repository
register_repository_migrators name other plain db = ground arith
register_repository_migrators name other (migrator fsys) db =
    lookup-insert name other fsys db.migrators

-- One repository that does not parse makes the loop fail.
collect-malformed :
    (before after : List (String × FileSystem)) (name : String) (fsys : FileSystem) (x : Error)
    → parse_migrations fsys ≡ err x
    → (y : Error) × (collect (before ++ (name, fsys) ∷ after) ≡ err y)
unfolding collect
collect-malformed [] after name fsys x h =
    (wrapped "failed to parse migrations" x, ground (arith, h))
collect-malformed ((other, fsys') ∷ before) after name fsys x h =
    let (y, fails) = collect-malformed before after name fsys x h in
    elim (Result-cases (parse_migrations fsys')) [
      | inl (parsed, p) ↦ (y, ground (arith, p, fails))
      | inr (z, p) ↦ (wrapped "failed to parse migrations" z, ground (arith, p))
    ]

module _ (sql : Sql) where
  open sql use {World}

  -- If the files of a registered repository do not parse, wherever Go meets it in the map, then
  -- Migrate fails, and no migration of any repository has been tried: the database is as migrateSelf
  -- left it, or as reading the log did.
  pub migrate_malformed :
      (before after : List (String × FileSystem)) (name : String) (fsys : FileSystem) (x : Error)
      (w : World)
      → parse_migrations fsys ≡ err x
      → let (e, w') = migrate sql (before ++ (name, fsys) ∷ after) w in
        (e ≢ none)
        × ((w' ≡ (migrate_self sql w).1) ⊎ (w' ≡ (get_migration_logs sql (migrate_self sql w).1).1))
  unfolding migrate
  migrate_malformed before after name fsys x w h =
      let (y, fails) = collect-malformed before after name fsys x h in ground (arith, fails)

  -- Migrate reports success only if migrateSelf, the SELECT of the log, every parse and
  -- applyMigrations did, and then its effect is that of applyMigrations.
  pub migrate_succeeds :
      (order : List (String × FileSystem)) (w : World)
      → (migrate sql order w).0 ≡ none
      → (ms : List Migration) × (logs : List MigrationLog) × (collect order ≡ ok ms)
        × ((migrate_self sql w).0 ≡ none)
        × ((get_migration_logs sql (migrate_self sql w).1).0 ≡ ok logs)
        × (migrate sql order w
            ≡ apply_migrations sql ms logs (get_migration_logs sql (migrate_self sql w).1).1)
  unfolding migrate
  migrate_succeeds order w h =
      elim (Result-cases (get_migration_logs sql (migrate_self sql w).1).0) [
        | inr (x, e) ↦ absurd (ground (arith, e))
        | inl (logs, e) ↦ elim (Result-cases (collect order)) [
          | inr (x, c) ↦ absurd (ground (arith, e, c))
          | inl (ms, c) ↦ (ms, logs, c, ground (arith, e, c), e, ground (arith, e, c))
        ]
      ]
