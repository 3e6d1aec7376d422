-- ===== src/Application/Registry/Migrating.antt =====
-- From registering a domain to the command migrate: application/ over database/.
use Prim.Native.String.{◌++◌ as ◌+s+◌}
use mathlib.Core.List.{append_assoc}
use platforma.Base.{
  ◌≡◌, ◌≢◌, inl, inr, refl, ap, ◌∙◌, sym, ℕ, String, List, [], ◌∷◌, ◌++◌, map, Option, none, some,
  Bool-cases, Option-cases, str_eq, eq_iff, ◌==◌, ==_iff, arith, if◌then◌else◌,
}
use platforma.Base.Dict.{lookup}
use platforma.Base.Errors.{Error, ok}
use platforma.Database.Parser.{Migration}
use platforma.Database.Files.{FileSystem, parse_migrations}
use platforma.Database.Service.{
  Sql, MigrationLog, migrate_self, get_migration_logs, apply_migrations,
}
use platforma.Database.Migrate.{migrator, in_repository, collect, migrate}
use platforma.Database.Migrate.Pipeline.{migrate_succeeds}
use platforma.Database.Migrate.Orders.{collect-ok}
use platforma.Application.{Application, migrate_databases}
use platforma.Application.Registry.{Databases, register_domain, register_domain_lem}

-- A directory whose migrations are among those that are collected.
collect-lookup :
    (name : String) (fsys : FileSystem) (order : List (String × FileSystem)) (ms : List Migration)
    → lookup name order ≡ some fsys
    → collect order ≡ ok ms
    → (parsed before after : List Migration) × (parse_migrations fsys ≡ ok parsed)
      × (ms ≡ before ++ (map (in_repository name) parsed ++ after))
unfolding lookup
collect-lookup name fsys [] ms h c = cc
collect-lookup name fsys ((other, fsys') ∷ order) ms h c =
    let (parsed, more, p, m, split) = collect-ok other fsys' order ms c in
    elim (Bool-cases (str_eq other name)) [
      | inl same ↦
          (parsed, [], more, ground (arith, same, p), rw (← (eq_iff other name).0 same) split)
      | inr differs ↦
          let (parsed', before, after, p', e') =
            collect-lookup name fsys order more (ground (arith, differs)) m in
          (
            parsed',
            map (in_repository other) parsed ++ before,
            after,
            p',
            split
                ∙ ap (λ x. map (in_repository other) parsed ++ x) e'
                ∙ sym (append_assoc (map (in_repository other) parsed) before _),
          )
    ]

module _ {W : Type 0} (migrate_at : ℕ → W → Option Error × W) where
  -- Each database is migrated in some world.
  migrate_databases-lookup :
      (name : String) (address : ℕ) (databases : List (String × ℕ)) (w w' : W)
      → migrate_databases migrate_at databases w ≡ (ok tt, w')
      → lookup name databases ≡ some address
      → (reached : W) × ((migrate_at address reached).0 ≡ none)
  unfolding migrate_databases lookup
  migrate_databases-lookup name address [] w w' h l = cc
  migrate_databases-lookup name address ((other, at) ∷ databases) w w' h l =
      elim (Option-cases (migrate_at at w).0) [
        | inr (x, e) ↦ absurd (ground (arith, e))
        | inl e ↦ elim (Bool-cases (str_eq other name)) [
          | inl same ↦ (w, ground (arith, same, e))
          | inr differs ↦
              migrate_databases-lookup name address databases (migrate_at at w).1 w'
                (ground (arith, e)) (ground (arith, differs))
        ]
      ]

-- A server beside whatever else is in the world.
abbrev in_world :
    (sql : Sql) {R : Type 0}
    → List (String × FileSystem)
    → (sql.World × R)
    → Option Error × (sql.World × R)
in_world sql order (w, rest) = let (e, w') = migrate sql order w in (e, (w', rest))

module _ {W : Type 0} where
  registered_migrator :
      (app : Application W) (name db_name : String) (address : ℕ) (fsys : FileSystem)
      (dbs dbs' : Databases)
      → db_name ≢ ""
      → lookup db_name app.databases ≡ some address
      → register_domain app name db_name (migrator fsys) dbs ≡ some dbs'
      → lookup (name +s+ "_repository") (dbs' address).migrators ≡ some fsys
  registered_migrator app name db_name address fsys dbs dbs' filled known registered =
      elim (register_domain_lem app name db_name (migrator fsys) dbs (name +s+ "_repository")
        address) [
          | inl (empty, _) ↦ absurd (filled empty)
          | inr (inl (_, unknown, _)) ↦ cc
          | inr (inr (_, (address', dbs'', (known', registered', outcome)))) ↦ elim outcome [
            | inl (elsewhere, _) ↦ absurd (elsewhere (cc))
            | inr (_, (_, migrators)) ↦
                let same : dbs' ≡ dbs'' = cc in
                let key : String = name +s+ "_repository" in
                rw same (migrators ∙ ground (arith, eq_iff key key))
          ]
        ]

module _ {R : Type 0} (sql : Sql) where
  open sql use {World}

  -- What the command migrate runs for a database: the server at one address is `sql`, over which
  -- Database.Migrate goes through the migrators that are registered; `others` are the others'.
  abbrev pub migrate_at :
      ℕ
      → Databases
      → (ℕ → World × R → Option Error × (World × R))
      → ℕ
      → World × R
      → Option Error × (World × R)
  migrate_at address dbs others a =
      if a == address then in_world sql (dbs a).migrators else others a

  -- If RegisterDomain puts a domain with migrations into a known database, and the command migrate
  -- then succeeds, then the domain's files were parsed, and applyMigrations succeeded on a list of
  -- migrations in which the domain's stand together, in their order, under the domain's name with
  -- _repository behind it, with the log that the database had then.
  pub register_domain-migrate_databases :
      (app : Application (World × R)) (name db_name : String) (address : ℕ) (fsys : FileSystem)
      (dbs dbs' : Databases) (others : ℕ → World × R → Option Error × (World × R))
      (w w' : World × R)
      → db_name ≢ ""
      → lookup db_name app.databases ≡ some address
      → register_domain app name db_name (migrator fsys) dbs ≡ some dbs'
      → migrate_databases (migrate_at address dbs' others) app.databases w ≡ (ok tt, w')
      → (parsed before after : List Migration) × (logs : List MigrationLog) × (v v' : World)
        × (parse_migrations fsys ≡ ok parsed)
        × ((get_migration_logs sql v).0 ≡ ok logs)
        × (v' ≡ (get_migration_logs sql v).1)
        × ((apply_migrations sql
              (before ++ (map (in_repository (name +s+ "_repository")) parsed ++ after))
              logs
              v').0
            ≡ none)
  register_domain-migrate_databases app name db_name address fsys dbs dbs' others w w' filled known
        registered done =
      let key = name +s+ "_repository" in
      let (reached, migrated) =
        migrate_databases-lookup (migrate_at address dbs' others) db_name address app.databases w w'
          done known in
      let order = (dbs' address).migrators in
      let found : lookup key order ≡ some fsys =
        registered_migrator app name db_name address fsys dbs dbs' filled known registered in
      let clean : (migrate sql order reached.0).0 ≡ none =
        ground (arith, migrated, ==_iff address address) in
      let (ms, logs, c, selfless, got, same) = migrate_succeeds sql order reached.0 clean in
      let (parsed, before, after, p, split) = collect-lookup key fsys order ms found c in
      (
        parsed,
        before,
        after,
        logs,
        (migrate_self sql reached.0).1,
        _,
        p,
        got,
        refl,
        ground (arith, same, split, clean),
      )
