-- ===== src/Tests/Registering.antt =====
-- application/ over database/: one domain, one database, and the command migrate.
use platforma.Base.{◌≡◌, refl, List, ◌++◌, map, none, some}
use platforma.Base.Dict.{lookup, insert}
use platforma.Base.Errors.{ok}
use platforma.Base.Text.{text_eq, ext, utf8_len, strip_prefix?, trim_space}
use platforma.Base.Text.Sort.{sort}
use platforma.Database.Parser.{Migration, parse_migration_file, parse_content}
use platforma.Database.Files.{parse_migrations}
use platforma.Database.Service.{
  MigrationLog, contains_log, migrate_self, get_migration_logs, apply_migrations,
  save_migration_logs,
}
use platforma.Database.Migrate.{
  migrator, new_database, register_repository, in_repository, collect, migrate,
}
use platforma.Application.{Application, migrate_databases}
use platforma.Application.Registry.{
  Databases, new_application, register_database, register_in_database, register_domain,
  register_shared,
}
use platforma.Application.Registry.Migrating.{migrate_at, register_domain-migrate_databases}
use platforma.Tests.Migrating.{Server, lenient, empty_server}
use platforma.Tests.Parsing.{directory}

abbrev World : Type 0
World = Server × Unit {0}

abbrev app : Application World
app = register_database "main" 0 (new_application Unit)

abbrev empty : Databases
empty a = new_database

abbrev with_users : Databases
with_users = register_shared 0 "users_repository" (migrator directory) empty

users_register : register_domain app "users" "main" (migrator directory) empty ≡ some with_users
unfolding register_domain register_in_database register_database new_application lookup insert
users_register = refl

abbrev after_migrate : World
after_migrate =
    (migrate_databases (migrate_at lenient 0 with_users (λ a w. (none, w))) app.databases
      (empty_server, tt)).1

app_migrates :
    migrate_databases
      (migrate_at lenient 0 with_users (λ a w. (none, w)))
      app.databases
      (empty_server, tt)
    ≡ (ok tt, after_migrate)
unfolding migrate_databases register_shared register_repository register_database new_application
    insert migrate migrate_self get_migration_logs collect parse_migrations apply_migrations text_eq
    contains_log save_migration_logs sort parse_migration_file parse_content ext utf8_len
    strip_prefix? trim_space new_database
app_migrates = refl

register_domain-migrate_databases_example :
    (parsed before after : List Migration) × (logs : List MigrationLog) × (v v' : Server)
    × (parse_migrations directory ≡ ok parsed)
    × ((get_migration_logs lenient v).0 ≡ ok logs)
    × (v' ≡ (get_migration_logs lenient v).1)
    × ((apply_migrations lenient
          (before ++ (map (in_repository "users_repository") parsed ++ after))
          logs
          v').0
        ≡ none)
unfolding register_database new_application insert lookup
register_domain-migrate_databases_example =
    register_domain-migrate_databases lenient app "users" "main" 0 directory empty with_users
      (λ a w. (none, w)) (empty_server, tt) after_migrate (λ e. cc) refl users_register app_migrates
