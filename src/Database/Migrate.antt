-- ===== src/Database/Migrate.antt =====
-- database/database.go: the registry of a Database and Migrate.
pub mod Pipeline
pub mod Orders
use platforma.Base.{String, List, [], ◌∷◌, ◌++◌, map, Option, none, some}
use platforma.Base.Dict.{insert}
use platforma.Base.Errors.{Error, wrapped, Result, ok, err, ◌>>=◌, wrap}
use platforma.Database.Parser.{Migration}
use platforma.Database.Files.{FileSystem, parse_migrations}
use platforma.Database.Service.{Sql, migrate_self, get_migration_logs, apply_migrations}

-- A registered value: only some implement migrator.
pub data Repository : Type 0 where
  plain : Repository
  migrator : FileSystem → Repository

pub record Database : Type 0 where
  pub repositories : List (String × Repository)
  pub migrators : List (String × FileSystem)

unfoldable pub new_database : Database
new_database = record { repositories = []; migrators = [] }

-- The type assertion to migrator.
add_migrator : String → Repository → List (String × FileSystem) → List (String × FileSystem)
add_migrator name plain ms = ms
add_migrator name (migrator fsys) ms = insert name fsys ms

unfoldable pub register_repository : String → Repository → Database → Database
unfolding insert add_migrator
register_repository name repo db = record {
  repositories = insert name repo db.repositories;
  migrators = add_migrator name repo db.migrators;
}

unfoldable pub in_repository : String → Migration → Migration
in_repository name m = record m { repository = name }

-- The loop over db.migrators, in the order in which the range statement meets its entries.
unfoldable pub collect : List (String × FileSystem) → Result (List Migration)
unfolding in_repository
collect [] = ok []
collect ((name, fsys) ∷ rest) = do
  parsed ← wrap "failed to parse migrations" (parse_migrations fsys)
  more ← collect rest
  ok (map (in_repository name) parsed ++ more)

module _ (sql : Sql) where
  open sql use {World}

  -- `order` is db.migrators in the order in which this run meets its entries.
  unfoldable pub migrate : List (String × FileSystem) → World → Option Error × World
  migrate order w =
      let (e, w₁) = migrate_self sql w in
      elim e [
        | some x ↦ (some x, w₁)
        | none ↦
            let (r, w₂) = get_migration_logs sql w₁ in
            elim r [
              | err x ↦ (some (wrapped "failed to select migrations state" x), w₂)
              | ok logs ↦ elim (collect order) [
                | err x ↦ (some x, w₂)
                | ok ms ↦ apply_migrations sql ms logs w₂
              ]
            ]
      ]
