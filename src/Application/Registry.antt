-- ===== src/Application/Registry.antt =====
-- application/application.go: the databases of an application, which are shared by address, and the
-- repositories of its domains; health.go and healthcheck.go: what the health check answers.
pub mod Migrating
pub mod Reports
use Prim.Native.String.{◌++◌ as ◌+s+◌}
use platforma.Base.{
  ◌≡◌, ◌≢◌, ◌⊎◌, inl, inr, Bool-cases, Option-cases, ℕ, String, List, [], ◌∷◌, Option, none, some,
  str_eq, eq_iff, ◌==◌, ==_iff, arith, if◌then◌else◌,
}
use platforma.Base.Dict.{lookup, insert, lookup-insert}
use platforma.Base.Errors.{Error, Result}
use platforma.Database.Files.{FileSystem}
use platforma.Database.Migrate.{Repository, plain, migrator, Database, register_repository}
use platforma.HttpServer.Responses.{Writer, write_json}
use platforma.Application.{Application, Healthchecker, Health, new_health, set_service_data}

-- The databases that the program has made, by address.
abbrev pub Databases : Type 0
Databases = ℕ → Database

unfoldable pub register_shared : ℕ → String → Repository → Databases → Databases
unfolding register_repository
register_shared address name repository dbs a =
    if a == address then register_repository name repository (dbs a) else dbs a

-- An unknown name gives a nil database, and a panic.
abbrev register_at : Option ℕ → String → Repository → Databases → Option Databases
register_at none name repository dbs = none
register_at (some address) name repository dbs = some (register_shared address name repository dbs)

module _ {W : Type 0} where
  unfoldable pub new_application : Type 0 → Application W
  unfolding new_health
  new_application Runner = record {
    Runner = Runner;
    startup_tasks = [];
    services = [];
    healthcheckers = [];
    databases = [];
    health = new_health;
  }

  unfoldable pub register_database : String → ℕ → Application W → Application W
  register_database name address app = record app { databases = insert name address app.databases }

  unfoldable pub register_in_database :
      Application W → (db_name repo_name : String) → Repository → Databases → Option Databases
  unfolding lookup register_shared
  register_in_database app db_name repo_name repository dbs =
      register_at (lookup db_name app.databases) repo_name repository dbs

  -- `repository` is what the domain's GetRepository gives.
  unfoldable pub register_domain :
      Application W → (name db_name : String) → Repository → Databases → Option Databases
  unfolding register_in_database
  register_domain app name db_name repository dbs =
      let registered = register_in_database app db_name (name +s+ "_repository") repository dbs in
      if str_eq db_name "" then some dbs else registered

  -- Application.Health, over the healthcheckers in the order in which the range statement meets them:
  -- each is called in the world that the one before it left.
  unfoldable pub report_health : List (String × Healthchecker W) → Health → W → Health × W
  unfolding set_service_data
  report_health [] h w = (h, w)
  report_health ((name, check) ∷ checkers) h w =
      let (said, w') = check w in report_health checkers (set_service_data name said h) w'

  -- HealthCheckHandler.ServeHTTP; `encode` is what json.Encoder makes of the health.
  unfoldable pub health_check_serve :
      (Health → Result String) → Application W → W → Writer → (Option Error × Writer) × W
  unfolding report_health write_json
  health_check_serve encode app w writer =
      let (h, w') = report_health app.healthcheckers app.health w in
      (write_json 200 (encode h) writer, w')

-- The migrations that stand under a repository's name once it is registered.
abbrev migrations_after : Repository → Option FileSystem → Option FileSystem
migrations_after plain old = old
migrations_after (migrator fsys) old = some fsys

-- What a database has under a key once a repository is registered under a name.
abbrev pub IsRegistered : String → Repository → (db db' : Database) → (key : String) → Type 0
IsRegistered name repository db db' key =
    (lookup key db'.repositories
      ≡ (if str_eq name key then some repository else lookup key db.repositories))
    × (lookup key db'.migrators ≡ (
        if str_eq name key
        then migrations_after repository (lookup key db.migrators)
        else lookup key db.migrators))

register_repository-IsRegistered :
    (name : String) (repository : Repository) (db : Database) (key : String)
    → IsRegistered name repository db (register_repository name repository db) key
unfolding register_repository
register_repository-IsRegistered name plain db key =
    (lookup-insert name key plain db.repositories, ground arith)
register_repository-IsRegistered name (migrator fsys) db key = (
  lookup-insert name key (migrator fsys) db.repositories,
  lookup-insert name key fsys db.migrators,
)

register_shared-IsRegistered :
    (address a : ℕ) (name : String) (repository : Repository) (dbs : Databases) (key : String)
    → let dbs' = register_shared address name repository dbs in
      ((a ≢ address) × (dbs' a ≡ dbs a))
      ⊎ ((a ≡ address) × IsRegistered name repository (dbs a) (dbs' a) key)
unfolding register_shared
register_shared-IsRegistered address a name repository dbs key = elim (Bool-cases (a == address)) [
  | inl same ↦ inr (
    ground (arith, ==_iff a address),
    rw same (register_repository-IsRegistered name repository (dbs a) key),
  )
  | inr differs ↦ inl (ground (arith, ==_iff a address), ground (arith, differs))
]

module _ {W : Type 0} where
  -- RegisterDomain changes nothing for an empty database name, and panics for an unknown one. For any
  -- other it puts the domain's repository, under the domain's name with _repository behind it, into
  -- the database at the address of that name, and its migrations if it has any; whatever has another
  -- key or another address stays.
  pub register_domain_lem :
      (app : Application W) (name db_name : String) (repository : Repository) (dbs : Databases)
      (key : String) (a : ℕ)
      → let result = register_domain app name db_name repository dbs in
        ((db_name ≡ "") × (result ≡ some dbs))
        ⊎ ((db_name ≢ "") × (lookup db_name app.databases ≡ none) × (result ≡ none))
        ⊎ ((db_name ≢ "")
            × ((address : ℕ) × (dbs' : Databases) × ((lookup db_name app.databases ≡ some address)
                  × (result ≡ some dbs')
                  × (((a ≢ address) × (dbs' a ≡ dbs a))
                      ⊎ ((a ≡ address)
                          × IsRegistered
                              (name +s+ "_repository")
                              repository
                              (dbs a)
                              (dbs' a)
                              key)))))
  unfolding register_domain
  register_domain_lem app name db_name repository dbs key a =
      elim (Bool-cases (str_eq db_name "")) [
        | inl empty ↦ inl (ground (arith, eq_iff db_name ""), ground (arith, empty))
        | inr filled ↦ inr (elim (Option-cases (lookup db_name app.databases)) [
          | inl unknown ↦
              inl (ground (arith, eq_iff db_name ""), unknown, ground (arith, filled, unknown))
          | inr (address, known) ↦ inr (
            ground (arith, eq_iff db_name ""),
            (
              address,
              register_shared address (name +s+ "_repository") repository dbs,
              (
                known,
                ground (arith, filled, known),
                register_shared-IsRegistered address a _ repository dbs key,
              ),
            ),
          )
        ])
      ]
