-- ===== src/Demo/Auth/Setup.antt =====
-- The application of demo-app/cmd/auth/main.go, and the migrations that its domains embed.
use platforma.Base.{ℕ, false, String, List, [], ◌∷◌, ◌++◌, Option, none, some}
use platforma.Base.Text.{Text, codes}
use platforma.Base.Errors.{ok}
use platforma.Database.Parser.{newline}
use platforma.Database.Files.{FileSystem}
use platforma.Database.Migrate.{migrator}
use platforma.Application.{Application, Healthchecker, register_service}
use platforma.Application.Registry.{Databases, new_application, register_database, register_domain}
use platforma.Demo.Auth.{◌>>=◌}

abbrev lines : List String → Text
lines [] = []
lines (l ∷ ls) = codes l ++ newline ∷ lines ls

-- embed.FS with one file.
abbrev embedded : String → List String → FileSystem
embedded name content = record {
  read_dir = ok (record { name = codes name; is_dir = false } ∷ []);
  open_file = λ _. ok (record { content = lines content; failure = none });
}

abbrev pub session_files : FileSystem
session_files = embedded "1770095236_init.sql" (
    "-- +migrate Up" ∷ "CREATE TABLE IF NOT EXISTS sessions (" ∷ "\tid VARCHAR(255) PRIMARY KEY,"
    ∷ "\t\"user\" VARCHAR(255)," ∷ "\tcreated TIMESTAMP," ∷ "\texpires TIMESTAMP" ∷ ");" ∷ ""
    ∷ "-- +migrate Down" ∷ "DROP TABLE sessions;" ∷ [])

abbrev pub auth_files : FileSystem
auth_files = embedded "1770095236_init.sql" (
    "-- +migrate Up" ∷ "CREATE TABLE IF NOT EXISTS users (" ∷ "\tid VARCHAR(255) PRIMARY KEY,"
    ∷ "\tusername VARCHAR(255) UNIQUE," ∷ "\tpassword TEXT," ∷ "\tsalt TEXT,"
    ∷ "\tcreated TIMESTAMP," ∷ "\tupdated TIMESTAMP," ∷ "\tstatus VARCHAR(50)" ∷ ");" ∷ ""
    ∷ "-- +migrate Down" ∷ "DROP TABLE users;" ∷ [])

module _ {W : Type 0} where
  -- `address` is that of the database; `api` is the server, and `check` what its Healthcheck says.
  unfoldable pub new_app : (Runner : Type 0) → Runner → Healthchecker W → ℕ → Application W
  unfolding new_application register_database register_service
  new_app Runner api check address =
      register_service (register_database "main" address (new_application Runner)) "api" api
        (some check)

  -- What the two calls of RegisterDomain do to the databases.
  unfoldable pub register_domains : Application W → Databases → Option Databases
  unfolding register_domain
  register_domains app dbs = do
    dbs₁ ← register_domain app "session" "main" (migrator session_files) dbs
    register_domain app "auth" "main" (migrator auth_files) dbs₁
