-- ===== src/Demo/Database.antt =====
-- demo-app/cmd/database/main.go: a program that migrates a database, adds a user and lists the users.
pub mod Rows
use platforma.Base.{ℕ, String, Bool, List, [], ◌∷◌, Option, none, some, str_eq, if◌then◌else◌}
use platforma.Base.Errors.{Error, Result, ok, err}
use platforma.Base.Action.{Action}
use platforma.Database.Files.{FileSystem}
use platforma.Database.Service.{Sql}
use platforma.Database.Migrate.{Database, migrator, register_repository, migrate}

pub record User : Type 0 where
  pub id : ℕ
  pub name : String
  pub email : String

-- What the program asks of the table users.
pub record UserRepository (W : Type 0) : Type 0 where
  pub create : (name email : String) → Action W User  -- the row that INSERT ... RETURNING gives
  pub get_all : Action W (List User)

-- What the program has printed when it ends, or the message with which it exits with status 1.
pub data Outcome : Type 0 where
  printed : List User → Outcome
  failed : String → Option Error → Outcome

module _ (sql : Sql) (users : UserRepository (sql.World)) (migrations : FileSystem) where
  open sql use {World}

  abbrev listed : Result (List User) × World → Outcome × World
  listed (ok found, w) = (printed found, w)
  listed (err e, w) = (failed "failed to get users" (some e), w)

  abbrev pub created : Result User × World → Outcome × World
  created (ok user, w) = listed (users.get_all w)
  created (err e, w) = (failed "failed to create user" (some e), w)

  abbrev migrated : Option Error × World → Outcome × World
  migrated (none, w) = created (users.create "John Doe" "john@example.com" w)
  migrated (some e, w) = (failed "failed to run migrations" (some e), w)

  abbrev connected : Result Database × World → Outcome × World
  connected (err e, w) = (failed "failed to connect to database" (some e), w)
  connected (ok db, w) =
      migrated (migrate sql (register_repository "users" (migrator migrations) db).migrators w)

  -- `connect` is database.New, and `url` the environment variable DATABASE_URL.
  unfoldable pub main :
      (String → World → Result Database × World) → String → World → Outcome × World
  unfolding register_repository migrate
  main connect url w =
      if str_eq url ""
      then (failed "DATABASE_URL environment variable is not set" none, w)
      else connected (connect url w)
