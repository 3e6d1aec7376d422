-- ===== src/Demo/Database/Rows.antt =====
-- What demo-app/cmd/database/main.go prints.
use platforma.Base.{
  ◌≡◌, ◌≢◌, String, List, ◌∷◌, ◌++◌, none, arith, str_eq, eq_iff, Bool-cases, inl, inr,
  Option-cases,
}
use platforma.Base.Errors.{Result, ok, Result-cases}
use platforma.Database.Files.{FileSystem}
use platforma.Database.Service.{Sql}
use platforma.Database.Migrate.{Database, migrator, register_repository, migrate}
use platforma.Demo.Database.{User, UserRepository, printed, created, main}

-- A table from which a SELECT gives the rows, the last one inserted first or later.
pub record UserTable {W : Type 0} (users : UserRepository W) : Type 1 where
  pub Stored : User → W → Type 0
  pub inserted :
      (name email : String) (user : User) (w : W)
      → (users.create name email w).0 ≡ ok user
      → (user.name ≡ name) × (user.email ≡ email) × Stored user (users.create name email w).1
  pub listed :
      (user : User) (found : List User) (w : W)
      → Stored user w
      → (users.get_all w).0 ≡ ok found
      → (before after : List User) × (found ≡ before ++ user ∷ after)

module _ (sql : Sql) (users : UserRepository (sql.World)) (table : UserTable users)
    (migrations : FileSystem) where
  open sql use {World}

  printed-created :
      (found : List User) (w w' : World)
      → created sql users migrations (users.create "John Doe" "john@example.com" w)
        ≡ (printed found, w')
      → (user : User) × (before after : List User) × (user.name ≡ "John Doe")
        × (user.email ≡ "john@example.com")
        × (found ≡ before ++ user ∷ after)
  printed-created found w w' h =
      elim (Result-cases (users.create "John Doe" "john@example.com" w).0) [
        | inr (e, refused) ↦ absurd (ground (arith, refused))
        | inl (user, added) ↦
            let (named, mailed, stored) =
              table.inserted "John Doe" "john@example.com" user w added in
            elim (Result-cases (users.get_all (users.create "John Doe" "john@example.com" w).1).0) [
              | inr (e, refused) ↦ absurd (ground (arith, added, refused))
              | inl (rows, selected) ↦
                  let (before, after, split) =
                    table.listed user rows (users.create "John Doe" "john@example.com" w).1 stored
                      selected in
                  (user, before, after, named, mailed, ground (arith, added, selected, split, h))
            ]
      ]

  -- Over a table whose rows are found again: if the program prints a list of users, then the
  -- environment variable was set, its migrations were applied, and the user it has added stands in
  -- the list.
  pub main-printed :
      (connect : String → World → Result Database × World) (url : String) (found : List User)
      (w w' : World)
      → main sql users migrations connect url w ≡ (printed found, w')
      → (url ≢ "")
        × (db : Database) × ((connect url w).0 ≡ ok db)
        × ((migrate sql
              (register_repository "users" (migrator migrations) db).migrators
              (connect url w).1).0
            ≡ none)
        × (user : User) × (before after : List User) × (user.name ≡ "John Doe")
        × (user.email ≡ "john@example.com")
        × (found ≡ before ++ user ∷ after)
  unfolding main
  main-printed connect url found w w' h = elim (Bool-cases (str_eq url "")) [
    | inl unset ↦ absurd (ground (arith, unset))
    | inr set ↦ elim (Result-cases (connect url w).0) [
      | inr (e, refused) ↦ absurd (ground (arith, set, refused))
      | inl (db, open_db) ↦
          let moved =
            migrate sql (register_repository "users" (migrator migrations) db).migrators
              (connect url w).1 in
          elim (Option-cases moved.0) [
            | inr (e, broken) ↦ absurd (ground (arith, set, open_db, broken))
            | inl clean ↦
                let (user, before, after, named, mailed, split) =
                  printed-created found moved.1 w' (ground (arith, set, open_db, clean, h)) in
                (
                  ground (arith, set, eq_iff url ""),
                  db,
                  open_db,
                  clean,
                  user,
                  before,
                  after,
                  named,
                  mailed,
                  split,
                )
          ]
    ]
  ]
