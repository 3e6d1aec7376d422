-- ===== src/Tests/Parsing.antt =====
-- database/migration_fs.go on a small directory.
use mathlib.Core.List.{Perm}
use platforma.Base.{◌≡◌, refl, true, false, List, [], ◌∷◌, ◌++◌, none}
use platforma.Base.Text.{Text, codes, text_eq, trim_space, ext, utf8_len, strip_prefix?}
use platforma.Base.Text.Sort.{IsSorted, sort}
use platforma.Base.Errors.{ok, err}
use platforma.Database.Parser.{
  Migration, File, parse_migration_file, newline, parse_content, id_marker_not_first,
}
use platforma.Database.Parser.Spec.{stated}
use platforma.Database.Parser.Meaning.{file_kinds, parse_content_iff}
use platforma.Database.Files.{DirEntry, FileSystem, parse_migrations}
use platforma.Database.Files.Order.{Parsed, Selects, parse_migrations-IsSorted}

abbrev line : Text → Text → Text
line l rest = l ++ newline ∷ rest

-- An ID marker, then both sections.
abbrev users_file : File
users_file = record {
  content = line (codes "-- +migrate ID: users") (
      line (codes "-- +migrate Up") (
        line (codes "CREATE TABLE users;")
          (line (codes "-- +migrate Down") (codes "DROP TABLE users;"))));
  failure = none;
}

abbrev pub users_migration : Migration
users_migration = record {
  id = codes "users";
  up = codes "CREATE TABLE users;";
  down = codes "DROP TABLE users;";
  repository = "";
}

parse_users : parse_content users_file (codes "1.sql") ≡ ok users_migration
unfolding parse_content utf8_len strip_prefix? trim_space text_eq
parse_users = refl

-- The same file with its first line last.
abbrev late_id_file : File
late_id_file = record {
  content =
      line (codes "-- +migrate Up")
        (line (codes "CREATE TABLE users;") (line (codes "-- +migrate ID: users") []));
  failure = none;
}

parse_late_id : parse_content late_id_file (codes "1.sql") ≡ err id_marker_not_first
unfolding parse_content utf8_len strip_prefix? trim_space text_eq
parse_late_id = refl

parse_content_iff_example : users_migration ≡ stated (codes "1.sql") (file_kinds users_file)
parse_content_iff_example =
    ((parse_content_iff users_file (codes "1.sql") users_migration).0 parse_users).4

abbrev file_entry : Text → DirEntry
file_entry name = record { name = name; is_dir = false }

-- Names out of order, a directory, and a file of another kind.
abbrev pub directory : FileSystem
directory = record {
  read_dir = ok (
      file_entry (codes "2.sql")
      ∷ record { name = codes "3.sql"; is_dir = true }
      ∷ file_entry (codes "1.sql")
      ∷ file_entry (codes "notes.md")
      ∷ []);
  open_file = λ _. ok users_file;
}

pub parse_directory : parse_migrations directory ≡ ok (users_migration ∷ users_migration ∷ [])
unfolding parse_migrations sort parse_migration_file parse_content ext text_eq utf8_len
    strip_prefix? trim_space
parse_directory = refl

parse_migrations-IsSorted_example :
    (entries : List DirEntry) × (picked names : List Text) × (directory.read_dir ≡ ok entries)
    × Selects entries picked
    × Perm names picked
    × IsSorted names
    × Parsed directory names (users_migration ∷ users_migration ∷ [])
parse_migrations-IsSorted_example =
    parse_migrations-IsSorted directory (users_migration ∷ users_migration ∷ []) parse_directory
