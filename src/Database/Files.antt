-- ===== src/Database/Files.antt =====
-- database/migration_fs.go: ParseMigrations over a file system (io/fs), which is given by what
-- ReadDir and Open answer. A name in a directory holds no separator.
pub mod Order
use mathlib.Core.Bool.{Bool}
use platforma.Base.{List, [], ◌∷◌, if◌then◌else◌}
use platforma.Base.Text.{Text, codes, text_eq, ext}
use platforma.Base.Text.Sort.{sort}
use platforma.Base.Errors.{Result, ok, ◌>>=◌, wrap}
use platforma.Database.Parser.{Migration, File, parse_migration_file}

pub record DirEntry : Type 0 where
  pub name : Text
  pub is_dir : Bool

pub record FileSystem : Type 0 where
  pub read_dir : Result (List DirEntry)
  pub open_file : Text → Result File

abbrev pub dot_sql : Text
dot_sql = codes ".sql"

unfoldable pub sql_names : List DirEntry → List Text
sql_names [] = []
sql_names (entry ∷ entries) =
    let rest = sql_names entries in
    if entry.is_dir
    then rest
    else if text_eq (ext entry.name) dot_sql
    then entry.name ∷ rest
    else rest

unfoldable pub parse_files : FileSystem → List Text → Result (List Migration)
parse_files fsys [] = ok []
parse_files fsys (filename ∷ filenames) = do
  migration ←
      wrap "failed to parse migration" (parse_migration_file (fsys.open_file filename) filename)
  migrations ← parse_files fsys filenames
  ok (migration ∷ migrations)

unfoldable pub parse_migrations : FileSystem → Result (List Migration)
unfolding sql_names parse_files
parse_migrations fsys = do
  entries ← wrap "failed to read migrations directory" fsys.read_dir
  parse_files fsys (sort (sql_names entries))
