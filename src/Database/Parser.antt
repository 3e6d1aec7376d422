-- ===== src/Database/Parser.antt =====
-- database/migration_fs.go: parseMigrationFile, line by line. A file is given by its text, which
-- is taken to be UTF-8, and by the error, if any, that reading it ends with.
pub mod Spec
pub mod Meaning
use mathlib.Core.Bool.{Bool, true, false}
use platforma.Base.{
  ℕ, ◌+◌, List, [], ◌∷◌, ◌++◌, Option, none, some, String, leb, ◌==◌, if◌then◌else◌,
}
use platforma.Base.Text.{
  Text, codes, text_eq, trim_right, trim_space, strip_prefix?, trim_suffix, utf8_len,
}
use platforma.Base.Errors.{Error, sentinel, wrapped, Result, ok, err, ◌>>=◌, wrap}

abbrev pub marker_up : Text
marker_up = codes "-- +migrate Up"

abbrev pub marker_down : Text
marker_down = codes "-- +migrate Down"

abbrev pub marker_id : Text
marker_id = codes "-- +migrate ID:"

abbrev pub missing_up_section : Error
missing_up_section = sentinel "database.errMissingUpSection"

abbrev pub empty_id_override : Error
empty_id_override = sentinel "database.errEmptyIDOverride"

abbrev pub duplicate_id_marker : Error
duplicate_id_marker = sentinel "database.errDuplicateIDMarker"

abbrev pub id_marker_not_first : Error
id_marker_not_first = sentinel "database.errIDMarkerNotFirst"

-- `repository` is filled in by Database.Migrate.
pub record Migration : Type 0 where
  pub id : Text
  pub up : Text
  pub down : Text
  pub repository : String

pub data Section : Type 0 where
  up_section down_section : Section

-- The variables of the loop.
pub record ParseState : Type 0 where
  pub id : Text
  pub id_overridden : Bool
  pub any_marker_seen : Bool
  pub up : Text
  pub down : Text
  pub current : Option Section

abbrev pub newline : ℕ
newline = 10

abbrev pub is_cr : ℕ → Bool
is_cr c = c == 13

-- bufio.ScanLines cuts at each newline; a last line without one counts if it is not empty.
cons_line : ℕ → List Text → List Text
cons_line c [] = (c ∷ []) ∷ []
cons_line c (l ∷ ls) = (c ∷ l) ∷ ls

unfoldable pub split_lines : Text → List Text
unfolding cons_line
split_lines [] = []
split_lines (c ∷ s) =
    let rest = split_lines s in if c == newline then [] ∷ rest else cons_line c rest

-- It drops one carriage return at the end of a line.
unfoldable pub drop_cr : Text → Text
drop_cr [] = []
drop_cr (c ∷ []) = if is_cr c then [] else c ∷ []
drop_cr (c ∷ d ∷ s) = c ∷ drop_cr (d ∷ s)

-- bufio.MaxScanTokenSize: a line of so many bytes fills the buffer, and the scanner stops.
abbrev pub max_token : ℕ
max_token = 65536

abbrev pub too_long : Error
too_long = sentinel "bufio.ErrTooLong"

-- The branch of the ID marker; `override` is what follows the marker on its line, trimmed.
set_id : Text → ParseState → Result ParseState
set_id override st =
    if st.id_overridden
    then err duplicate_id_marker
    else if st.any_marker_seen
    then err id_marker_not_first
    else if text_eq override []
    then err empty_id_override
    else ok (record st { id = override; id_overridden = true; any_marker_seen = true })

write_line : Option Section → Text → ParseState → ParseState
write_line none line st = st
write_line (some up_section) line st = record st { up = st.up ++ (line ++ newline ∷ []) }
write_line (some down_section) line st = record st { down = st.down ++ (line ++ newline ∷ []) }

section_step : Text → Text → ParseState → ParseState
unfolding write_line
section_step trimmed line st =
    if text_eq trimmed marker_up
    then record st { current = some up_section; any_marker_seen = true }
    else if text_eq trimmed marker_down
    then record st { current = some down_section; any_marker_seen = true }
    else write_line st.current line st

-- One round of the loop.
unfoldable pub parse_line : Text → ParseState → Result ParseState
unfolding set_id section_step
parse_line text st =
    let line = trim_right is_cr text in
    let trimmed = trim_space line in
    elim (strip_prefix? marker_id trimmed) [
      | some rest ↦ set_id (trim_space rest) st
      | none ↦ ok (section_step trimmed line st)
    ]

-- The loop over the lines, with the scanner's limit on each.
unfoldable pub parse_lines : List Text → ParseState → Result ParseState
unfolding parse_line drop_cr
parse_lines [] st = ok st
parse_lines (raw ∷ rest) st =
    if leb max_token (utf8_len raw)
    then err (wrapped "failed to read file" too_long)
    else parse_line (drop_cr raw) st >>= λ st'. parse_lines rest st'

unfoldable pub start : Text → ParseState
start filename = record {
  id = trim_suffix (codes ".sql") filename;
  id_overridden = false;
  any_marker_seen = false;
  up = [];
  down = [];
  current = none;
}

pub record File : Type 0 where
  pub content : Text
  pub failure : Option Error

-- scanner.Err() after the loop.
check_read : Option Error → ParseState → Result ParseState
check_read none st = ok st
check_read (some e) st = err (wrapped "failed to read file" e)

finish : ParseState → Result Migration
finish st =
    let up = trim_space st.up in
    if text_eq up []
    then err missing_up_section
    else ok (record { id = st.id; up = up; down = trim_space st.down; repository = "" })

unfoldable pub parse_content : File → Text → Result Migration
unfolding parse_lines split_lines start check_read finish
parse_content file filename = do
  st ← parse_lines (split_lines file.content) (start filename)
  st' ← check_read file.failure st
  finish st'

-- `opened` is the outcome of fsys.Open.
unfoldable pub parse_migration_file : Result File → Text → Result Migration
unfolding parse_content
parse_migration_file opened filename =
    wrap "failed to open file" opened >>= λ file. parse_content file filename
