-- ===== src/Database/Parser/Spec.antt =====
-- What a migration file means, stated on the kinds of its lines.
use platforma.Base.{
  ◌≡◌, Bool, true, false, Option, none, some, List, [], ◌∷◌, ◌++◌, map, leb, if◌then◌else◌,
}
use platforma.Base.Text.{
  Text, codes, text_eq, trim_right, trim_space, strip_prefix?, trim_suffix, utf8_len,
}
use platforma.Database.Parser.{
  Migration, Section, up_section, down_section, ParseState, newline, is_cr, drop_cr, marker_id,
  marker_up, marker_down, max_token,
}

pub data Line : Type 0 where
  id_line : Text → Line
  section_line : Section → Line
  body_line : Text → Line

unfoldable pub classify_plain : Text → Text → Line
classify_plain trimmed line =
    if text_eq trimmed marker_up
    then section_line up_section
    else if text_eq trimmed marker_down
    then section_line down_section
    else body_line line

unfoldable pub classify : Text → Line
unfolding classify_plain
classify text =
    let line = trim_right is_cr text in
    elim (strip_prefix? marker_id (trim_space line)) [
      | some rest ↦ id_line (trim_space rest)
      | none ↦ classify_plain (trim_space line) line
    ]

abbrev pub is_up : Section → Bool
is_up up_section = true
is_up down_section = false

-- Whether a line that stands in section `c` belongs to section `s`.
abbrev pub belongs : Section → Option Section → Bool
belongs s none = false
belongs up_section (some c) = is_up c
belongs down_section (some c) = if is_up c then false else true

-- The text of section `s` in lines that begin in section `c`.
unfoldable pub section_text : Section → Option Section → List Line → Text
section_text s c [] = []
section_text s c (id_line x ∷ ls) = section_text s c ls
section_text s c (section_line d ∷ ls) = section_text s (some d) ls
section_text s c (body_line l ∷ ls) =
    (if belongs s c then l ++ newline ∷ [] else []) ++ section_text s c ls

unfoldable pub last_section : Option Section → List Line → Option Section
last_section c [] = c
last_section c (section_line d ∷ ls) = last_section (some d) ls
last_section c (_ ∷ ls) = last_section c ls

-- The ID that the first marker gives, if it is an ID marker.
unfoldable pub leading_id : List Line → Option Text
leading_id [] = none
leading_id (id_line x ∷ ls) = some x
leading_id (section_line d ∷ ls) = none
leading_id (body_line l ∷ ls) = leading_id ls

abbrev pub NoId : List Line → Type 0
NoId [] = Unit
NoId (id_line x ∷ ls) = ⊥
NoId (_ ∷ ls) = NoId ls

-- An ID marker stands before every other marker, is not empty and is the only one.
abbrev pub IdFirst : List Line → Type 0
IdFirst [] = Unit
IdFirst (id_line x ∷ ls) = (text_eq x [] ≡ false) × NoId ls
IdFirst (section_line d ∷ ls) = NoId ls
IdFirst (body_line l ∷ ls) = IdFirst ls

abbrev pub kinds : List Text → List Line
kinds raws = map (λ raw. classify (drop_cr raw)) raws

-- A line that the scanner's buffer holds.
abbrev pub IsShort : Text → Type 0
IsShort raw = leb max_token (utf8_len raw) ≡ false

-- Whether a marker was seen, at the end of lines before which `b` says it.
unfoldable pub seen : Bool → List Line → Bool
seen b [] = b
seen b (body_line l ∷ ls) = seen b ls
seen b (_ ∷ ls) = seen true ls

abbrev pub has_id : Option Text → Bool
has_id none = false
has_id (some x) = true

abbrev pub id_or : Option Text → Text → Text
id_or none x = x
id_or (some y) x = y

-- The variables of the loop behind lines of these kinds.
unfoldable pub meaning : Text → List Line → ParseState
unfolding section_text last_section leading_id seen
meaning filename ls = record {
  id = id_or (leading_id ls) (trim_suffix (codes ".sql") filename);
  id_overridden = has_id (leading_id ls);
  any_marker_seen = seen false ls;
  up = section_text up_section none ls;
  down = section_text down_section none ls;
  current = last_section none ls;
}

-- The migration that a readable file of these lines states.
unfoldable pub stated : Text → List Line → Migration
unfolding meaning
stated filename ls = record {
  id = (meaning filename ls).id;
  up = trim_space (meaning filename ls).up;
  down = trim_space (meaning filename ls).down;
  repository = "";
}
