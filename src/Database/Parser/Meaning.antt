-- ===== src/Database/Parser/Meaning.antt =====
-- parseMigrationFile against the meaning of a file's lines.
use mathlib.Core.List.{append-nil, append_assoc}
use platforma.Base.{
  ◌≡◌, ◌↔◌, ◌≢◌, refl, sym, ap, ◌∙◌, inl, inr, true, false, Option, none, some, List, [], ◌∷◌, ◌++◌,
  All, arith, Option-cases, Bool-cases, leb,
}
use platforma.Base.Text.{Text, text_eq, trim_right, trim_space, strip_prefix?, utf8_len}
use platforma.Base.Errors.{Result, ok, ◌>>=◌, bind-eq-ok, bind_ext, err-ne-ok}
use platforma.Database.Parser.{
  Migration, Section, up_section, down_section, ParseState, File, newline, is_cr, split_lines,
  drop_cr, marker_id, max_token, set_id, write_line, section_step, parse_line, parse_lines, start,
  check_read, finish, parse_content,
}
use platforma.Database.Parser.Spec.{
  Line, id_line, section_line, body_line, classify_plain, classify, section_text, last_section,
  seen, NoId, IdFirst, kinds, IsShort, meaning, stated,
}

-- One round by the kind of its line.
by_kind : Line → ParseState → Result ParseState
by_kind (id_line x) st = set_id x st
by_kind (section_line d) st = ok (record st { current = some d; any_marker_seen = true })
by_kind (body_line l) st = ok (write_line st.current l st)

by_kind-classify_plain :
    (trimmed line : Text) (st : ParseState)
    → ok (section_step trimmed line st) ≡ by_kind (classify_plain trimmed line) st
unfolding by_kind section_step classify_plain
by_kind-classify_plain trimmed line st = ground arith

parse_line-eq-by_kind :
    (text : Text) (st : ParseState) → parse_line text st ≡ by_kind (classify text) st
unfolding parse_line classify
parse_line-eq-by_kind text st =
    elim (Option-cases (strip_prefix? marker_id (trim_space (trim_right is_cr text)))) [
      | inl e ↦ rw (e, parse_line, classify) (by_kind-classify_plain _ _ st)
      | inr (rest, e) ↦ rw (e, parse_line, classify) (unfold by_kind in refl)
    ]

runs : List Line → ParseState → Result ParseState
runs [] st = ok st
runs (l ∷ ls) st = by_kind l st >>= runs ls

parse_lines-cons :
    (raw : Text) (rest : List Text) (st : ParseState)
    → IsShort raw
    → parse_lines (raw ∷ rest) st ≡ (by_kind (classify (drop_cr raw)) st >>= parse_lines rest)
unfolding parse_lines
parse_lines-cons raw rest st short = rw (short, parse_line-eq-by_kind (drop_cr raw) st)

parse_lines-eq-runs :
    (raws : List Text) (st : ParseState)
    → All IsShort raws
    → parse_lines raws st ≡ runs (kinds raws) st
unfolding parse_lines runs
parse_lines-eq-runs [] st h = refl
parse_lines-eq-runs (raw ∷ raws) st h =
    parse_lines-cons raw raws st h.0
    ∙ bind_ext (by_kind (classify (drop_cr raw)) st) (λ st'. parse_lines-eq-runs raws st' h.1)

-- A loop that succeeds has met no long line.
IsShort-of_ok :
    (raws : List Text) (st : ParseState) {st' : ParseState}
    → parse_lines raws st ≡ ok st'
    → All IsShort raws
unfolding parse_lines
IsShort-of_ok [] st e = tt
IsShort-of_ok (raw ∷ raws) st e = elim (Bool-cases (leb max_token (utf8_len raw))) [
  | inl long ↦ absurd (err-ne-ok (rw (long, parse_lines) at e))
  | inr short ↦
      let (st₁, _, later) =
        bind-eq-ok (parse_line (drop_cr raw) st) (parse_lines raws)
          (rw (short, parse_lines) at e) in
      (short, IsShort-of_ok raws st₁ later)
]

-- What the lines add to a state in which no ID marker is allowed any more.
after : List Line → ParseState → ParseState
unfolding section_text last_section seen
after ls st = record st {
  any_marker_seen = seen st.any_marker_seen ls;
  up = st.up ++ section_text up_section st.current ls;
  down = st.down ++ section_text down_section st.current ls;
  current = last_section st.current ls;
}

after_body :
    (l : Text) (ls : List Line) (c : Option Section) (st : ParseState)
    → st.current ≡ c
    → after ls (write_line c l st) ≡ after (body_line l ∷ ls) st
unfolding after write_line
after_body l ls none st e = ground arith
after_body l ls (some up_section) st e =
    ground (arith, append_assoc st.up (l ++ newline ∷ []) (section_text up_section st.current ls))
after_body l ls (some down_section) st e =
    ground
      (arith, append_assoc st.down (l ++ newline ∷ []) (section_text down_section st.current ls))

runs_of_NoId : (ls : List Line) (st : ParseState) → NoId ls → runs ls st ≡ ok (after ls st)
unfolding runs by_kind
runs_of_NoId [] st h = unfold after in ground (arith, append-nil st.up, append-nil st.down)
runs_of_NoId (id_line x ∷ ls) st h = absurd h
runs_of_NoId (section_line d ∷ ls) st h =
    runs_of_NoId ls (record st { current = some d; any_marker_seen = true }) h
    ∙ (unfold after in refl)
runs_of_NoId (body_line l ∷ ls) st h =
    runs_of_NoId ls (write_line st.current l st) h ∙ ap ok (after_body l ls st.current st refl)

set_id_late :
    (x : Text) (st : ParseState) (f : ParseState → Result ParseState) {st' : ParseState}
    → st.any_marker_seen ≡ true
    → (set_id x st >>= f) ≢ ok st'
unfolding set_id
set_id_late x st f h e = ground arith

seen-write_line :
    (c : Option Section) (l : Text) (st : ParseState)
    → (write_line c l st).any_marker_seen ≡ st.any_marker_seen
unfolding write_line
seen-write_line none l st = refl
seen-write_line (some up_section) l st = refl
seen-write_line (some down_section) l st = refl

NoId-of_runs :
    (ls : List Line) (st : ParseState) {st' : ParseState}
    → st.any_marker_seen ≡ true
    → runs ls st ≡ ok st'
    → NoId ls
unfolding runs by_kind
NoId-of_runs [] st h e = tt
NoId-of_runs (id_line x ∷ ls) st h e = set_id_late x st (runs ls) h e
NoId-of_runs (section_line d ∷ ls) st h e =
    NoId-of_runs ls (record st { current = some d; any_marker_seen = true }) refl e
NoId-of_runs (body_line l ∷ ls) st h e =
    NoId-of_runs ls (write_line st.current l st) (seen-write_line st.current l st ∙ h) e

-- From the start: body lines before the first marker change nothing.
runs-start :
    (filename : Text) (ls : List Line)
    → IdFirst ls
    → runs ls (start filename) ≡ ok (meaning filename ls)
unfolding runs by_kind start meaning after write_line set_id
runs-start filename [] h = refl
runs-start filename (id_line x ∷ ls) h = rw (h.0) (runs_of_NoId ls _ h.1)
runs-start filename (section_line d ∷ ls) h = runs_of_NoId ls _ h
runs-start filename (body_line l ∷ ls) h = runs-start filename ls h

IdFirst-of_runs :
    (filename : Text) (ls : List Line) {st' : ParseState}
    → runs ls (start filename) ≡ ok st'
    → IdFirst ls
unfolding runs by_kind start write_line set_id
IdFirst-of_runs filename [] e = tt
IdFirst-of_runs filename (id_line x ∷ ls) e = elim (Bool-cases (text_eq x [])) [
  | inl empty ↦ absurd (err-ne-ok (rw empty at e))
  | inr full ↦ (full, NoId-of_runs ls _ refl (rw full at e))
]
IdFirst-of_runs filename (section_line d ∷ ls) e = NoId-of_runs ls _ refl e
IdFirst-of_runs filename (body_line l ∷ ls) e = IdFirst-of_runs filename ls e

-- The meaning of a file's lines.
abbrev pub file_kinds : File → List Line
file_kinds file = kinds (split_lines file.content)

parse_lines-start :
    (filename : Text) (raws : List Text)
    → All IsShort raws
    → IdFirst (kinds raws)
    → parse_lines raws (start filename) ≡ ok (meaning filename (kinds raws))
parse_lines-start filename raws short first =
    parse_lines-eq-runs raws (start filename) short ∙ runs-start filename (kinds raws) first

parse_content_of_stated :
    (file : File) (filename : Text)
    → All IsShort (split_lines file.content)
    → IdFirst (file_kinds file)
    → file.failure ≡ none
    → text_eq (stated filename (file_kinds file)).up [] ≡ false
    → parse_content file filename ≡ ok (stated filename (file_kinds file))
unfolding parse_content stated
parse_content_of_stated file filename short first read nonempty =
    rw (parse_lines-start filename (split_lines file.content) short first, read, nonempty)

stated_of_finish :
    (file : File) (filename : Text) {m : Migration}
    → (check_read file.failure (meaning filename (file_kinds file)) >>= finish) ≡ ok m
    → (file.failure ≡ none)
      × (text_eq (stated filename (file_kinds file)).up [] ≡ false)
      × (m ≡ stated filename (file_kinds file))
unfolding stated check_read finish
stated_of_finish file filename h = ground arith

parse_content-eq-ok :
    (file : File) (filename : Text) {m : Migration}
    → parse_content file filename ≡ ok m
    → (st : ParseState) × (parse_lines (split_lines file.content) (start filename) ≡ ok st)
      × ((check_read file.failure st >>= finish) ≡ ok m)
unfolding parse_content
parse_content-eq-ok file filename e =
    bind-eq-ok (parse_lines (split_lines file.content) (start filename))
      (λ st. check_read file.failure st >>= finish) e

-- Parsing succeeds exactly when every line fits the scanner, an ID marker stands only before all
-- other markers, once and not empty, the file was read to its end and the Up section is not blank,
-- and then it gives the migration that the lines state.
pub parse_content_iff :
    (file : File) (filename : Text) (m : Migration)
    → (parse_content file filename ≡ ok m) ↔ (
        All IsShort (split_lines file.content)
        × IdFirst (file_kinds file)
        × (file.failure ≡ none)
        × (text_eq (stated filename (file_kinds file)).up [] ≡ false)
        × (m ≡ stated filename (file_kinds file)))
parse_content_iff file filename m = (
  accepted,
  λ (short, first, read, full, e).
      parse_content_of_stated file filename short first read full ∙ ap ok (sym e),
)
  where
    raws : List Text
    raws = split_lines file.content

    accepted :
        parse_content file filename ≡ ok m
        → All IsShort raws
          × IdFirst (file_kinds file)
          × (file.failure ≡ none)
          × (text_eq (stated filename (file_kinds file)).up [] ≡ false)
          × (m ≡ stated filename (file_kinds file))
    accepted e =
        let (st, looped, finished) = parse_content-eq-ok file filename e in
        let short = IsShort-of_ok raws (start filename) looped in
        let first =
          IdFirst-of_runs filename (file_kinds file)
            (sym (parse_lines-eq-runs raws (start filename) short) ∙ looped) in
        let same : st ≡ meaning filename (file_kinds file) =
          cc (looped, parse_lines-start filename raws short first) in
        let (read, full, m_eq) = stated_of_finish file filename (rw same at finished) in
        (short, first, read, full, m_eq)
