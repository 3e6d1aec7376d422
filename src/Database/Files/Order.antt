-- ===== src/Database/Files/Order.antt =====
-- Which files ParseMigrations reads, in which order, and the IDs that their names give.
use mathlib.Core.Bool.{Bool, true, false}
use mathlib.Core.List.{Perm}
use platforma.Base.{
  ℕ, ◌≡◌, ◌≢◌, ◌⊎◌, refl, ap, sym, subst, ◌∙◌, List, [], ◌∷◌, ◌++◌, length, length-append, arith,
  Bool-cases, inl, inr, ◌==◌, if◌then◌else◌,
}
use platforma.Base.Text.{
  Text, text_eq, text_eq_iff, text_eq_refl, trim_suffix, ExtScan, found, blocked, open_end,
  ext_step, ext_scan, ext,
}
use platforma.Base.Text.Sort.{sort, IsSorted, sort-perm, sort-IsSorted}
use platforma.Base.Errors.{ok, err-ne-ok, Result-cases}
use platforma.Database.Parser.{Migration, parse_migration_file}
use platforma.Database.Files.{
  DirEntry, FileSystem, dot_sql, sql_names, parse_files, parse_migrations,
}

-- Each file gives the migration at its place.
abbrev pub Parsed : FileSystem → List Text → List Migration → Type 0
Parsed fsys [] [] = Unit
Parsed fsys (n ∷ ns) (m ∷ ms) =
    (parse_migration_file (fsys.open_file n) n ≡ ok m) × Parsed fsys ns ms
Parsed fsys [] (_ ∷ _) = ⊥
Parsed fsys (_ ∷ _) [] = ⊥

parse_files-Parsed :
    (fsys : FileSystem) (ns : List Text) (ms : List Migration)
    → parse_files fsys ns ≡ ok ms
    → Parsed fsys ns ms
unfolding parse_files
parse_files-Parsed fsys [] [] e = tt
parse_files-Parsed fsys [] (m ∷ ms) e = cc
parse_files-Parsed fsys (n ∷ ns) [] e = ground arith
parse_files-Parsed fsys (n ∷ ns) (m ∷ ms) e =
    (ground arith, parse_files-Parsed fsys ns ms (ground arith))

abbrev Found : Text → ExtScan → Type 0
Found s (found e) = (front : Text) × (s ≡ front ++ e)
Found s _ = Unit

ext_step-Found : (c : ℕ) (s : Text) (r : ExtScan) → Found s r → Found (c ∷ s) (ext_step c s r)
unfolding ext_step
ext_step-Found c s (found e) (front, h) = (c ∷ front, ap (λ t. c ∷ t) h)
ext_step-Found c s blocked h = tt
ext_step-Found c s open_end h = elim (Bool-cases (c == b'.')) [
  | inl dot ↦ rw dot ([], refl)
  | inr other ↦ rw other (slash (c == b'/'))
]
  where
    slash : (b : Bool) → Found (c ∷ s) (if b then blocked else open_end)
    slash true = tt
    slash false = tt

ext_scan-Found : (s : Text) → Found s (ext_scan s)
unfolding ext_scan
ext_scan-Found [] = tt
ext_scan-Found (c ∷ s) = ext_step-Found c s (ext_scan s) (ext_scan-Found s)

-- A migration file is no directory, and its name ends in ".sql".
abbrev pub IsMigrationFile : DirEntry → Type 0
IsMigrationFile entry = (entry.is_dir ≡ false) × ((front : Text) × (entry.name ≡ front ++ dot_sql))

-- The names of the migration files of a directory, and of nothing else.
abbrev pub Selects : List DirEntry → List Text → Type 0
Selects [] names = names ≡ []
Selects (entry ∷ entries) names =
    (IsMigrationFile entry
      × ((rest : List Text) × (names ≡ entry.name ∷ rest) × Selects entries rest))
    ⊎ ((¬ IsMigrationFile entry) × Selects entries names)

ext_scan-append : (front : Text) → ext_scan (front ++ dot_sql) ≡ found dot_sql
unfolding ext_scan ext_step
ext_scan-append [] = refl
ext_scan-append (c ∷ front) = rw (ext_scan-append front) refl

ext-dot_sql : (front : Text) → text_eq (ext (front ++ dot_sql)) dot_sql ≡ true
unfolding ext
ext-dot_sql front = rw (ext_scan-append front) (text_eq_refl dot_sql)

ends_in_dot_sql :
    (name : Text) → text_eq (ext name) dot_sql ≡ true → (front : Text) × (name ≡ front ++ dot_sql)
unfolding ext text_eq
ends_in_dot_sql name h = go (ext_scan name) refl (ext_scan-Found name)
  where
    go :
        (r : ExtScan)
        → ext_scan name ≡ r
        → Found name r
        → (front : Text) × (name ≡ front ++ dot_sql)
    go (found e) q (front, f) =
        let same : e ≡ dot_sql = (text_eq_iff e dot_sql).0 (rw (q, ext) at h) in
        (front, f ∙ ap (λ t. front ++ t) same)
    go blocked q f = cc (rw (q, ext) at h)
    go open_end q f = cc (rw (q, ext) at h)

sql_names-Selects : (entries : List DirEntry) → Selects entries (sql_names entries)
unfolding sql_names
sql_names-Selects [] = refl
sql_names-Selects (entry ∷ entries) = elim (Bool-cases entry.is_dir) [
  | inl dir ↦
      inr (λ is. not_dir dir is.0, skipped (ground (arith, dir)) (sql_names-Selects entries))
  | inr file ↦ elim (Bool-cases (text_eq (ext entry.name) dot_sql)) [
    | inl sql ↦ inl (
      (file, ends_in_dot_sql entry.name sql),
      (sql_names entries, ground (arith, file, sql), sql_names-Selects entries),
    )
    | inr other ↦ inr (
      λ is. other_name other is.1.0 is.1.1,
      skipped (ground (arith, file, other)) (sql_names-Selects entries),
    )
  ]
]
  where
    skipped :
        sql_names (entry ∷ entries) ≡ sql_names entries
        → Selects entries (sql_names entries)
        → Selects entries (sql_names (entry ∷ entries))
    skipped same = subst (Selects entries) (sym same)

    not_dir : entry.is_dir ≡ true → entry.is_dir ≡ false → ⊥
    not_dir dir file = cc

    other_name :
        text_eq (ext entry.name) dot_sql ≡ false
        → (front : Text) → entry.name ≡ front ++ dot_sql
        → ⊥
    other_name other front whole =
        let ends : text_eq (ext entry.name) dot_sql ≡ true = rw whole (ext-dot_sql front) in cc

-- The migrations come from the files of the directory whose names end in ".sql" and that are no
-- directories, and from nothing else, each once, in the order of the file names.
pub parse_migrations-IsSorted :
    (fsys : FileSystem) (ms : List Migration)
    → parse_migrations fsys ≡ ok ms
    → (entries : List DirEntry) × (picked names : List Text) × (fsys.read_dir ≡ ok entries)
      × Selects entries picked
      × Perm names picked
      × IsSorted names
      × Parsed fsys names ms
unfolding parse_migrations
parse_migrations-IsSorted fsys ms e = elim (Result-cases fsys.read_dir) [
  | inr (x, h) ↦ absurd (err-ne-ok (rw (h, parse_migrations) at e))
  | inl (entries, h) ↦ (
    entries,
    sql_names entries,
    sort (sql_names entries),
    h,
    sql_names-Selects entries,
    sort-perm (sql_names entries),
    sort-IsSorted (sql_names entries),
    parse_files-Parsed fsys (sort (sql_names entries)) ms (rw (h, parse_migrations) at e),
  )
]

longer_ne : (s t : Text) → length s ≢ length t → text_eq s t ≡ false
longer_ne s t h = elim (Bool-cases (text_eq s t)) [
  | inl same ↦ absurd (h (ap length ((text_eq_iff s t).0 same)))
  | inr other ↦ other
]

trim_suffix-append :
    (front : Text) (c : ℕ) (s : Text) → trim_suffix (c ∷ s) (front ++ c ∷ s) ≡ front
unfolding trim_suffix
trim_suffix-append [] c s = rw (text_eq_refl (c ∷ s))
trim_suffix-append (d ∷ front) c s =
    rw (longer_ne (c ∷ s) (d ∷ (front ++ c ∷ s)) (omega (arith, length-append {0} front (c ∷ s))))
      (ap (λ t. d ∷ t) (trim_suffix-append front c s))

-- The name of a .sql file is its default migration ID followed by the extension.
pub default_id-append :
    (name : Text) → text_eq (ext name) dot_sql ≡ true → trim_suffix dot_sql name ++ dot_sql ≡ name
unfolding ext text_eq
default_id-append name h =
    let (front, whole) = ends_in_dot_sql name h in
    rw whole (ap (λ t. t ++ dot_sql) (trim_suffix-append front _ _))
