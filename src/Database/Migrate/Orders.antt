-- ===== src/Database/Migrate/Orders.antt =====
-- Migrate in whatever order the range statement meets the registered repositories.
use mathlib.Core.List.{append-nil}
use platforma.Base.{
  ◌≡◌, refl, ap, sym, ◌∙◌, String, List, [], ◌∷◌, ◌++◌, map, Option, none, some, inl, inr,
  Bool-cases, str_eq, eq_iff, arith, if◌then◌else◌,
}
use platforma.Base.Dict.{lookup, HasDistinctKeys, SameEntries}
use platforma.Base.Errors.{Result, ok, err, Result-cases}
use platforma.Database.Parser.{Migration}
use platforma.Database.Files.{FileSystem, parse_migrations}
use platforma.Database.Service.{MigrationLog, contains_log}
use platforma.Database.Service.Effects.{pending}
use platforma.Database.Migrate.{in_repository, collect}

-- The migrations of one repository, in their order.
unfoldable pub of_repository : String → List Migration → List Migration
of_repository name [] = []
of_repository name (m ∷ ms) =
    let rest = of_repository name ms in if str_eq m.repository name then m ∷ rest else rest

abbrev parsed_of : Result (List Migration) → List Migration
parsed_of (ok ms) = ms
parsed_of (err e) = []

-- The migrations of a repository that is registered, or is not.
abbrev pub stated : String → Option FileSystem → List Migration
stated name none = []
stated name (some fsys) = map (in_repository name) (parsed_of (parse_migrations fsys))

of_repository-append :
    (name : String) (before after : List Migration)
    → of_repository name (before ++ after) ≡ of_repository name before ++ of_repository name after
unfolding of_repository
of_repository-append name [] after = refl
of_repository-append name (m ∷ before) after = elim (Bool-cases (str_eq m.repository name)) [
  | inl same ↦ rw same (ap (λ ms. m ∷ ms) (of_repository-append name before after))
  | inr differs ↦ rw differs (of_repository-append name before after)
]

of_repository-own :
    (name other : String) (ms : List Migration)
    → of_repository name (map (in_repository other) ms)
      ≡ (if str_eq other name then map (in_repository other) ms else [])
unfolding of_repository in_repository
of_repository-own name other [] = ground arith
of_repository-own name other (m ∷ ms) = elim (Bool-cases (str_eq other name)) [
  | inl same ↦ rw same (
      ap (λ ms. record m { repository = other } ∷ ms)
        (of_repository-own name other ms ∙ rw same refl))
  | inr differs ↦ rw differs (of_repository-own name other ms ∙ rw differs refl)
]

of_repository-pending :
    (name : String) (logs : List MigrationLog) (ms : List Migration)
    → of_repository name (pending logs ms) ≡ pending logs (of_repository name ms)
unfolding of_repository pending
of_repository-pending name logs [] = refl
of_repository-pending name logs (m ∷ ms) = elim (Bool-cases (contains_log m.repository m.id logs)) [
  | inl logged ↦ ground (arith, logged, of_repository-pending name logs ms)
  | inr new ↦ ground (arith, new, of_repository-pending name logs ms)
]

-- What the two steps of the loop gave.
pub collect-ok :
    (other : String) (fsys : FileSystem) (order : List (String × FileSystem)) (ms : List Migration)
    → collect ((other, fsys) ∷ order) ≡ ok ms
    → (parsed more : List Migration) × (parse_migrations fsys ≡ ok parsed)
      × (collect order ≡ ok more)
      × (ms ≡ map (in_repository other) parsed ++ more)
unfolding collect
collect-ok other fsys order ms c = elim (Result-cases (parse_migrations fsys)) [
  | inr (e, refused) ↦ absurd (ground (arith, refused))
  | inl (parsed, p) ↦ elim (Result-cases (collect order)) [
    | inr (e, refused) ↦ absurd (ground (arith, p, refused))
    | inl (more, m) ↦ (parsed, more, p, m, ground (arith, p, m))
  ]
]

of_repository-collect :
    (name : String) (order : List (String × FileSystem)) (ms : List Migration)
    → HasDistinctKeys order
    → collect order ≡ ok ms
    → of_repository name ms ≡ stated name (lookup name order)
unfolding lookup HasDistinctKeys collect of_repository
of_repository-collect name [] ms d c = ap (of_repository name) (nothing c)
  where
    nothing : ok [] ≡ ok ms → ms ≡ []
    nothing e = cc
of_repository-collect name ((other, fsys) ∷ order) ms (fresh, d) c =
    let (parsed, more, p, m, split) = collect-ok other fsys order ms c in
    rw split (
      of_repository-append name (map (in_repository other) parsed) more
      ∙ rw (of_repository-own name other parsed, of_repository-collect name order more d m)
          (elim (Bool-cases (str_eq other name)) [
            | inl same ↦ rw (same, ← (eq_iff other name).0 same, fresh, p) (append-nil _)
            | inr differs ↦ rw differs refl
          ]))

-- Every directory was parsed.
collect-parsed :
    (name : String) (fsys : FileSystem) (order : List (String × FileSystem)) (ms : List Migration)
    → collect order ≡ ok ms
    → lookup name order ≡ some fsys
    → (parsed : List Migration) × (parse_migrations fsys ≡ ok parsed)
unfolding lookup
collect-parsed name fsys [] ms c h = cc
collect-parsed name fsys ((other, fsys') ∷ order) ms c h =
    let (parsed, more, p, m, split) = collect-ok other fsys' order ms c in
    elim (Bool-cases (str_eq other name)) [
      | inl same ↦ (parsed, ground (arith, same, p))
      | inr differs ↦ collect-parsed name fsys order more m (ground (arith, differs))
    ]

-- If every directory can be parsed, all are collected.
collect-total :
    (order : List (String × FileSystem))
    → HasDistinctKeys order
    → ((name : String) (fsys : FileSystem)
        → lookup name order ≡ some fsys
        → (parsed : List Migration) × (parse_migrations fsys ≡ ok parsed))
    → (ms : List Migration) × (collect order ≡ ok ms)
unfolding lookup HasDistinctKeys collect
collect-total [] d all = ([], refl)
collect-total ((name, fsys) ∷ order) (fresh, d) all =
    let (parsed, p) = all name fsys (ground (arith, eq_iff name name)) in
    let (more, m) = collect-total order d later in
    (map (in_repository name) parsed ++ more, ground (arith, p, m))
  where
    later :
        (key : String) (fsys' : FileSystem)
        → lookup key order ≡ some fsys'
        → (parsed : List Migration) × (parse_migrations fsys' ≡ ok parsed)
    later key fsys' h = elim (Bool-cases (str_eq name key)) [
      | inl same ↦ absurd (ground (arith, same, h, fresh, eq_iff name key))
      | inr differs ↦ all key fsys' (ground (arith, differs, h))
    ]

-- In whatever order Go walks the map of the migrators, Migrate collects the same migrations or fails:
-- if one order succeeds, then so does any other, and for each repository it has the same migrations
-- in the same order, those of its own directory, and the same ones of them are pending.
pub collect_any_order :
    (order order' : List (String × FileSystem)) (ms : List Migration) (logs : List MigrationLog)
    → HasDistinctKeys order
    → HasDistinctKeys order'
    → SameEntries order order'
    → collect order ≡ ok ms
    → (ms' : List Migration) × (collect order' ≡ ok ms')
      × ((name : String)
          → (of_repository name ms' ≡ stated name (lookup name order))
            × (of_repository name ms' ≡ of_repository name ms)
            × (of_repository name (pending logs ms') ≡ of_repository name (pending logs ms)))
collect_any_order order order' ms logs d d' same c =
    let (ms', c') =
      collect-total order' d'
        (λ name fsys h. collect-parsed name fsys order ms c (same name ∙ h)) in
    let stated' : (name : String) → of_repository name ms' ≡ stated name (lookup name order) =
      λ name. of_repository-collect name order' ms' d' c' ∙ ap (stated name) (sym (same name)) in
    let agree : (name : String) → of_repository name ms' ≡ of_repository name ms =
      λ name. stated' name ∙ sym (of_repository-collect name order ms d c) in
    (
      ms',
      c',
      λ name. (
        stated' name,
        agree name,
        of_repository-pending name logs ms'
            ∙ ap (pending logs) (agree name)
            ∙ sym (of_repository-pending name logs ms),
      ),
    )
