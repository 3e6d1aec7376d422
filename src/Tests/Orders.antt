-- ===== src/Tests/Orders.antt =====
-- Two orders of one Go map.
use platforma.Base.{
  ◌+◌, ◌==◌, if◌then◌else◌, ◌≡◌, refl, String, List, [], ◌∷◌, some, str_eq, Bool-cases, inl, inr,
  eq_iff, ℕ,
}
use platforma.Base.Dict.{lookup, HasDistinctKeys, SameEntries}
use platforma.Base.Errors.{ok, err, foreign}
use platforma.Base.Text.{text_eq, ext, utf8_len, strip_prefix?, trim_space}
use platforma.Base.Text.Sort.{sort}
use platforma.Database.Parser.{Migration, parse_migration_file, parse_content}
use platforma.Database.Files.{FileSystem, parse_migrations}
use platforma.Database.Service.Effects.{pending}
use platforma.Database.Migrate.{collect, in_repository}
use platforma.Database.Migrate.Orders.{of_repository, stated, collect_any_order}
use platforma.Application.{Healthchecker, Health, fresh}
use platforma.Application.Registry.{report_health}
use platforma.Application.Registry.Reports.{called, said, reported, report_health_in_turn}
use platforma.Tests.Parsing.{directory, users_migration}

module _ {V : Type 0} (a b : V) where
  abbrev one_way : List (String × V)
  one_way = ("users", a) ∷ ("posts", b) ∷ []

  abbrev other_way : List (String × V)
  other_way = ("posts", b) ∷ ("users", a) ∷ []

  one_way-HasDistinctKeys : HasDistinctKeys one_way
  unfolding HasDistinctKeys lookup
  one_way-HasDistinctKeys = (refl, (refl, tt))

  other_way-HasDistinctKeys : HasDistinctKeys other_way
  unfolding HasDistinctKeys lookup
  other_way-HasDistinctKeys = (refl, (refl, tt))

  both_ways : SameEntries one_way other_way
  unfolding lookup
  both_ways key = elim (Bool-cases (str_eq "users" key)) [
    | inl same ↦ rw (← (eq_iff "users" key).0 same) refl
    | inr differs ↦ rw differs refl
  ]

abbrev empty_directory : FileSystem
empty_directory = record { read_dir = ok []; open_file = λ _. err (foreign "file does not exist") }

abbrev collected : List Migration
collected =
    record users_migration { repository = "users" }
    ∷ record users_migration { repository = "users" }
    ∷ []

collects : collect (one_way directory empty_directory) ≡ ok collected
unfolding collect parse_migrations sort parse_migration_file parse_content ext text_eq utf8_len
    strip_prefix? trim_space in_repository
collects = refl

collect_any_order_example :
    (ms' : List Migration) × (collect (other_way directory empty_directory) ≡ ok ms')
    × ((name : String)
        → (of_repository name ms' ≡ stated name (lookup name (one_way directory empty_directory)))
          × (of_repository name ms' ≡ of_repository name collected)
          × (of_repository name (pending [] ms') ≡ of_repository name (pending [] collected)))
collect_any_order_example =
    collect_any_order (one_way directory empty_directory) (other_way directory empty_directory)
      collected [] (one_way-HasDistinctKeys directory empty_directory)
      (other_way-HasDistinctKeys directory empty_directory) (both_ways directory empty_directory)
      collects

-- The world counts the calls.
abbrev users_check : Healthchecker ℕ
users_check w = ("3 users", w + 1)

abbrev posts_check : Healthchecker ℕ
posts_check w = (if w == 0 then "called first" else "called later", w + 1)

abbrev two_fresh : Health
two_fresh = record { started_at = some 4; services = one_way fresh fresh }

abbrev checkers : List (String × Healthchecker ℕ)
checkers = one_way users_check posts_check

report_health_in_turn_example :
    let (h', w') = report_health checkers two_fresh 0 in
    (w' ≡ 2)
    × (h'.started_at ≡ some 4)
    × ((name : String)
        → lookup name h'.services
          ≡ reported (said name checkers 0) (lookup name (one_way fresh fresh)))
unfolding called
report_health_in_turn_example =
    report_health_in_turn checkers two_fresh 0 (one_way-HasDistinctKeys users_check posts_check)

posts_said : said "posts" checkers 0 ≡ some "called later"
unfolding said
posts_said = refl
