-- ===== src/Log/Arguments/Pairs.antt =====
-- Arguments that are keys and values in turn.
use platforma.Base.{
  ◌≡◌, refl, ap, ◌∙◌, String, List, [], ◌∷◌, Option, none, some, inl, inr, Bool-cases, Option-cases,
  str_eq, eq_iff, if◌then◌else◌,
}
use platforma.Base.Dict.{lookup, insert, lookup-insert, HasDistinctKeys, insert-HasDistinctKeys}
use platforma.Log.{Value, copy_attrs}
use platforma.Log.Arguments.{
  Argument, text, any_value, record_add, simple_log_event_attrs, collect_attrs,
}

-- The arguments of a call such as logger.Info("saved", "id", 7, "size", 30).
abbrev pub in_turn : List (String × Argument) → List Argument
in_turn [] = []
in_turn ((key, arg) ∷ pairs) = text key ∷ arg ∷ in_turn pairs

abbrev pub or_else : {A : Type 0} → Option A → Option A → Option A
or_else none other = other
or_else (some a) other = some a

or_else-none : {A : Type 0} (o : Option A) → or_else o none ≡ o
or_else-none none = refl
or_else-none (some a) = refl

-- The value of the last pair with a key.
unfoldable pub last_of : String → List (String × Value) → Option Value
last_of key [] = none
last_of key ((k, v) ∷ pairs) = or_else (last_of key pairs) (if str_eq k key then some v else none)

abbrev pub stated : List (String × Argument) → List (String × Value)
stated [] = []
stated ((key, arg) ∷ pairs) = (key, any_value arg) ∷ stated pairs

record_add-in_turn : (pairs : List (String × Argument)) → record_add (in_turn pairs) ≡ stated pairs
unfolding record_add
record_add-in_turn [] = refl
record_add-in_turn ((key, arg) ∷ pairs) =
    ap (λ attrs. (key, any_value arg) ∷ attrs) (record_add-in_turn pairs)

lookup-collect_attrs :
    (key : String) (attrs more : List (String × Value))
    → lookup key (collect_attrs attrs more) ≡ or_else (last_of key more) (lookup key attrs)
unfolding last_of
lookup-collect_attrs key attrs [] = refl
lookup-collect_attrs key attrs ((k, v) ∷ more) =
    lookup-collect_attrs key (insert k v attrs) more
    ∙ rw (lookup-insert k key v attrs) (elim (Option-cases (last_of key more)) [
      | inl nothing ↦ rw nothing (elim (Bool-cases (str_eq k key)) [
        | inl same ↦ rw same refl
        | inr differs ↦ rw differs refl
      ])
      | inr (later, found) ↦ rw found refl
    ])

collect_attrs-HasDistinctKeys :
    (attrs more : List (String × Value))
    → HasDistinctKeys attrs
    → HasDistinctKeys (collect_attrs attrs more)
collect_attrs-HasDistinctKeys attrs [] d = d
collect_attrs-HasDistinctKeys attrs ((k, v) ∷ more) d =
    collect_attrs-HasDistinctKeys (insert k v attrs) more (insert-HasDistinctKeys k v attrs d)

copy_attrs-collect_attrs :
    (attrs more : List (String × Value)) → copy_attrs attrs more ≡ collect_attrs attrs more
unfolding copy_attrs
copy_attrs-collect_attrs attrs [] = refl
copy_attrs-collect_attrs attrs ((k, v) ∷ more) = copy_attrs-collect_attrs (insert k v attrs) more

last_of-lookup :
    (key : String) (attrs : List (String × Value))
    → HasDistinctKeys attrs
    → last_of key attrs ≡ lookup key attrs
unfolding last_of lookup HasDistinctKeys
last_of-lookup key [] d = refl
last_of-lookup key ((k, v) ∷ attrs) (fresh, d) = elim (Bool-cases (str_eq k key)) [
  | inr differs ↦ rw (differs, last_of-lookup key attrs d) (or_else-none _)
  | inl same ↦ rw (same, last_of-lookup key attrs d, ← (eq_iff k key).0 same, fresh) refl
]

-- The map that writeSimpleLog makes of keys and values in turn has for each key the last value.
lookup-simple_log_event_attrs :
    (key : String) (pairs : List (String × Argument))
    → lookup key (simple_log_event_attrs (in_turn pairs)) ≡ last_of key (stated pairs)
unfolding simple_log_event_attrs lookup
lookup-simple_log_event_attrs key pairs =
    rw (record_add-in_turn pairs) (lookup-collect_attrs key [] (stated pairs) ∙ or_else-none _)

-- And so has an event without attributes that is given the map.
pub lookup-copied :
    (key : String) (pairs : List (String × Argument))
    → lookup key (copy_attrs [] (simple_log_event_attrs (in_turn pairs)))
      ≡ last_of key (stated pairs)
unfolding simple_log_event_attrs lookup HasDistinctKeys
lookup-copied key pairs =
    let attrs = collect_attrs [] (record_add (in_turn pairs)) in
    ap (lookup key) (copy_attrs-collect_attrs [] attrs)
    ∙ lookup-collect_attrs key [] attrs
    ∙ or_else-none _
    ∙ last_of-lookup key attrs (collect_attrs-HasDistinctKeys [] (record_add (in_turn pairs)) tt)
    ∙ lookup-simple_log_event_attrs key pairs
