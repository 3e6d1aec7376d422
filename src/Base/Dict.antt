-- ===== src/Base/Dict.antt =====
-- Go maps with text keys, as association lists.
use Prim.Native.String.{String}
use mathlib.Core.Path.{◌≡◌, refl, ◌∙◌}
use mathlib.Core.Logic.{inl, inr}
use mathlib.Core.List.{List, [], ◌∷◌}
use mathlib.Core.Option.{Option, none, some}
use native.Mathlib.Omega.{arith}
use text.Mathlib.Text.{◌==◌}
use text.Mathlib.TextEquality.{eq_iff}
use platforma.Base.Tests.{Bool-cases, if◌then◌else◌}

module _ {ℓ} {V : Type ℓ} where
  unfoldable pub lookup : String → List (String × V) → Option V
  lookup key [] = none
  lookup key ((name, value) ∷ entries) = if name == key then some value else lookup key entries

  -- m[key] = value.
  unfoldable pub insert : String → V → List (String × V) → List (String × V)
  insert key value [] = (key, value) ∷ []
  insert key value ((name, old) ∷ entries) =
      let rest = insert key value entries in
      if name == key then (name, value) ∷ entries else (name, old) ∷ rest

  pub lookup-insert :
      (key wanted : String) (value : V) (entries : List (String × V))
      → lookup wanted (insert key value entries)
        ≡ (if key == wanted then some value else lookup wanted entries)
  unfolding lookup insert
  lookup-insert key wanted value [] = refl
  lookup-insert key wanted value ((name, old) ∷ entries) = ground (
    arith,
    lookup-insert key wanted value entries,
    eq_iff name key,
    eq_iff name wanted,
    eq_iff key wanted,
  )

  -- A Go map has each key once.
  unfoldable pub HasDistinctKeys : List (String × V) → Type ℓ
  HasDistinctKeys [] = Unit
  HasDistinctKeys ((key, _) ∷ entries) = (lookup key entries ≡ none) × HasDistinctKeys entries

  pub insert-HasDistinctKeys :
      (key : String) (value : V) (entries : List (String × V))
      → HasDistinctKeys entries
      → HasDistinctKeys (insert key value entries)
  unfolding HasDistinctKeys insert lookup
  insert-HasDistinctKeys key value [] h = (refl, tt)
  insert-HasDistinctKeys key value ((name, old) ∷ entries) (fresh, h) =
      elim (Bool-cases (name == key)) [
        | inl same ↦ rw same (fresh, h)
        | inr differs ↦ rw differs (
          lookup-insert key name value entries
              ∙ ground (arith, fresh, differs, eq_iff name key, eq_iff key name),
          insert-HasDistinctKeys key value entries h,
        )
      ]

  -- Two lists of entries with the same lookups are the same Go map.
  abbrev pub SameEntries : List (String × V) → List (String × V) → Type ℓ
  SameEntries es es' = (key : String) → lookup key es ≡ lookup key es'
