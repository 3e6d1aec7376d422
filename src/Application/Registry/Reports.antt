-- ===== src/Application/Registry/Reports.antt =====
-- What Application.Health reports of its healthcheckers.
use platforma.Base.{
  ◌≡◌, refl, ap, true, ◌∙◌, String, List, [], ◌∷◌, Option, none, some, inl, inr, Bool-cases,
  Option-cases, str_eq, eq_iff, if◌then◌else◌,
}
use platforma.Base.Dict.{lookup, HasDistinctKeys}
use platforma.Application.{Healthchecker, ServiceHealth, Health, set_service_data, update_found}
use platforma.Application.Coherence.{lookup-update_found}
use platforma.Application.Registry.{report_health}

-- A text that is said becomes the payload of an entry that is there.
abbrev pub reported : Option String → Option ServiceHealth → Option ServiceHealth
reported none entry = entry
reported (some text) none = none
reported (some text) (some s) = some (record s { payload = some text })

same_entry :
    (name other : String) (h : Health)
    → str_eq name other ≡ true
    → lookup name h.services ≡ lookup other h.services
same_entry name other h same = ap (λ key. lookup key h.services) ((eq_iff name other).0 same)

lookup-set_service_data :
    (name other text : String) (h : Health)
    → lookup other (set_service_data name text h).services ≡ (
        if str_eq name other
        then reported (some text) (lookup other h.services)
        else lookup other h.services)
unfolding set_service_data update_found
lookup-set_service_data name other text h = elim (Bool-cases (str_eq name other)) [
  | inl same ↦ elim (Option-cases (lookup name h.services)) [
    | inl missing ↦ rw (missing, same, ← same_entry name other h same, missing) refl
    | inr (old, found) ↦
        lookup-update_found name other (λ s. record s { payload = some text }) h old found
        ∙ rw (same, ← same_entry name other h same, found) refl
  ]
  | inr differs ↦ elim (Option-cases (lookup name h.services)) [
    | inl missing ↦ rw (missing, differs) refl
    | inr (old, found) ↦
        lookup-update_found name other (λ s. record s { payload = some text }) h old found
        ∙ rw differs refl
  ]
]

module _ {W : Type 0} where
  -- The world after each of the healthcheckers has been called once, in turn.
  unfoldable pub called : List (String × Healthchecker W) → W → W
  called [] w = w
  called ((key, check) ∷ checkers) w = called checkers (check w).1

  -- What the healthchecker of a service says, in the world that those before it left.
  unfoldable pub said : String → List (String × Healthchecker W) → W → Option String
  said name [] w = none
  said name ((key, check) ∷ checkers) w =
      let rest = said name checkers (check w).1 in
      if str_eq key name then some (check w).0 else rest

  said-none :
      (name : String) (checkers : List (String × Healthchecker W)) (w : W)
      → lookup name checkers ≡ none
      → said name checkers w ≡ none
  unfolding said lookup
  said-none name [] w h = refl
  said-none name ((key, check) ∷ checkers) w h = elim (Bool-cases (str_eq key name)) [
    | inl same ↦ cc (rw same at h)
    | inr differs ↦ rw differs (said-none name checkers (check w).1 (rw differs at h))
  ]

  lookup-report_health :
      (checkers : List (String × Healthchecker W)) (h : Health) (w : W) (name : String)
      → HasDistinctKeys checkers
      → lookup name (report_health checkers h w).0.services
        ≡ reported (said name checkers w) (lookup name h.services)
  unfolding report_health HasDistinctKeys said
  lookup-report_health [] h w name d = refl
  lookup-report_health ((key, check) ∷ checkers) h w name (fresh, d) =
      lookup-report_health checkers (set_service_data key (check w).0 h) (check w).1 name d
      ∙ ap (reported (said name checkers (check w).1))
          (lookup-set_service_data key name (check w).0 h)
      ∙ elim (Bool-cases (str_eq key name)) [
        | inl same ↦
            rw (same, ← (eq_iff key name).0 same, said-none key checkers (check w).1 fresh) refl
        | inr differs ↦ rw differs refl
      ]

  report_health-started_at :
      (checkers : List (String × Healthchecker W)) (h : Health) (w : W)
      → ((report_health checkers h w).0.started_at ≡ h.started_at)
        × ((report_health checkers h w).1 ≡ called checkers w)
  unfolding report_health set_service_data update_found called
  report_health-started_at [] h w = (refl, refl)
  report_health-started_at ((key, check) ∷ checkers) h w =
      let (started, ends) =
        report_health-started_at checkers (set_service_data key (check w).0 h) (check w).1 in
      (
        started ∙ elim (Option-cases (lookup key h.services)) [
          | inl missing ↦ rw missing refl
          | inr (old, found) ↦ rw found refl
        ],
        ends,
      )

  -- Application.Health calls each healthchecker once, one after the other in the order in which Go
  -- walks their map, which has each name once, and whatever they do to the world. The entry of a
  -- service that has one then has as its payload what its own healthchecker said in its turn; other
  -- entries, and the time at which the application started, are as they were.
  pub report_health_in_turn :
      (checkers : List (String × Healthchecker W)) (h : Health) (w : W)
      → HasDistinctKeys checkers
      → let (h', w') = report_health checkers h w in
        (w' ≡ called checkers w)
        × (h'.started_at ≡ h.started_at)
        × ((name : String)
            → lookup name h'.services ≡ reported (said name checkers w) (lookup name h.services))
  report_health_in_turn checkers h w d =
      let (started, ends) = report_health-started_at checkers h w in
      (ends, started, λ name. lookup-report_health checkers h w name d)
