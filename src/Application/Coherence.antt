-- ===== src/Application/Coherence.antt =====
-- The health record beside what the services do.
pub mod Registering
use platforma.Base.{
  ℕ, String, ◌≡◌, refl, ap, subst, sym, List, [], ◌∷◌, map, Option, none, some, arith, inl, inr,
  Bool-cases, Option-cases, str_eq, eq_iff, if◌then◌else◌,
}
use platforma.Base.Dict.{lookup, insert, lookup-insert}
use platforma.Base.Errors.{Error}
use platforma.Application.{
  not_started, started, failed, ServiceHealth, Health, Stage, waiting, running, returned, panicked,
  Services, Event, begins, returns, panics, reports, all_started, all_done, wait_done, is_launched,
  wait_over, service_step, serve, start_service, fail_service, set_service_data, start_application,
  Application, register_service, spawn_services, update_found, is_waiting, is_running, fresh, ◌>>=◌,
}

abbrev Untouched : ServiceHealth → Type 0
Untouched h =
    (h.status ≡ not_started) × (h.started_at ≡ none) × (h.stopped_at ≡ none) × (h.error ≡ none)

abbrev Started : ServiceHealth → Type 0
Started h =
    (h.status ≡ started)
    × ((t : ℕ) × (h.started_at ≡ some t))
    × (h.stopped_at ≡ none)
    × (h.error ≡ none)

abbrev Failed : Error → ServiceHealth → Type 0
Failed e h =
    (h.status ≡ failed)
    × ((t : ℕ) × (h.started_at ≡ some t))
    × ((t : ℕ) × (h.stopped_at ≡ some t))
    × (h.error ≡ some e)

-- What the record says of a service at each stage. It keeps one that returned without an error, or
-- panicked, as started.
abbrev pub Shows : Stage → ServiceHealth → Type 0
Shows waiting h = Untouched h
Shows running h = Started h
Shows (returned none) h = Started h
Shows (returned (some e)) h = Failed e h
Shows panicked h = Started h

abbrev ShowsOption : Option Stage → Option ServiceHealth → Type 0
ShowsOption none h = Unit
ShowsOption (some stage) none = ⊥
ShowsOption (some stage) (some h) = Shows stage h

-- Every service has its entry, and the entry shows its stage.
unfoldable pub IsCoherent : Services → Type 0
IsCoherent s = (name : String) → ShowsOption (lookup name s.stages) (lookup name s.health.services)

-- An update of one entry.
pub lookup-update_found :
    (name other : String) (change : ServiceHealth → ServiceHealth) (h : Health)
    (old : ServiceHealth)
    → lookup name h.services ≡ some old
    → lookup other (update_found name change (lookup name h.services) h).services
      ≡ (if str_eq name other then some (change old) else lookup other h.services)
unfolding update_found
lookup-update_found name other change h old e =
    rw e (lookup-insert name other (change old) h.services)

-- A step that moves one service to a stage that its changed entry shows.
advance :
    (s : Services) (name : String) (before after : Stage) (change : ServiceHealth → ServiceHealth)
    → IsCoherent s
    → lookup name s.stages ≡ some before
    → ((h : ServiceHealth) → Shows before h → Shows after (change h))
    → IsCoherent (record s {
      stages = insert name after s.stages;
      health = update_found name change (lookup name s.health.services) s.health;
    })
unfolding IsCoherent
advance s name before after change c at shows other =
    elim (Option-cases (lookup name s.health.services)) [
      | inl missing ↦ let own = c name in absurd (rw (at, missing) at own)
      | inr (old, found) ↦
          let own = c name in
          rw
            (
              lookup-insert name other after s.stages,
              lookup-update_found name other change s.health old found,
            )
            (elim (Bool-cases (str_eq name other)) [
              | inl same ↦ rw same (shows old (rw (at, found) at own))
              | inr different ↦ rw different (c other)
            ])
    ]

advance_stage :
    (s : Services) (name : String) (before after : Stage)
    → IsCoherent s
    → lookup name s.stages ≡ some before
    → ((h : ServiceHealth) → Shows before h → Shows after h)
    → IsCoherent (record s { stages = insert name after s.stages })
unfolding IsCoherent
advance_stage s name before after c at shows other =
    rw (lookup-insert name other after s.stages) (elim (Bool-cases (str_eq name other)) [
      | inr different ↦ rw different (c other)
      | inl same ↦ elim (Option-cases (lookup name s.health.services)) [
        | inl missing ↦ let own = c name in absurd (rw (at, missing) at own)
        | inr (old, found) ↦
            let own = c name in
            rw (same, sym ((eq_iff name other).0 same), found) (shows old (rw (at, found) at own))
      ]
    ])

Shows-payload :
    (stage : Stage) (h : ServiceHealth) (text : String)
    → Shows stage h
    → Shows stage (record h { payload = some text })
Shows-payload waiting h text u = u
Shows-payload running h text u = u
Shows-payload (returned none) h text u = u
Shows-payload (returned (some e)) h text u = u
Shows-payload panicked h text u = u

ShowsOption-payload :
    (stage : Option Stage) (h : ServiceHealth) (text : String)
    → ShowsOption stage (some h)
    → ShowsOption stage (some (record h { payload = some text }))
ShowsOption-payload none h text u = u
ShowsOption-payload (some stage) h text u = Shows-payload stage h text u

annotate :
    (s : Services) (name text : String)
    → IsCoherent s
    → IsCoherent (record s { health = set_service_data name text s.health })
unfolding IsCoherent set_service_data
annotate s name text c other = elim (Option-cases (lookup name s.health.services)) [
  | inl missing ↦ unfold update_found in rw missing (c other)
  | inr (old, found) ↦
      rw (lookup-update_found name other (λ h. record h { payload = some text }) s.health old found)
        (elim (Bool-cases (str_eq name other)) [
          | inr different ↦ rw different (c other)
          | inl same ↦
              let own = c name in
              rw (same, sym ((eq_iff name other).0 same))
                (ShowsOption-payload (lookup name s.stages) old text (rw found at own))
        ])
]

pub is_waiting-eq : (stage : Stage) (u : Unit {0}) → is_waiting stage ≡ some u → stage ≡ waiting
is_waiting-eq waiting u h = refl
is_waiting-eq running u h = cc
is_waiting-eq (returned _) u h = cc
is_waiting-eq panicked u h = cc

pub is_running-eq : (stage : Stage) (u : Unit {0}) → is_running stage ≡ some u → stage ≡ running
is_running-eq waiting u h = cc
is_running-eq running u h = refl
is_running-eq (returned _) u h = cc
is_running-eq panicked u h = cc

-- The stage of the service that a step moves.
pub moved :
    {A : Type 0} (o : Option Stage) (test : Stage → Option (Unit {0})) (expected : Stage)
    {next : Option A} {a : A}
    → ((stage : Stage) (u : Unit {0}) → test stage ≡ some u → stage ≡ expected)
    → (o >>= λ stage. test stage >>= λ _. next) ≡ some a
    → (o ≡ some expected) × (next ≡ some a)
moved none test expected eq h = cc
moved (some stage) test expected eq h = elim (Option-cases (test stage)) [
  | inl differs ↦ cc (rw differs at h)
  | inr (u, agrees) ↦ (ap some (eq stage u agrees), rw agrees at h)
]

pub bound :
    {A B : Type 0} (o : Option A) {f : A → Option B} {b : B}
    → (o >>= f) ≡ some b
    → (a : A) × (o ≡ some a) × (f a ≡ some b)
bound none h = cc
bound (some a) h = (a, refl, h)

pub some-injective : {A : Type 0} {a b : A} → some a ≡ some b → a ≡ b
some-injective e = cc

IsCoherent-of : {s s' : Services} → some s ≡ some s' → IsCoherent s → IsCoherent s'
IsCoherent-of e c = subst IsCoherent (some-injective e) c

pub service_step-IsCoherent :
    (e : Event) (s s' : Services) → IsCoherent s → service_step e s ≡ some s' → IsCoherent s'
unfolding service_step start_service update_found IsCoherent fail_service start_application
service_step-IsCoherent (begins name now) s s' c h =
    let (at, e) = moved (lookup name s.stages) is_waiting waiting is_waiting-eq h in
    IsCoherent-of e (advance s name waiting running _ c at (λ x u. (refl, (now, refl), u.2, u.3)))
service_step-IsCoherent (returns name none now) s s' c h =
    let (at, e) = moved (lookup name s.stages) is_running running is_running-eq h in
    let (n, _, e') = bound (wait_done s.wait_count) e in
    IsCoherent-of e' (advance_stage s name running (returned none) c at (λ x u. u))
service_step-IsCoherent (returns name (some x) now) s s' c h =
    let (at, e) = moved (lookup name s.stages) is_running running is_running-eq h in
    let (n, _, e') = bound (wait_done s.wait_count) e in
    IsCoherent-of e'
      (advance s name running (returned (some x)) _ c at (λ y u. (refl, u.1, (now, refl), refl)))
service_step-IsCoherent (panics name) s s' c h =
    let (at, e) = moved (lookup name s.stages) is_running running is_running-eq h in
    let (n, _, e') = bound (wait_done s.wait_count) e in
    IsCoherent-of e' (advance_stage s name running panicked c at (λ x u. u))
service_step-IsCoherent (reports name text) s s' c h = IsCoherent-of h (annotate s name text c)
service_step-IsCoherent (all_started now) s s' c h =
    let (_, _, e) = bound (is_launched s.phase) h in IsCoherent-of e c
service_step-IsCoherent all_done s s' c h =
    let (_, _, e) = bound (wait_over s.phase s.wait_count) h in IsCoherent-of e c

-- Under every schedule of services and health checks, each service's entry in the health record
-- shows its stage: not started before its goroutine begins, started from then on, and failed with
-- its error and a stop time once it returned one. A service that panicked or returned without an
-- error is shown as started.
pub serve-IsCoherent :
    (events : List Event) (s s' : Services)
    → IsCoherent s
    → serve events s ≡ some s'
    → IsCoherent s'
unfolding serve
serve-IsCoherent [] s s' c h = IsCoherent-of h c
serve-IsCoherent (e ∷ events) s s' c h = elim (Option-cases (service_step e s)) [
  | inl stuck ↦ cc (rw stuck at h)
  | inr (t, first) ↦
      serve-IsCoherent events t s' (service_step-IsCoherent e s t c first) (rw first at h)
]
