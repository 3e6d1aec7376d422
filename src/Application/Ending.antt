-- ===== src/Application/Ending.antt =====
-- When Application.run has waited for its services: the counter of its WaitGroup.
use platforma.Base.{
  ℕ, zero, suc, ◌+◌, ◌≡◌, ◌≢◌, ◌↔◌, ◌⊎◌, ◌∙◌, refl, subst, inl, inr, String, Bool, true, false,
  ◌&&◌, List, [], ◌∷◌, map, Option, none, some, str_eq, arith, length, Bool-cases, Option-cases,
  if◌then◌else◌,
}
use platforma.Base.Dict.{lookup, insert}
use platforma.Application.{
  Application, Services, Stage, waiting, running, returned, panicked, Event, begins, returns,
  panics, reports, all_started, all_done, service_step, serve, spawn_services, is_waiting,
  is_running, wait_done, is_launched, wait_over, in_wait, over, launched, RunPhase,
}
use platforma.Application.Coherence.{moved, bound, is_waiting-eq, is_running-eq, some-injective}

-- Whether a goroutine has ended.
abbrev pub is_ended : Stage → Bool
is_ended waiting = false
is_ended running = false
is_ended (returned _) = true
is_ended panicked = true

unfoldable pub all_ended : List (String × Stage) → Bool
all_ended [] = true
all_ended ((_, stage) ∷ stages) = is_ended stage && all_ended stages

abbrev left : Stage → ℕ
left stage = if is_ended stage then 0 else 1

-- How many goroutines have not ended.
unfoldable pub unended : List (String × Stage) → ℕ
unended [] = 0
unended ((_, stage) ∷ stages) = left stage + unended stages

unended-insert :
    (name : String) (old new : Stage) (stages : List (String × Stage))
    → lookup name stages ≡ some old
    → unended (insert name new stages) + left old ≡ unended stages + left new
unfolding unended lookup insert
unended-insert name old new [] h = cc
unended-insert name old new ((key, stage) ∷ stages) h = elim (Bool-cases (str_eq key name)) [
  | inl same ↦ ground (arith, same)
  | inr differs ↦ ground (arith, differs, unended-insert name old new stages)
]

unended-all_ended :
    (stages : List (String × Stage)) → (all_ended stages ≡ true) ↔ (unended stages ≡ 0)
unfolding unended all_ended
unended-all_ended [] = (λ _. refl, λ _. refl)
unended-all_ended ((key, stage) ∷ stages) =
    let later = unended-all_ended stages in (λ h. ground (arith, later), λ h. ground (arith, later))

wait_done-eq : (c n : ℕ) → wait_done c ≡ some n → c ≡ suc n
wait_done-eq zero n h = cc
wait_done-eq (suc m) n h = cc

-- The counter is the number of goroutines that have not ended.
IsCounted : Services → Type 0
IsCounted s = s.wait_count ≡ unended s.stages

IsCounted-of : {s s' : Services} → some s ≡ some s' → IsCounted s → IsCounted s'
IsCounted-of e c = subst IsCounted (some-injective e) c

-- A goroutine that ends, and the counter after wg.Done.
ends :
    (s : Services) (name : String) (new : Stage) (n : ℕ)
    → IsCounted s
    → lookup name s.stages ≡ some running
    → is_ended new ≡ true
    → wait_done s.wait_count ≡ some n
    → n ≡ unended (insert name new s.stages)
unfolding IsCounted
ends s name new n c at ended done =
    ground (
      arith,
      c,
      ended,
      wait_done-eq s.wait_count n done,
      unended-insert name running new s.stages at,
    )

service_step-IsCounted :
    (e : Event) (s s' : Services) → service_step e s ≡ some s' → IsCounted s → IsCounted s'
unfolding service_step IsCounted
service_step-IsCounted (begins name now) s s' h c =
    let (at, e) = moved (lookup name s.stages) is_waiting waiting is_waiting-eq h in
    IsCounted-of e (ground (arith, c, unended-insert name waiting running s.stages at))
service_step-IsCounted (returns name x now) s s' h c =
    let (at, e) = moved (lookup name s.stages) is_running running is_running-eq h in
    let (n, done, e') = bound (wait_done s.wait_count) e in
    IsCounted-of e' (ends s name (returned x) n c at refl done)
service_step-IsCounted (panics name) s s' h c =
    let (at, e) = moved (lookup name s.stages) is_running running is_running-eq h in
    let (n, done, e') = bound (wait_done s.wait_count) e in
    IsCounted-of e' (ends s name panicked n c at refl done)
service_step-IsCounted (reports name text) s s' h c = IsCounted-of h c
service_step-IsCounted (all_started now) s s' h c =
    let (_, _, e) = bound (is_launched s.phase) h in IsCounted-of e c
service_step-IsCounted all_done s s' h c =
    let (_, _, e) = bound (wait_over s.phase s.wait_count) h in IsCounted-of e c

serve-IsCounted :
    (es : List Event) (s s' : Services) → serve es s ≡ some s' → IsCounted s → IsCounted s'
unfolding serve
serve-IsCounted [] s s' h c = IsCounted-of h c
serve-IsCounted (e ∷ es) s s' h c = elim (Option-cases (service_step e s)) [
  | inl stuck ↦ cc (rw stuck at h)
  | inr (t, first) ↦ serve-IsCounted es t s' (rw first at h) (service_step-IsCounted e s t first c)
]

map-waiting :
    {A : Type 0} (services : List (String × A))
    → length services ≡ unended (map (λ service. (service.0, waiting)) services)
unfolding unended
map-waiting [] = refl
map-waiting ((name, service) ∷ services) = ground (arith, map-waiting services)

-- A goroutine that runs is counted.
unended-running :
    (name : String) (stages : List (String × Stage))
    → lookup name stages ≡ some running
    → (n : ℕ) × (unended stages ≡ suc n)
unfolding unended lookup
unended-running name [] h = cc
unended-running name ((key, stage) ∷ stages) h = elim (Bool-cases (str_eq key name)) [
  | inl same ↦ (unended stages, ground (arith, same))
  | inr differs ↦
      let (n, more) = unended-running name stages (ground (arith, differs)) in
      (left stage + n, ground (arith, more))
]

wait_over-eq :
    (p q : RunPhase) (c : ℕ) → wait_over p c ≡ some q → (p ≡ in_wait) × (c ≡ 0) × (q ≡ over)
wait_over-eq launched q c h = cc
wait_over-eq in_wait q zero h = (refl, refl, cc)
wait_over-eq in_wait q (suc c) h = cc
wait_over-eq over q c h = cc

-- Where `run` has returned, nothing is counted any more.
IsSettled : Services → Type 0
IsSettled s = (s.phase ≢ over) ⊎ (s.wait_count ≡ 0)

IsSettled-of : {s s' : Services} → some s ≡ some s' → IsSettled s → IsSettled s'
IsSettled-of e c = subst IsSettled (some-injective e) c

-- wg.Done leaves a counter that was not zero, so `run` had not returned.
ends_settled :
    (s : Services) (n : ℕ)
    → IsSettled s
    → wait_done s.wait_count ≡ some n
    → (s.phase ≢ over) ⊎ (n ≡ 0)
unfolding IsSettled
ends_settled s n (inl going) done = inl going
ends_settled s n (inr none_left) done =
    absurd (ground (arith, none_left, wait_done-eq s.wait_count n done))

service_step-IsSettled :
    (e : Event) (s s' : Services) → service_step e s ≡ some s' → IsSettled s → IsSettled s'
unfolding service_step IsSettled
service_step-IsSettled (begins name now) s s' h c =
    let (_, e) = moved (lookup name s.stages) is_waiting waiting is_waiting-eq h in IsSettled-of e c
service_step-IsSettled (returns name x now) s s' h c =
    let (_, e) = moved (lookup name s.stages) is_running running is_running-eq h in
    let (n, done, e') = bound (wait_done s.wait_count) e in
    IsSettled-of e' (ends_settled s n c done)
service_step-IsSettled (panics name) s s' h c =
    let (_, e) = moved (lookup name s.stages) is_running running is_running-eq h in
    let (n, done, e') = bound (wait_done s.wait_count) e in
    IsSettled-of e' (ends_settled s n c done)
service_step-IsSettled (reports name text) s s' h c = IsSettled-of h c
service_step-IsSettled (all_started now) s s' h c =
    let (_, _, e) = bound (is_launched s.phase) h in IsSettled-of e (inl (λ same. cc))
service_step-IsSettled all_done s s' h c =
    let (p, waited, e) = bound (wait_over s.phase s.wait_count) h in
    IsSettled-of e (inr (wait_over-eq s.phase p s.wait_count waited).1)

serve-IsSettled :
    (es : List Event) (s s' : Services) → serve es s ≡ some s' → IsSettled s → IsSettled s'
unfolding serve
serve-IsSettled [] s s' h c = IsSettled-of h c
serve-IsSettled (e ∷ es) s s' h c = elim (Option-cases (service_step e s)) [
  | inl stuck ↦ cc (rw stuck at h)
  | inr (t, first) ↦ serve-IsSettled es t s' (rw first at h) (service_step-IsSettled e s t first c)
]

get_out :
    (s : Services)
    → IsCounted s
    → (service_step all_done s ≡ some (record s { phase = over }))
      ↔ ((s.phase ≡ in_wait) × (all_ended s.stages ≡ true))
unfolding service_step IsCounted
get_out s c = (
  λ h.
      let (p, waited, _) = bound (wait_over s.phase s.wait_count) h in
      let (waits, zero_left, _) = wait_over-eq s.phase p s.wait_count waited in
      (waits, (unended-all_ended s.stages).1 (ground (arith, c, zero_left))),
  λ h.
      let none_left : s.wait_count ≡ 0 = c ∙ (unended-all_ended s.stages).0 h.1 in
      rw (h.0, none_left) refl,
)

is_running_stage : (o : Option Stage) → (o ≢ some running) ⊎ (o ≡ some running)
is_running_stage none = inl (λ same. cc)
is_running_stage (some waiting) = inl (λ same. cc)
is_running_stage (some running) = inr refl
is_running_stage (some (returned _)) = inl (λ same. cc)
is_running_stage (some panicked) = inl (λ same. cc)

counts :
    (s : Services)
    → IsCounted s
    → (name : String)
    → (lookup name s.stages ≢ some running) ⊎ ((n : ℕ) × (wait_done s.wait_count ≡ some n))
unfolding IsCounted
counts s c name = elim (is_running_stage (lookup name s.stages)) [
  | inl other ↦ inl other
  | inr at ↦
      let (n, more) = unended-running name s.stages at in
      let counted : s.wait_count ≡ suc n = c ∙ more in inr (n, rw counted refl)
]

-- Under every schedule of `run`, its services and health checks: the counter of the WaitGroup is the
-- number of goroutines whose service has neither returned nor panicked. So wg.Done never finds it zero
-- while a goroutine runs; `run` gets out of wg.Wait exactly when it is there and all of them have
-- ended; and where `run` has returned, all of them have.
pub serve_waits :
    {W : Type 0} (app : Application W) (es : List Event) (s : Services) (name : String)
    → serve es (spawn_services app) ≡ some s
    → (s.wait_count ≡ unended s.stages)
      × ((lookup name s.stages ≢ some running) ⊎ ((n : ℕ) × (wait_done s.wait_count ≡ some n)))
      × ((service_step all_done s ≡ some (record s { phase = over }))
          ↔ ((s.phase ≡ in_wait) × (all_ended s.stages ≡ true)))
      × ((s.phase ≢ over) ⊎ (all_ended s.stages ≡ true))
unfolding spawn_services IsCounted IsSettled
serve_waits app es s name h =
    let counted = serve-IsCounted es (spawn_services app) s h (map-waiting app.services) in
    (
      counted,
      counts s counted name,
      get_out s counted,
      elim (serve-IsSettled es (spawn_services app) s h (inl (λ same. cc))) [
        | inl going ↦ inl going
        | inr none_left ↦ inr ((unended-all_ended s.stages).1 (ground (arith, counted, none_left)))
      ],
    )
