-- ===== src/Log/Levels.antt =====
-- An event's level.
use platforma.Base.{
  ℕ, ◌≤◌, ◌≡◌, ◌≢◌, refl, String, Option, none, some, List, [], ◌∷◌, arith, All, All-append,
}
use platforma.Log.{
  Value, Level, level_error, StepRecord, Event, new_event, set_level, add_attrs, add_step,
  add_error, finish,
}

-- The methods that change an event; callers may take turns in any order.
pub data Operation : Type 0 where
  sets_level : Level → Operation
  adds_attrs : List (String × Value) → Operation
  adds_step : Level → String → ℕ → Operation
  adds_error : Option String → ℕ → Operation
  finishes : ℕ → Operation

abbrev apply : Operation → Event → Event
apply (sets_level level) e = set_level level e
apply (adds_attrs attrs) e = add_attrs attrs e
apply (adds_step level name now) e = add_step level name now e
apply (adds_error error now) e = add_error error now e
apply (finishes now) e = finish now e

unfoldable pub apply_operations : List Operation → Event → Event
apply_operations [] e = e
apply_operations (o ∷ os) e = apply_operations os (apply o e)

-- No step and no error stands above the event's level.
pub record IsRaised (e : Event) : Type 0 where
  pub by_steps : All (λ (s : StepRecord). s.level ≤ e.level) e.steps
  pub by_errors : e.errors ≢ [] → level_error ≤ e.level

All-raise :
    (steps : List StepRecord) (low high : ℕ)
    → low ≤ high
    → All (λ (s : StepRecord). s.level ≤ low) steps
    → All (λ (s : StepRecord). s.level ≤ high) steps
All-raise [] low high h a = tt
All-raise (s ∷ steps) low high h a = (omega (arith, h, a.0), All-raise steps low high h a.1)

level-set_level :
    (level : Level) (e : Event)
    → (e.level ≤ (set_level level e).level) × (level ≤ (set_level level e).level)
unfolding set_level
level-set_level level e = (ground arith, ground arith)

frame-set_level :
    (level : Level) (e : Event)
    → ((set_level level e).steps ≡ e.steps) × ((set_level level e).errors ≡ e.errors)
unfolding set_level
frame-set_level level e = (ground arith, ground arith)

set_level-IsRaised : (level : Level) (e : Event) → IsRaised e → IsRaised (set_level level e)
set_level-IsRaised level e r =
    let (steps, errors) = frame-set_level level e in
    let (up, _) = level-set_level level e in
    record {
      by_steps = rw steps (All-raise e.steps e.level (set_level level e).level up r.by_steps);
      by_errors = rw errors (λ some_error. omega (arith, r.by_errors some_error, up));
    }

apply-IsRaised : (o : Operation) (e : Event) → IsRaised e → IsRaised (apply o e)
apply-IsRaised (sets_level level) e r = set_level-IsRaised level e r
apply-IsRaised (adds_attrs attrs) e r =
    unfold add_attrs in record { by_steps = r.by_steps; by_errors = r.by_errors }
apply-IsRaised (adds_step level name now) e r =
    let raised = set_level-IsRaised level e r in
    unfold add_step in
    record {
      by_steps =
          All-append (λ (s : StepRecord). s.level ≤ (set_level level e).level)
            (set_level level e).steps _ raised.by_steps ((level-set_level level e).1, tt);
      by_errors = raised.by_errors;
    }
apply-IsRaised (adds_error none now) e r = unfold add_error in r
apply-IsRaised (adds_error (some x) now) e r =
    let raised = set_level-IsRaised level_error e r in
    unfold add_error in
    record { by_steps = raised.by_steps; by_errors = λ h. (level-set_level level_error e).1 }
apply-IsRaised (finishes now) e r =
    unfold finish in record { by_steps = r.by_steps; by_errors = r.by_errors }

operations-IsRaised :
    (os : List Operation) (e : Event) → IsRaised e → IsRaised (apply_operations os e)
unfolding apply_operations
operations-IsRaised [] e r = r
operations-IsRaised (o ∷ os) e r = operations-IsRaised os (apply o e) (apply-IsRaised o e r)

apply-level : (o : Operation) (e : Event) → e.level ≤ (apply o e).level
unfolding add_attrs add_step add_error finish
apply-level (sets_level level) e = (level-set_level level e).0
apply-level (adds_attrs attrs) e = omega arith
apply-level (adds_step level name now) e = (level-set_level level e).0
apply-level (adds_error none now) e = omega arith
apply-level (adds_error (some x) now) e = (level-set_level level_error e).0
apply-level (finishes now) e = omega arith

level-apply_operations : (os : List Operation) (e : Event) → e.level ≤ (apply_operations os e).level
unfolding apply_operations
level-apply_operations [] e = omega arith
level-apply_operations (o ∷ os) e =
    omega (arith, apply-level o e, level-apply_operations os (apply o e))

-- However the methods of a new event are called, its level is at least that of each of its steps,
-- and at least LevelError once it has an error; and further calls never lower it.
pub apply_operations-IsRaised :
    (name : String) (now : ℕ) (os more : List Operation)
    → let e = apply_operations os (new_event name now) in
      IsRaised e × (e.level ≤ (apply_operations more e).level)
apply_operations-IsRaised name now os more = (
  operations-IsRaised os (new_event name now)
      (unfold new_event in record { by_steps = tt; by_errors = λ h. absurd (h refl) }),
  level-apply_operations more (apply_operations os (new_event name now)),
)
