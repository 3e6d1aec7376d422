-- ===== src/Application/Startup.antt =====
-- When the application gets to its services.
use platforma.Base.{◌≡◌, refl, ◌∙◌, true, List, [], ◌∷◌, ◌++◌, arith, inl, inr, Bool-cases}
use platforma.Base.Errors.{Error, wrapped, ok, err, Result-cases}
use platforma.Application.{StartupTask, Application, run_tasks, run_application}

module _ {W : Type 0} where
  -- The startup tasks that ran, the one that stopped the start, and those that never ran.
  pub record AbortedAt (tasks : List (StartupTask W)) (w : W) (e : Error) (w' : W) : Type 0 where
    pub before : List (StartupTask W)
    pub task : StartupTask W
    pub rest : List (StartupTask W)
    pub reached : W
    pub cause : Error
    pub split : tasks ≡ before ++ task ∷ rest
    pub passed : run_tasks before w ≡ (ok tt, reached)
    pub aborts : task.abort_on_error ≡ true
    pub fails : task.runner reached ≡ (err cause, w')
    pub reported : e ≡ wrapped "failed to run startup task" cause

  later :
      (task : StartupTask W) (tasks : List (StartupTask W)) (w w₁ w' : W) {e : Error}
      → ((rest : List (StartupTask W)) → run_tasks (task ∷ rest) w ≡ run_tasks rest w₁)
      → AbortedAt tasks w₁ e w'
      → AbortedAt (task ∷ tasks) w e w'
  later task tasks w w₁ w' skips a = record {
    before = task ∷ a.before;
    task = a.task;
    rest = a.rest;
    reached = a.reached;
    cause = a.cause;
    split = rw (a.split) refl;
    passed = skips a.before ∙ a.passed;
    aborts = a.aborts;
    fails = a.fails;
    reported = a.reported;
  }

  run_tasks-AbortedAt :
      (tasks : List (StartupTask W)) (w w' : W) {e : Error}
      → run_tasks tasks w ≡ (err e, w')
      → AbortedAt tasks w e w'
  unfolding run_tasks
  run_tasks-AbortedAt [] w w' h = cc
  run_tasks-AbortedAt (task ∷ tasks) w w' h = elim (Result-cases (task.runner w).0) [
    | inl (_, passed) ↦
        later task tasks w (task.runner w).1 w' (λ rest. ground (arith, passed))
          (run_tasks-AbortedAt tasks (task.runner w).1 w' (ground (arith, passed)))
    | inr (cause, fails) ↦ elim (Bool-cases task.abort_on_error) [
      | inr goes_on ↦
          later task tasks w (task.runner w).1 w' (λ rest. ground (arith, fails, goes_on))
            (run_tasks-AbortedAt tasks (task.runner w).1 w' (ground (arith, fails, goes_on)))
      | inl aborts ↦ record {
        before = [];
        task = task;
        rest = tasks;
        reached = w;
        cause = cause;
        split = refl;
        passed = refl;
        aborts = aborts;
        fails = ground (arith, fails, aborts);
        reported = ground (arith, fails, aborts);
      }
    ]
  ]

  -- If the application does not get to its services, then a startup task that is to abort on an
  -- error failed with the error that is reported, those before it had passed or were to be passed
  -- over, and nothing ran after it.
  pub run_application-AbortedAt :
      (app : Application W) (w w' : W) (e : Error)
      → run_application app w ≡ (err e, w')
      → AbortedAt app.startup_tasks w e w'
  unfolding run_application
  run_application-AbortedAt app w w' e h = run_tasks-AbortedAt app.startup_tasks w w' (ground arith)
