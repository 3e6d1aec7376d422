-- ===== src/Scheduler/Returns.antt =====
-- How a scheduler's Run ends, and what its calls have left in the log by then.
use platforma.Base.{
  ◌≡◌, refl, subst, ℕ, zero, suc, String, List, [], ◌∷◌, ◌++◌, some, inl, inr, Option-cases, length,
  arith,
}
use platforma.Base.Errors.{Error, wrapped, Result, ok, Result-cases}
use platforma.Base.Action.{Command}
use platforma.Log.Logger.{Context}
use platforma.Scheduler.{
  Scheduler, Line, Phase, ticking, stopping, returned, Ticking, Event, fires, completes, cancelled,
  stopped, end_line, remove_at, begin_call, end_call, finish, cancel, new_scheduler, start,
  start_scheduler, tick, run_ticks,
}
use platforma.Scheduler.Ticks.{starts_logged, ends_logged, calls_of, run_ticks-calls_of}

-- What is left to happen once the context is cancelled: `n` calls end, and the library stops.
abbrev pub winding_down : ℕ → List Event
winding_down zero = stopped ∷ []
winding_down (suc n) = completes 0 ∷ winding_down n

module _ {W : Type 0} (s : Scheduler W) (ctx : Context) where
  -- Once Run has returned, no call runs, and the error says why.
  abbrev Drained : Ticking W → Type 0
  Drained t =
      (e : Error)
      → t.phase ≡ returned e
      → (t.running ≡ []) × ((cause : Error) × (e ≡ wrapped "scheduler context canceled" cause))

  begin_call-Drained :
      (fired : String) (phase : Phase) (t t' : Ticking W)
      → begin_call ctx fired phase t ≡ some t'
      → t.phase ≡ phase
      → Drained t'
  begin_call-Drained fired ticking t t' h p e q = absurd (ground arith)
  begin_call-Drained fired (stopping cause) t t' h p e q = cc
  begin_call-Drained fired (returned _) t t' h p e q = cc

  end_call-Drained :
      (i : ℕ) (t t' : Ticking W)
      → end_call s (remove_at i t.running) t ≡ some t'
      → Drained t
      → Drained t'
  unfolding remove_at
  end_call-Drained i t t' h inv e q = elim (Option-cases (remove_at i t.running)) [
    | inl stuck ↦ absurd (ground (arith, stuck))
    | inr ((c, rest), taken) ↦ absurd (ground (arith, taken, (inv e (ground (arith, taken))).0))
  ]

  cancel-Drained :
      (cause : Error) (phase : Phase) (t t' : Ticking W)
      → cancel cause phase t ≡ some t'
      → Drained t'
  cancel-Drained cause ticking t t' h e q = absurd (ground arith)
  cancel-Drained cause (stopping _) t t' h e q = cc
  cancel-Drained cause (returned _) t t' h e q = cc

  finish-Drained :
      (phase : Phase) (running : List Context) (t t' : Ticking W)
      → finish phase running t ≡ some t'
      → t.running ≡ running
      → Drained t'
  finish-Drained (stopping cause) [] t t' h p e q = (ground arith, (cause, ground arith))
  finish-Drained (stopping cause) (_ ∷ _) t t' h p e q = cc
  finish-Drained ticking running t t' h p e q = cc
  finish-Drained (returned _) running t t' h p e q = cc

  tick-Drained : (e : Event) (t t' : Ticking W) → tick s ctx e t ≡ some t' → Drained t → Drained t'
  unfolding tick
  tick-Drained (fires fired) t t' h inv = begin_call-Drained fired t.phase t t' h refl
  tick-Drained (completes i) t t' h inv = end_call-Drained i t t' h inv
  tick-Drained (cancelled cause) t t' h inv = cancel-Drained cause t.phase t t' h
  tick-Drained stopped t t' h inv = finish-Drained t.phase t.running t t' h refl

  run_ticks-Drained :
      (es : List Event) (t t' : Ticking W) → run_ticks s ctx es t ≡ some t' → Drained t → Drained t'
  unfolding run_ticks
  run_ticks-Drained [] t t' h inv = let same : t ≡ t' = cc in subst Drained same inv
  run_ticks-Drained (e ∷ es) t t' h inv = elim (Option-cases (tick s ctx e t)) [
    | inl stuck ↦ absurd (ground (arith, stuck))
    | inr (between, steps) ↦
        run_ticks-Drained es between t' (ground (arith, steps)) (tick-Drained e t between steps inv)
  ]

  winds_down :
      (cause : Error) (running : List Context) (lines : List Line) (w : W)
      → (t' : Ticking W) × (run_ticks s ctx
            (winding_down (length running))
            (record { world = w; running = running; lines = lines; phase = stopping cause })
          ≡ some t')
        × (t'.phase ≡ returned (wrapped "scheduler context canceled" cause))
  unfolding run_ticks tick remove_at
  winds_down cause [] lines w = (_, refl, refl)
  winds_down cause (c ∷ running) lines w =
      winds_down cause running (lines ++ end_line c (s.runner c w).0 ∷ []) (s.runner c w).1

  -- Wherever a scheduler is before its context is cancelled, when it is, and the calls that run then
  -- end one after the other, Run returns, with the error that is the cause.
  pub run_ticks-winding_down :
      (cause : Error) (t : Ticking W)
      → t.phase ≡ ticking
      → (t' : Ticking W) × (run_ticks s ctx (cancelled cause ∷ winding_down (length t.running)) t
          ≡ some t')
        × (t'.phase ≡ returned (wrapped "scheduler context canceled" cause))
  unfolding run_ticks tick
  run_ticks-winding_down cause t p =
      let (t', runs, ends) = winds_down cause t.running t.lines t.world in
      (t', ground (arith, p, runs), ends)

module _ {W S : Type 0} (parse : String → Result S) (add_func : String → Result (Unit {0})) where
  add_func_accepts :
      (expr : String) (runner : Context → Command W) (s : Scheduler W) (w : W)
      → ((spec : String) (schedule : S) → parse spec ≡ ok schedule → add_func spec ≡ ok tt)
      → new_scheduler parse expr runner ≡ ok s
      → start_scheduler add_func s w ≡ ok (start w)
  unfolding new_scheduler start_scheduler
  add_func_accepts expr runner s w adds h = elim (Result-cases (parse expr)) [
    | inl (schedule, parsed) ↦ ground (arith, parsed, adds expr schedule parsed)
    | inr (e, refused) ↦ absurd (ground (arith, refused))
  ]

  -- If AddFunc takes the expressions that the parser takes, then a scheduler from New never fails to
  -- add its function. When its Run returns, it is with the error of a cancelled context, whatever
  -- errors the runner gave; and for every ID, the log has as many lines that say that a call started,
  -- and as many that say that one ended, as the library made calls with this ID.
  pub start_scheduler-run_ticks :
      (expr : String) (runner : Context → Command W) (s : Scheduler W) (ctx : Context) (w : W)
      (es : List Event) (t : Ticking W) (e : Error) (id : String)
      → ((spec : String) (schedule : S) → parse spec ≡ ok schedule → add_func spec ≡ ok tt)
      → new_scheduler parse expr runner ≡ ok s
      → run_ticks s ctx es (start w) ≡ some t
      → t.phase ≡ returned e
      → (start_scheduler add_func s w ≡ ok (start w))
        × ((cause : Error) × (e ≡ wrapped "scheduler context canceled" cause))
        × (starts_logged id t.lines ≡ calls_of id es)
        × (ends_logged id t.lines ≡ calls_of id es)
  start_scheduler-run_ticks expr runner s ctx w es t e id adds made runs ends =
      let inv = run_ticks-Drained s ctx es (start w) t runs (λ e q. absurd (ground arith)) e ends in
      let (starts, ended) = run_ticks-calls_of s ctx id es w t runs inv.0 in
      (add_func_accepts expr runner s w adds made, inv.1, starts, ended)
