-- ===== src/Scheduler/Ticks.antt =====
-- What the calls of a scheduler leave in the log.
use platforma.Base.{
  ◌≡◌, refl, ◌∙◌, ℕ, zero, suc, ◌+◌, String, Bool, false, not, ◌&&◌, List, [], ◌∷◌, ◌++◌, Option,
  some, inl, inr, Option-cases, str_eq, arith, if◌then◌else◌,
}
use platforma.Base.Errors.{Error, Result, ok, err}
use platforma.Log.{Value, string}
use platforma.Log.Logger.{Context, package_key}
use platforma.Log.Tracing.{with_value}
use platforma.Scheduler.{
  Scheduler, Line, Phase, ticking, stopping, returned, Ticking, Event, fires, completes, cancelled,
  stopped, started_line, end_line, remove_at, call_context, begin_call, end_call, finish, cancel,
  start, tick, run_ticks,
}

module _ {A : Type 0} where
  unfoldable count : (A → Bool) → List A → ℕ
  count p [] = 0
  count p (a ∷ xs) = if p a then suc (count p xs) else count p xs

  count-append : (p : A → Bool) (xs ys : List A) → count p (xs ++ ys) ≡ count p xs + count p ys
  unfolding count
  count-append p [] ys = omega arith
  count-append p (a ∷ xs) ys = ground (arith, count-append p xs ys)

abbrev is_text : String → Option Value → Bool
is_text id (some (string s)) = str_eq id s
is_text id _ = false

abbrev pub carries : String → Context → Bool
carries id ctx = is_text id (ctx.value (package_key "traceId"))

abbrev is_start : Line → Bool
is_start l = str_eq l.message "scheduler task started"

-- The lines of a log that say that a call with this ID has started, and those that say it has ended.
unfoldable pub starts_logged : String → List Line → ℕ
unfolding count
starts_logged id lines = count (λ l. is_start l && carries id l.context) lines

unfoldable pub ends_logged : String → List Line → ℕ
unfolding count
ends_logged id lines = count (λ l. not (is_start l) && carries id l.context) lines

unfoldable running_calls : String → List Context → ℕ
unfolding count
running_calls id cs = count (carries id) cs

abbrev is_firing : String → Event → Bool
is_firing id (fires fired) = str_eq id fired
is_firing id _ = false

-- How often the library called the function while uuid gave this ID.
unfoldable pub calls_of : String → List Event → ℕ
unfolding count
calls_of id es = count (is_firing id) es

remove_at-count :
    (p : Context → Bool) (i : ℕ) (cs rest : List Context) (c : Context)
    → remove_at i cs ≡ some (c, rest)
    → count p cs ≡ count p (c ∷ []) + count p rest
unfolding remove_at count
remove_at-count p i [] rest c h = cc
remove_at-count p zero (d ∷ cs) rest c h = ground arith
remove_at-count p (suc i) (d ∷ cs) rest c h = elim (Option-cases (remove_at i cs)) [
  | inl e ↦ ground (arith, e)
  | inr ((d', rest'), e) ↦ ground (arith, e, remove_at-count p i cs rest' d' e)
]

call_context-carries :
    (ctx : Context) (id wanted : String) → carries wanted (call_context ctx id) ≡ str_eq wanted id
unfolding with_value
call_context-carries ctx id wanted = refl

logged_start :
    (id : String) (lines : List Line) (c : Context)
    → (starts_logged id (lines ++ started_line c ∷ [])
        ≡ starts_logged id lines + (if carries id c then 1 else 0))
      × (ends_logged id (lines ++ started_line c ∷ []) ≡ ends_logged id lines)
unfolding starts_logged ends_logged
logged_start id lines c = (
  count-append (λ l. is_start l && carries id l.context) lines (started_line c ∷ []),
  count-append (λ l. not (is_start l) && carries id l.context) lines (started_line c ∷ [])
      ∙ omega arith,
)

logged_end :
    (id : String) (lines : List Line) (c : Context) (r : Result (Unit {0}))
    → (starts_logged id (lines ++ end_line c r ∷ []) ≡ starts_logged id lines)
      × (ends_logged id (lines ++ end_line c r ∷ [])
          ≡ ends_logged id lines + (if carries id c then 1 else 0))
unfolding starts_logged ends_logged
logged_end id lines c (ok _) = (
  count-append (λ l. is_start l && carries id l.context) lines (end_line c (ok tt) ∷ [])
      ∙ omega arith,
  count-append (λ l. not (is_start l) && carries id l.context) lines (end_line c (ok tt) ∷ []),
)
logged_end id lines c (err e) = (
  count-append (λ l. is_start l && carries id l.context) lines (end_line c (err e) ∷ [])
      ∙ omega arith,
  count-append (λ l. not (is_start l) && carries id l.context) lines (end_line c (err e) ∷ []),
)

module _ {W : Type 0} (s : Scheduler W) (ctx : Context) where
  abbrev Balanced : String → (calls : ℕ) → (t t' : Ticking W) → Type 0
  Balanced id calls t t' =
      (starts_logged id t'.lines ≡ starts_logged id t.lines + calls)
      × (ends_logged id t'.lines + running_calls id t'.running + starts_logged id t.lines
          ≡ ends_logged id t.lines + running_calls id t.running + starts_logged id t'.lines)

  begin_call-Balanced :
      (id fired : String) (phase : Phase) (t t' : Ticking W)
      → begin_call ctx fired phase t ≡ some t'
      → Balanced id (calls_of id (fires fired ∷ [])) t t'
  unfolding running_calls calls_of
  begin_call-Balanced id fired ticking t t' h = ground (
    arith,
    logged_start id t.lines (call_context ctx fired),
    call_context-carries ctx fired id,
    count-append (carries id) t.running (call_context ctx fired ∷ []),
  )
  begin_call-Balanced id fired (stopping cause) t t' h = cc
  begin_call-Balanced id fired (returned e) t t' h = cc

  end_call-Balanced :
      (id : String) (i : ℕ) (t t' : Ticking W)
      → end_call s (remove_at i t.running) t ≡ some t'
      → Balanced id 0 t t'
  unfolding running_calls
  end_call-Balanced id i t t' h = elim (Option-cases (remove_at i t.running)) [
    | inl e ↦ ground (arith, e)
    | inr ((c, rest), e) ↦ ground (
      arith,
      e,
      remove_at-count (carries id) i t.running rest c e,
      logged_end id t.lines c (s.runner c t.world).0,
    )
  ]

  cancel-Balanced :
      (id : String) (cause : Error) (phase : Phase) (t t' : Ticking W)
      → cancel cause phase t ≡ some t'
      → Balanced id 0 t t'
  cancel-Balanced id cause ticking t t' h = ground arith
  cancel-Balanced id cause (stopping _) t t' h = cc
  cancel-Balanced id cause (returned _) t t' h = cc

  finish-Balanced :
      (id : String) (phase : Phase) (running : List Context) (t t' : Ticking W)
      → finish phase running t ≡ some t'
      → Balanced id 0 t t'
  finish-Balanced id (stopping cause) [] t t' h = ground arith
  finish-Balanced id (stopping cause) (_ ∷ _) t t' h = cc
  finish-Balanced id ticking running t t' h = cc
  finish-Balanced id (returned _) running t t' h = cc

  tick-Balanced :
      (id : String) (e : Event) (t t' : Ticking W)
      → tick s ctx e t ≡ some t'
      → Balanced id (calls_of id (e ∷ [])) t t'
  unfolding tick calls_of
  tick-Balanced id (fires fired) t t' h = begin_call-Balanced id fired t.phase t t' h
  tick-Balanced id (completes i) t t' h = end_call-Balanced id i t t' h
  tick-Balanced id (cancelled cause) t t' h = cancel-Balanced id cause t.phase t t' h
  tick-Balanced id stopped t t' h = finish-Balanced id t.phase t.running t t' h

  run_ticks-Balanced :
      (id : String) (es : List Event) (t t' : Ticking W)
      → run_ticks s ctx es t ≡ some t'
      → Balanced id (calls_of id es) t t'
  unfolding run_ticks calls_of
  run_ticks-Balanced id [] t t' h = ground arith
  run_ticks-Balanced id (e ∷ es) t t' h = elim (Option-cases (tick s ctx e t)) [
    | inl stuck ↦ ground (arith, stuck)
    | inr (between, steps) ↦ ground (
      arith,
      steps,
      tick-Balanced id e t between steps,
      run_ticks-Balanced id es between t' (ground (arith, steps)),
      count-append (is_firing id) (e ∷ []) es,
    )
  ]

  pub run_ticks-calls_of :
      (id : String) (es : List Event) (w : W) (t : Ticking W)
      → run_ticks s ctx es (start w) ≡ some t
      → t.running ≡ []
      → (starts_logged id t.lines ≡ calls_of id es) × (ends_logged id t.lines ≡ calls_of id es)
  unfolding starts_logged ends_logged running_calls
  run_ticks-calls_of id es w t runs idle =
      let (starts, balance) = run_ticks-Balanced id es (start w) t runs in
      (ground (arith, starts), ground (arith, starts, balance, idle))
