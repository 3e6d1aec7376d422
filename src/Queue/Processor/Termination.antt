-- ===== src/Queue/Processor/Termination.antt =====
-- The shutdown of the processor: once ctx is done, the workers and Run come to an end.
use platforma.Base.{
  ℕ, zero, suc, ◌+◌, ◌*◌, ◌≤◌, ◌<◌, ◌≡◌, inl, inr, refl, ap, subst, ◌∙◌, Bool, true, false, not,
  ◌&&◌, List, [], ◌∷◌, ◌++◌, some, arith, length, All, Bool-cases, if◌then◌else◌,
}
use platforma.Queue.ChanQueue.{ChanQueue, get_job_chan}
use platforma.Queue.ChanQueue.Laws.{contents, is_live, close_then_panics}
use platforma.Queue.Processor.{
  Phase, starting, main_check, main_select, handling, drain_check, drain_select, draining, finished,
  Worker, System, Choice, enqueue, cancel, check, receive, notice, expire, handled, handler_panics,
  hand_over, shut_down, worker_at, put_worker, check_phase, receive_phase, notice_phase,
  handled_phase, is_draining, all_finished, take_job, after_close, move, step, run,
}
use platforma.Queue.Processor.Invariant.{Inv, not_closed}
use platforma.Queue.Processor.Safety.{bind-eq-some, take_job-open, receive_phase-Goes}
use platforma.Queue.Processor.Schedule.{guarded, step-Inv}

module _ {ℓ} {A : Type ℓ} where
  -- What the workers and Run do by themselves: all but calls of Enqueue and the end of ctx.
  abbrev pub IsInternal : Choice A → Type 0
  IsInternal (enqueue _ _) = ⊥
  IsInternal cancel = ⊥
  IsInternal (hand_over _ _) = ⊥
  IsInternal _ = Unit

  unfoldable pub phase_weight : Phase A → ℕ
  phase_weight starting = 4
  phase_weight main_check = 3
  phase_weight main_select = 3
  phase_weight (handling _) = 4
  phase_weight drain_check = 2
  phase_weight drain_select = 1
  phase_weight (draining _) = 3
  phase_weight finished = 0

  unfoldable pub worker_weight : Worker A → ℕ
  unfolding phase_weight
  worker_weight w = phase_weight w.phase + (if w.expired then 0 else 1)

  unfoldable pub total : List (Worker A) → ℕ
  total [] = 0
  total (w ∷ ws) = worker_weight w + total ws

  -- How many internal steps can still follow once ctx is done.
  unfoldable pub weight : System A → ℕ
  unfolding total
  weight s = total s.workers + 3 * length (contents s.queue) + (if s.closed then 0 else 1)

  total-put_worker :
      (i : ℕ) (ws : List (Worker A)) (w v : Worker A)
      → worker_at i ws ≡ some w
      → total (put_worker i v ws) + worker_weight w ≡ total ws + worker_weight v
  unfolding worker_at put_worker total
  total-put_worker i [] w v h = cc
  total-put_worker zero (x ∷ ws) w v h = let e : x ≡ w = cc in omega (arith, ap worker_weight e)
  total-put_worker (suc i) (x ∷ ws) w v h = omega (arith, total-put_worker i ws w v h)

  check_phase-weight :
      (expired : Bool) (p p' : Phase A)
      → check_phase true expired p ≡ some p'
      → phase_weight p' < phase_weight p
  unfolding check_phase phase_weight
  check_phase-weight expired p p' h = ground arith

  notice_phase-weight :
      (c expired : Bool) (p p' : Phase A)
      → notice_phase c expired p ≡ some p'
      → phase_weight p' < phase_weight p
  unfolding notice_phase phase_weight
  notice_phase-weight c expired p p' h = ground arith

  handled_phase-weight :
      (panics : Bool) (p : Phase A) (jp : A × Phase A)
      → handled_phase panics p ≡ some jp
      → phase_weight jp.1 < phase_weight p
  unfolding handled_phase phase_weight
  handled_phase-weight panics p jp h = ground arith

  receive_phase-weight :
      (job : A) (p p' : Phase A)
      → receive_phase job p ≡ some p'
      → phase_weight p' < phase_weight p + 3
  unfolding receive_phase phase_weight
  receive_phase-weight job p p' h = ground arith

  -- A step that changes one worker and leaves the queue alone.
  move-weight :
      (s : System A) (i : ℕ) (w v : Worker A) (done : List A)
      → worker_at i s.workers ≡ some w
      → worker_weight v < worker_weight w
      → weight (record s { workers = put_worker i v s.workers; done = done }) < weight s
  unfolding weight
  move-weight s i w v done at less = omega (arith, total-put_worker i s.workers w v at)

  phase-worker_weight :
      (w : Worker A) (p : Phase A)
      → phase_weight p < phase_weight w.phase
      → worker_weight (record w { phase = p }) < worker_weight w
  unfolding worker_weight
  phase-worker_weight w p less = omega arith

  abbrev Less : System A → System A → Type 0
  Less s' s = (weight s' < weight s) × (s'.cancelled ≡ s.cancelled)

  Less-of : (s : System A) {t t' : System A} → some t ≡ some t' → Less t s → Less t' s
  Less-of s {t} {t'} e l = let e' : t ≡ t' = cc in subst (λ x. Less x s) e' l

  receive-Less :
      (z job : A) (i : ℕ) (s : System A) (w : Worker A) (p : Phase A) (q : ChanQueue A)
      → Inv s
      → worker_at i s.workers ≡ some w
      → take_job z s.queue (get_job_chan s.queue) ≡ some (job, q)
      → receive_phase job w.phase ≡ some p
      → Less (record (move s i w p) { queue = q; received = s.received ++ job ∷ [] }) s
  unfolding move weight worker_weight
  receive-Less z job i s w p q v at taken next =
      let (busy, _, _) = receive_phase-Goes job w.phase p next in
      let alive : is_live s.queue ≡ true = ground (arith, v.live, not_closed s v i w at busy) in
      let (oldest, _, _, _) = take_job-open z job s.queue q alive taken v.bounded v.opened in
      (
        omega (
          arith,
          total-put_worker i s.workers w (record w { phase = p }) at,
          receive_phase-weight job w.phase p next,
          ap length oldest,
        ),
        refl,
      )

  shut_down-Less : (z : A) (s s' : System A) → Inv s → step z shut_down s ≡ some s' → Less s' s
  unfolding step
  shut_down-Less z s s' v e = elim (Bool-cases s.closed) [
    | inl closed ↦ cc (rw closed at e)
    | inr unclosed ↦ elim (Bool-cases (all_finished s.workers)) [
      | inr busy ↦ cc (rw (unclosed, busy) at e)
      | inl all ↦
          let (q', closes, kept, _, _, _) =
            close_then_panics s.queue v.opened (ground (arith, v.live, unclosed)) in
          Less-of s (unfold after_close in rw (unclosed, all, closes) at e)
            (unfold weight in (ground (arith, ap length kept, unclosed), refl))
    ]
  ]

  step-Less :
      (z : A) (c : Choice A) (s s' : System A)
      → Inv s
      → s.cancelled ≡ true
      → IsInternal c
      → step z c s ≡ some s'
      → Less s' s
  unfolding step
  step-Less z (enqueue _ _) s s' v stop int e = absurd int
  step-Less z cancel s s' v stop int e = absurd int
  step-Less z (hand_over _ _) s s' v stop int e = absurd int
  step-Less z (check i) s s' v stop _ e =
      let (w, at, e₁) = bind-eq-some (worker_at i s.workers) _ e in
      let (p, next, e₂) = bind-eq-some (check_phase s.cancelled w.expired w.phase) _ e₁ in
      let less = check_phase-weight w.expired w.phase p (rw stop at next) in
      Less-of s e₂
        (move-weight s i w (record w { phase = p }) s.done at (phase-worker_weight w p less), refl)
  step-Less z (receive i) s s' v stop _ e =
      let (w, at, e₁) = bind-eq-some (worker_at i s.workers) _ e in
      let (jq, taken, e₂) = bind-eq-some (take_job z s.queue (get_job_chan s.queue)) _ e₁ in
      let (p, next, e₃) = bind-eq-some (receive_phase jq.0 w.phase) _ e₂ in
      Less-of s e₃ (receive-Less z jq.0 i s w p jq.1 v at taken next)
  step-Less z (notice i) s s' v stop _ e =
      let (w, at, e₁) = bind-eq-some (worker_at i s.workers) _ e in
      let (p, next, e₂) = bind-eq-some (notice_phase s.cancelled w.expired w.phase) _ e₁ in
      let less = notice_phase-weight s.cancelled w.expired w.phase p next in
      Less-of s e₂
        (move-weight s i w (record w { phase = p }) s.done at (phase-worker_weight w p less), refl)
  step-Less z (expire i) s s' v stop _ e =
      let (w, at, e₁) = bind-eq-some (worker_at i s.workers) _ e in
      let (d, e₂) = guarded (is_draining w.phase && not w.expired) e₁ in
      Less-of s e₂ (
        move-weight s i w (record w { expired = true }) s.done at
            (unfold worker_weight in ground (arith, d)),
        refl,
      )
  step-Less z (handled i) s s' v stop _ e =
      let (w, at, e₁) = bind-eq-some (worker_at i s.workers) _ e in
      let (jp, ended, e₂) = bind-eq-some (handled_phase false w.phase) _ e₁ in
      let less = handled_phase-weight false w.phase jp ended in
      Less-of s e₂ (
        move-weight s i w (record w { phase = jp.1 }) (s.done ++ jp.0 ∷ []) at
            (phase-worker_weight w jp.1 less),
        refl,
      )
  step-Less z (handler_panics i) s s' v stop _ e =
      let (w, at, e₁) = bind-eq-some (worker_at i s.workers) _ e in
      let (jp, ended, e₂) = bind-eq-some (handled_phase true w.phase) _ e₁ in
      let less = handled_phase-weight true w.phase jp ended in
      Less-of s e₂ (
        move-weight s i w (record w { phase = jp.1 }) (s.done ++ jp.0 ∷ []) at
            (phase-worker_weight w jp.1 less),
        refl,
      )
  step-Less z shut_down s s' v stop _ e = shut_down-Less z s s' v e

  pub run-Less :
      (z : A) (cs : List (Choice A)) (s s' : System A)
      → Inv s
      → s.cancelled ≡ true
      → All IsInternal cs
      → run z cs s ≡ some s'
      → (length cs + weight s' ≤ weight s) × (s'.cancelled ≡ true) × Inv s'
  unfolding run
  run-Less z [] s s' v stop int e =
      let e' : s ≡ s' = cc in
      subst (λ x. (0 + weight x ≤ weight s) × (x.cancelled ≡ true) × Inv x) e'
        (omega arith, stop, v)
  run-Less z (c ∷ cs) s s' v stop int e =
      let (t, first, rest) = bind-eq-some (step z c s) (run z cs) e in
      let (less, same) = step-Less z c s t v stop int.0 first in
      let (more, stopped, w) =
        run-Less z cs t s' (step-Inv z c s t v first) (same ∙ stop) int.1 rest in
      (omega (arith, less, more), stopped, w)
