-- ===== src/Queue/Processor/Refinement.antt =====
-- The processor as a specification that knows no workers, channels or phases: jobs wait in line, are
-- being handled in no particular order, and are done.
use mathlib.Core.List.{Perm, perm-append_left_iff}
use platforma.Base.{
  ℕ, ◌≡◌, refl, sym, ap, subst, ◌∙◌, true, false, not, ◌&&◌, List, [], ◌∷◌, ◌++◌, none, some, arith,
  inl, inr, Bool-cases,
}
use platforma.Queue.ChanQueue.{
  ChanQueue, Outcome, returned, panicked, waits, SelectCase, enqueue_job, get_job_chan, open_queue,
}
use platforma.Queue.ChanQueue.Laws.{
  contents, is_live, contents-enqueue_job, contents-enqueue_job_failed, close_then_panics,
}
use platforma.Queue.Processor.{
  Phase, Worker, System, Choice, enqueue, cancel, check, receive, notice, expire, handled,
  handler_panics, hand_over, shut_down, worker_at, put_worker, start, check_phase, receive_phase,
  notice_phase, handled_phase, is_draining, all_finished, take_job, can_hand_over, after_enqueue,
  after_close, move, step, run,
}
use platforma.Queue.Processor.Invariant.{
  holds, in_hand, Inv, changed, not_closed, start-Inv, spawn-in_hand,
}
use platforma.Queue.Processor.Safety.{
  bind-eq-some, check_phase-Goes, receive_phase-Goes, notice_phase-Goes, handled_phase-Goes,
  take_job-open,
}
use platforma.Queue.Processor.Schedule.{guarded, step-Inv, can_hand_over-contents}

-- Of `working` only the items count, not their order.
pub record Jobs {ℓ} (A : Type ℓ) : Type ℓ where
  pub waiting : List A
  pub working : List A
  pub finished : List A

module _ {ℓ} {A : Type ℓ} where
  -- A job joins the line; the first in line is taken up; a job that is being handled is done.
  pub data JobsStep : Jobs A → Jobs A → Type ℓ where
    accept : {j : Jobs A} (job : A) → JobsStep j (record j { waiting = j.waiting ++ job ∷ [] })
    take_up :
        {j : Jobs A} {job : A} {waiting working : List A}
        → j.waiting ≡ job ∷ waiting
        → Perm (job ∷ j.working) working
        → JobsStep j (record j { waiting = waiting; working = working })
    complete :
        {j : Jobs A} {job : A} {working : List A}
        → Perm j.working (job ∷ working)
        → JobsStep j (record j { working = working; finished = j.finished ++ job ∷ [] })
    reorder :
        {j : Jobs A} {working : List A}
        → Perm j.working working
        → JobsStep j (record j { working = working })

  pub data JobsReach (j : Jobs A) : Jobs A → Type ℓ where
    here : JobsReach j j
    next : {k l : Jobs A} → JobsReach j k → JobsStep k l → JobsReach j l

  abbrev pub view : System A → Jobs A
  view s = record { waiting = contents s.queue; working = in_hand s.workers; finished = s.done }

  JobsReach-of :
      (j : Jobs A) {s s' : System A}
      → some s ≡ some s'
      → JobsReach j (view s)
      → JobsReach j (view s')
  JobsReach-of j {s} {s'} e r = let e' : s ≡ s' = cc in subst (λ x. JobsReach j (view x)) e' r

  append_reach : {j k l : Jobs A} → JobsReach j k → JobsReach k l → JobsReach j l
  append_reach r here = r
  append_reach r (next r' m) = next (append_reach r r') m

  module _ (s : System A) (v : Inv s) (i : ℕ) (w u : Worker A)
      (at : worker_at i s.workers ≡ some w) where
    keep-JobsStep :
        holds u.phase ≡ holds w.phase
        → JobsStep (view s) (view (record s { workers = put_worker i u s.workers }))
    keep-JobsStep same = JobsStep.reorder (
        (perm-append_left_iff (holds w.phase)).0
          (changed s v i w at u (holds w.phase) (holds w.phase) same refl))

    take-JobsStep :
        (job : A) (q : ChanQueue A) (accepted received : List A)
        → holds w.phase ≡ []
        → holds u.phase ≡ job ∷ []
        → contents s.queue ≡ job ∷ contents q
        → JobsStep (view s) (
            view (record s {
              queue = q;
              workers = put_worker i u s.workers;
              accepted = accepted;
              received = received;
            }))
    take-JobsStep job q accepted received hw hu oldest =
        JobsStep.take_up oldest (changed s v i w at u (job ∷ []) [] hu hw)

    complete-JobsStep :
        (job : A)
        → holds w.phase ≡ job ∷ []
        → holds u.phase ≡ []
        → JobsStep
            (view s)
            (view (record s { workers = put_worker i u s.workers; done = s.done ++ job ∷ [] }))
    complete-JobsStep job hw hu = JobsStep.complete (changed s v i w at u [] (job ∷ []) hu hw)

  enqueue-JobsReach :
      (s s' : System A) (c : SelectCase) (job : A) (o : Outcome A)
      → enqueue_job c s.queue job ≡ o
      → after_enqueue s job o ≡ some s'
      → JobsReach (view s) (view s')
  unfolding after_enqueue
  enqueue-JobsReach s s' c job (returned none q) h e = JobsReach-of (view s) e (
      subst (λ xs. JobsReach (view s) (record (view s) { waiting = xs }))
        (sym (contents-enqueue_job c s.queue q job h)) (next here (JobsStep.accept job)))
  enqueue-JobsReach s s' c job (returned (some x) q) h e = JobsReach-of (view s) e (
      subst (λ xs. JobsReach (view s) (record (view s) { waiting = xs }))
        (sym (contents-enqueue_job_failed c s.queue q job h)) here)
  enqueue-JobsReach s s' c job panicked h e = JobsReach-of (view s) e here
  enqueue-JobsReach s s' c job waits h e = cc

  shut_down-JobsReach :
      (z : A) (s s' : System A)
      → Inv s
      → step z shut_down s ≡ some s'
      → JobsReach (view s) (view s')
  unfolding step
  shut_down-JobsReach z s s' v e = elim (Bool-cases s.closed) [
    | inl closed ↦ cc (rw closed at e)
    | inr unclosed ↦ elim (Bool-cases (all_finished s.workers)) [
      | inr busy ↦ cc (rw (unclosed, busy) at e)
      | inl all ↦
          let (q', closes, kept, _, _, _) =
            close_then_panics s.queue v.opened (ground (arith, v.live, unclosed)) in
          JobsReach-of (view s) (unfold after_close in rw (unclosed, all, closes) at e)
            (subst (λ xs. JobsReach (view s) (record (view s) { waiting = xs })) (sym kept) here)
    ]
  ]

  hand_over-JobsReach :
      (s : System A) (v : Inv s) (i : ℕ) (w : Worker A) (p : Phase A) (job : A)
      → worker_at i s.workers ≡ some w
      → receive_phase job w.phase ≡ some p
      → can_hand_over (get_job_chan s.queue) ≡ true
      → JobsReach (view s) (
          view (record (move s i w p) {
            accepted = s.accepted ++ job ∷ [];
            received = s.received ++ job ∷ [];
          }))
  unfolding move
  hand_over-JobsReach s v i w p job at next_phase can =
      let (busy, before, after) = receive_phase-Goes job w.phase p next_phase in
      let empty = can_hand_over-contents s.queue can in
      next (next here (JobsStep.accept job)) (
        JobsStep.take_up (ap (λ xs. xs ++ job ∷ []) empty ∙ ap (λ xs. job ∷ xs) (sym empty))
          (changed s v i w at (record w { phase = p }) (job ∷ []) [] after before))

  step-JobsReach :
      (z : A) (c : Choice A) (s s' : System A)
      → Inv s
      → step z c s ≡ some s'
      → JobsReach (view s) (view s')
  unfolding step move
  step-JobsReach z (enqueue c job) s s' v e =
      enqueue-JobsReach s s' c job (enqueue_job c s.queue job) refl e
  step-JobsReach z cancel s s' v e = JobsReach-of (view s) e here
  step-JobsReach z (check i) s s' v e =
      let (w, at, e₁) = bind-eq-some (worker_at i s.workers) _ e in
      let (p, goes, e₂) = bind-eq-some (check_phase s.cancelled w.expired w.phase) _ e₁ in
      let (_, before, after) = check_phase-Goes s.cancelled w.expired w.phase p goes in
      JobsReach-of (view s) e₂
        (next here (keep-JobsStep s v i w (record w { phase = p }) at (after ∙ sym before)))
  step-JobsReach z (receive i) s s' v e =
      let (w, at, e₁) = bind-eq-some (worker_at i s.workers) _ e in
      let (jq, taken, e₂) = bind-eq-some (take_job z s.queue (get_job_chan s.queue)) _ e₁ in
      let (p, goes, e₃) = bind-eq-some (receive_phase jq.0 w.phase) _ e₂ in
      let (busy, before, after) = receive_phase-Goes jq.0 w.phase p goes in
      let alive : is_live s.queue ≡ true = ground (arith, v.live, not_closed s v i w at busy) in
      let (oldest, _, _, _) = take_job-open z jq.0 s.queue jq.1 alive taken v.bounded v.opened in
      JobsReach-of (view s) e₃ (
        next here (
          take-JobsStep s v i w (record w { phase = p }) at jq.0 jq.1 s.accepted
            (s.received ++ jq.0 ∷ []) before after oldest))
  step-JobsReach z (notice i) s s' v e =
      let (w, at, e₁) = bind-eq-some (worker_at i s.workers) _ e in
      let (p, goes, e₂) = bind-eq-some (notice_phase s.cancelled w.expired w.phase) _ e₁ in
      let (_, before, after) = notice_phase-Goes s.cancelled w.expired w.phase p goes in
      JobsReach-of (view s) e₂
        (next here (keep-JobsStep s v i w (record w { phase = p }) at (after ∙ sym before)))
  step-JobsReach z (expire i) s s' v e =
      let (w, at, e₁) = bind-eq-some (worker_at i s.workers) _ e in
      let (_, e₂) = guarded (is_draining w.phase && not w.expired) e₁ in
      JobsReach-of (view s) e₂
        (next here (keep-JobsStep s v i w (record w { expired = true }) at refl))
  step-JobsReach z (handled i) s s' v e =
      let (w, at, e₁) = bind-eq-some (worker_at i s.workers) _ e in
      let (jp, ended, e₂) = bind-eq-some (handled_phase false w.phase) _ e₁ in
      let (_, before, after) = handled_phase-Goes false w.phase jp.1 jp.0 ended in
      JobsReach-of (view s) e₂
        (next here (complete-JobsStep s v i w (record w { phase = jp.1 }) at jp.0 before after))
  step-JobsReach z (handler_panics i) s s' v e =
      let (w, at, e₁) = bind-eq-some (worker_at i s.workers) _ e in
      let (jp, ended, e₂) = bind-eq-some (handled_phase true w.phase) _ e₁ in
      let (_, before, after) = handled_phase-Goes true w.phase jp.1 jp.0 ended in
      JobsReach-of (view s) e₂
        (next here (complete-JobsStep s v i w (record w { phase = jp.1 }) at jp.0 before after))
  step-JobsReach z (hand_over i job) s s' v e =
      let (w, at, e₁) = bind-eq-some (worker_at i s.workers) _ e in
      let (p, goes, e₂) = bind-eq-some (receive_phase job w.phase) _ e₁ in
      let (can, e₃) = guarded (can_hand_over (get_job_chan s.queue)) e₂ in
      JobsReach-of (view s) e₃ (hand_over-JobsReach s v i w p job at goes can)
  step-JobsReach z shut_down s s' v e = shut_down-JobsReach z s s' v e

  run_from-JobsReach :
      (z : A) (cs : List (Choice A)) (s s' : System A)
      → Inv s
      → run z cs s ≡ some s'
      → JobsReach (view s) (view s')
  unfolding run
  run_from-JobsReach z [] s s' v e = JobsReach-of (view s) e here
  run_from-JobsReach z (c ∷ cs) s s' v e =
      let (t, first, rest) = bind-eq-some (step z c s) (run z cs) e in
      append_reach (step-JobsReach z c s t v first)
        (run_from-JobsReach z cs t s' (step-Inv z c s t v first) rest)

  -- Every schedule of callers, workers and Run, from the start of Run on a queue not opened before,
  -- is a run of the specification from no jobs at all: jobs join a line, leave it in its order, are
  -- handled in any order, and are done once each.
  pub run-JobsReach :
      (z : A) (cs : List (Choice A)) (q : ChanQueue A) (n : ℕ) (s : System A)
      → q.opened ≡ false
      → run z cs (start q n) ≡ some s
      → JobsReach (record { waiting = []; working = []; finished = [] }) (view s)
  run-JobsReach z cs q n s fresh e =
      subst (λ j. JobsReach j (view s)) (start-view q n fresh)
        (run_from-JobsReach z cs (start q n) s (start-Inv q n fresh) e)
    where
      start-view :
          (p : ChanQueue A) (k : ℕ)
          → p.opened ≡ false
          → view (start p k) ≡ record { waiting = []; working = []; finished = [] }
      start-view p k h = unfold start open_queue in rw (h, spawn-in_hand k) refl
