-- ===== src/Queue/Processor/Schedule.antt =====
-- Every schedule keeps the invariant: no job is lost, made up, repeated or overtaken.
use mathlib.Core.List.{append_assoc, append-nil}
use platforma.Base.{
  ℕ, ◌≡◌, refl, sym, ap, ◌∙◌, Bool, true, false, not, ◌&&◌, List, [], ◌∷◌, ◌++◌, none, some, inl,
  inr, arith, Bool-cases, if◌then◌else◌,
}
use platforma.Queue.ChanQueue.{ChanQueue, close_queue, enqueue_job, get_job_chan}
use platforma.Queue.ChanQueue.Laws.{contents, is_live, close_then_panics}
use platforma.Queue.Processor.{
  Phase, Worker, System, Choice, after_close, enqueue, cancel, check, receive, notice, expire,
  handled, handler_panics, hand_over, shut_down, worker_at, put_worker, check_phase, receive_phase,
  notice_phase, handled_phase, is_draining, is_finished, all_finished, take_job, can_hand_over,
  move, step, run, start,
}
use platforma.Queue.Processor.Invariant.{Inv, start-Inv, keep-Inv, take-Inv, finish-Inv, not_closed}
use platforma.Queue.Processor.Safety.{
  bind-eq-some, check_phase-Goes, receive_phase-Goes, notice_phase-Goes, handled_phase-Goes, Inv-of,
  enqueue_outcome-Inv, close_outcome-Inv, take_job-open,
}

module _ {ℓ} {A : Type ℓ} where
  is_draining-unfinished : (w : Worker A) → is_draining w.phase ≡ true → is_finished w.phase ≡ false
  is_draining-unfinished w h = ground arith

  pub can_hand_over-contents :
      (q : ChanQueue A) → can_hand_over (get_job_chan q) ≡ true → contents q ≡ []
  unfolding can_hand_over get_job_chan
  can_hand_over-contents q h = ground arith

  -- A worker takes a job from the queue, which Run has not closed.
  receive-Inv :
      (z job : A) (i : ℕ) (s : System A) (w : Worker A) (p : Phase A) (q : ChanQueue A)
      → Inv s
      → worker_at i s.workers ≡ some w
      → take_job z s.queue (get_job_chan s.queue) ≡ some (job, q)
      → receive_phase job w.phase ≡ some p
      → Inv (record (move s i w p) { queue = q; received = s.received ++ job ∷ [] })
  unfolding move
  receive-Inv z job i s w p q v at taken next =
      let (busy, before, after) = receive_phase-Goes job w.phase p next in
      let unclosed = not_closed s v i w at busy in
      let alive : is_live s.queue ≡ true = ground (arith, v.live, unclosed) in
      let (oldest, bounded, opened, live) =
        take_job-open z job s.queue q alive taken v.bounded v.opened in
      take-Inv s v i w at (record w { phase = p }) job q s.accepted busy before after
        (append_assoc s.received (job ∷ []) (contents q)
          ∙ ap (λ xs. s.received ++ xs) (sym oldest)
          ∙ v.fifo)
        bounded opened live

  hand_over-Inv :
      (job : A) (i : ℕ) (s : System A) (w : Worker A) (p : Phase A)
      → Inv s
      → worker_at i s.workers ≡ some w
      → receive_phase job w.phase ≡ some p
      → can_hand_over (get_job_chan s.queue) ≡ true
      → Inv (record (move s i w p) {
        accepted = s.accepted ++ job ∷ [];
        received = s.received ++ job ∷ [];
      })
  unfolding move
  hand_over-Inv job i s w p v at next can =
      let (busy, before, after) = receive_phase-Goes job w.phase p next in
      let empty = can_hand_over-contents s.queue can in
      let all : s.received ≡ s.accepted =
        sym (append-nil s.received) ∙ ap (λ xs. s.received ++ xs) (sym empty) ∙ v.fifo in
      take-Inv s v i w at (record w { phase = p }) job s.queue (s.accepted ++ job ∷ []) busy before
        after
        (ap (λ xs. (s.received ++ job ∷ []) ++ xs) empty
          ∙ append-nil (s.received ++ job ∷ [])
          ∙ ap (λ xs. xs ++ job ∷ []) all)
        v.bounded v.opened refl

  expire-Inv :
      (i : ℕ) (s : System A) (w : Worker A)
      → Inv s
      → worker_at i s.workers ≡ some w
      → is_draining w.phase ≡ true
      → Inv (record s { workers = put_worker i (record w { expired = true }) s.workers })
  expire-Inv i s w v at d =
      keep-Inv s v i w at (record w { expired = true }) (is_draining-unfinished w d) refl

  -- An `if` without an else branch that gives a state.
  pub guarded :
      (b : Bool) {s s' : System A}
      → (if b then some s else none) ≡ some s'
      → (b ≡ true) × (some s ≡ some s')
  guarded true e = (refl, e)
  guarded false e = cc

  shut_down-Inv :
      (s s' : System A)
      → Inv s
      → (if s.closed
          then none
          else if all_finished s.workers
          then after_close s (close_queue s.queue)
          else none)
        ≡ some s'
      → Inv s'
  shut_down-Inv s s' v e = elim (Bool-cases s.closed) [
    | inl closed ↦ cc (rw closed at e)
    | inr unclosed ↦ elim (Bool-cases (all_finished s.workers)) [
      | inl all ↦
          close_outcome-Inv s s' (close_queue s.queue) v all refl (ground (arith, unclosed, all))
      | inr busy ↦ cc (rw (unclosed, busy) at e)
    ]
  ]

  pub step-Inv :
      (zero_job : A) (c : Choice A) (s s' : System A) → Inv s → step zero_job c s ≡ some s' → Inv s'
  unfolding step
  step-Inv z (enqueue c job) s s' v e =
      enqueue_outcome-Inv s s' c job (enqueue_job c s.queue job) v refl e
  step-Inv z cancel s s' v e = Inv-of e (record {
    fifo = v.fifo;
    accounted = v.accounted;
    bounded = v.bounded;
    opened = v.opened;
    live = v.live;
    ended = v.ended;
  })
  step-Inv z (check i) s s' v e =
      let (w, at, e₁) = bind-eq-some (worker_at i s.workers) _ e in
      let (p, next, e₂) = bind-eq-some (check_phase s.cancelled w.expired w.phase) _ e₁ in
      let (busy, before, after) = check_phase-Goes s.cancelled w.expired w.phase p next in
      Inv-of e₂ (keep-Inv s v i w at (record w { phase = p }) busy (after ∙ sym before))
  step-Inv z (receive i) s s' v e =
      let (w, at, e₁) = bind-eq-some (worker_at i s.workers) _ e in
      let (jq, taken, e₂) = bind-eq-some (take_job z s.queue (get_job_chan s.queue)) _ e₁ in
      let (p, next, e₃) = bind-eq-some (receive_phase jq.0 w.phase) _ e₂ in
      Inv-of e₃ (receive-Inv z jq.0 i s w p jq.1 v at taken next)
  step-Inv z (notice i) s s' v e =
      let (w, at, e₁) = bind-eq-some (worker_at i s.workers) _ e in
      let (p, next, e₂) = bind-eq-some (notice_phase s.cancelled w.expired w.phase) _ e₁ in
      let (busy, before, after) = notice_phase-Goes s.cancelled w.expired w.phase p next in
      Inv-of e₂ (keep-Inv s v i w at (record w { phase = p }) busy (after ∙ sym before))
  step-Inv z (expire i) s s' v e =
      let (w, at, e₁) = bind-eq-some (worker_at i s.workers) _ e in
      let (d, e₂) = guarded (is_draining w.phase && not w.expired) e₁ in
      Inv-of e₂ (expire-Inv i s w v at (ground (arith, d)))
  step-Inv z (handled i) s s' v e =
      let (w, at, e₁) = bind-eq-some (worker_at i s.workers) _ e in
      let (jp, ended, e₂) = bind-eq-some (handled_phase false w.phase) _ e₁ in
      let (busy, before, after) = handled_phase-Goes false w.phase jp.1 jp.0 ended in
      Inv-of e₂ (finish-Inv s v i w at (record w { phase = jp.1 }) jp.0 busy before after)
  step-Inv z (handler_panics i) s s' v e =
      let (w, at, e₁) = bind-eq-some (worker_at i s.workers) _ e in
      let (jp, ended, e₂) = bind-eq-some (handled_phase true w.phase) _ e₁ in
      let (busy, before, after) = handled_phase-Goes true w.phase jp.1 jp.0 ended in
      Inv-of e₂ (finish-Inv s v i w at (record w { phase = jp.1 }) jp.0 busy before after)
  step-Inv z (hand_over i job) s s' v e =
      let (w, at, e₁) = bind-eq-some (worker_at i s.workers) _ e in
      let (p, next, e₂) = bind-eq-some (receive_phase job w.phase) _ e₁ in
      let (can, e₃) = guarded (can_hand_over (get_job_chan s.queue)) e₂ in
      Inv-of e₃ (hand_over-Inv job i s w p v at next can)
  step-Inv z shut_down s s' v e = shut_down-Inv s s' v e

  run_from-Inv :
      (zero_job : A) (cs : List (Choice A)) (s s' : System A)
      → Inv s
      → run zero_job cs s ≡ some s'
      → Inv s'
  unfolding run
  run_from-Inv z [] s s' v e = Inv-of e v
  run_from-Inv z (c ∷ cs) s s' v e =
      let (t, first, rest) = bind-eq-some (step z c s) (run z cs) e in
      run_from-Inv z cs t s' (step-Inv z c s t v first) rest

  -- Under every schedule from the start of Run on a queue not opened before: the jobs that workers have received, followed by
  -- those that wait in the queue, are the accepted jobs in their order; the received jobs are those
  -- in hand and those done, each as often; the queue holds at most its buffer size; and the queue is
  -- closed only after all workers have returned.
  pub run-Inv :
      (zero_job : A) (cs : List (Choice A)) (q : ChanQueue A) (n : ℕ) (s : System A)
      → q.opened ≡ false
      → run zero_job cs (start q n) ≡ some s
      → Inv s
  run-Inv z cs q n s fresh e = run_from-Inv z cs (start q n) s (start-Inv q n fresh) e

  pub close_after :
      (z : A) (s : System A)
      → Inv s
      → all_finished s.workers ≡ true
      → s.closed ≡ false
      → (s' : System A) × (step z shut_down s ≡ some s')
        × (s'.closed ≡ true)
        × (contents s'.queue ≡ contents s.queue)
  close_after z s v all unclosed =
      let (q', closed, kept, _, _, _) =
        close_then_panics s.queue v.opened (ground (arith, v.live, unclosed)) in
      (
        record s { queue = q'; closed = true },
        unfold step after_close in rw (unclosed, all, closed),
        refl,
        kept,
      )

  -- Under every schedule from the start of Run on a queue not opened before: once all workers have
  -- returned, Run can close the queue without a panic, and the jobs that still wait stay in it.
  pub shut_down_succeeds :
      (zero_job : A) (cs : List (Choice A)) (q : ChanQueue A) (n : ℕ) (s : System A)
      → q.opened ≡ false
      → run zero_job cs (start q n) ≡ some s
      → all_finished s.workers ≡ true
      → s.closed ≡ false
      → (s' : System A) × (step zero_job shut_down s ≡ some s')
        × (s'.closed ≡ true)
        × (contents s'.queue ≡ contents s.queue)
  shut_down_succeeds z cs q n s fresh e all unclosed =
      close_after z s (run-Inv z cs q n s fresh e) all unclosed
