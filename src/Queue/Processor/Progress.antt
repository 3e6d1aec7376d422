-- ===== src/Queue/Processor/Progress.antt =====
-- No deadlock, and the bound on the shutdown.
use platforma.Base.{
  ℕ, zero, suc, ◌+◌, ◌*◌, ◌≤◌, ◌≡◌, ◌⊎◌, inl, inr, refl, ap, ◌∙◌, true, false, not, ◌&&◌, List, [],
  ◌∷◌, ◌++◌, some, arith, length, All, Bool-cases, if◌then◌else◌,
}
use platforma.Queue.ChanQueue.{
  ChanQueue, send, timed_out, cancelled, enqueue_job, close_queue, open_queue,
}
use platforma.Queue.Processor.{
  Phase, starting, main_check, main_select, handling, drain_check, drain_select, draining, finished,
  Worker, System, Choice, enqueue, cancel, check, receive, notice, expire, handled, handler_panics,
  hand_over, shut_down, worker_at, put_worker, spawn, start, check_phase, notice_phase,
  handled_phase, is_draining, is_finished, all_finished, take_job, after_close, after_enqueue, move,
  step, run,
}
use platforma.Queue.Processor.Invariant.{Inv}
use platforma.Queue.Processor.Safety.{bind-eq-some}
use platforma.Queue.Processor.Schedule.{run-Inv, close_after}
use platforma.Queue.Processor.Termination.{
  IsInternal, weight, worker_weight, total, run-Less, phase_weight,
}

length-spawn {ℓ} : (A : Type ℓ) (n : ℕ) → length (spawn {A = A} n) ≡ n
unfolding spawn
length-spawn A zero = refl
length-spawn A (suc n) = ap suc (length-spawn A n)

module _ {ℓ} {A : Type ℓ} where
  -- A worker or Run can go on.
  abbrev pub CanMove : A → System A → Type ℓ
  CanMove z s = (c : Choice A) × IsInternal c × (s' : System A) × (step z c s ≡ some s')

  find_unfinished :
      (ws : List (Worker A))
      → all_finished ws ≡ false
      → (i : ℕ) × (w : Worker A) × (worker_at i ws ≡ some w) × (is_finished w.phase ≡ false)
  unfolding all_finished worker_at
  find_unfinished [] h = cc
  find_unfinished (w ∷ ws) h = elim (Bool-cases (is_finished w.phase)) [
    | inr busy ↦ (0, w, refl, busy)
    | inl ended ↦ let (i, v, at, busy) = find_unfinished ws (rw ended at h) in (suc i, v, at, busy)
  ]

  module _ (z : A) (s : System A) (i : ℕ) (w : Worker A) (at : worker_at i s.workers ≡ some w) where
    can_check : (p : Phase A) → check_phase s.cancelled w.expired w.phase ≡ some p → CanMove z s
    can_check p e = (check i, tt, move s i w p, unfold step in rw (at, e) refl)

    can_notice : (p : Phase A) → notice_phase s.cancelled w.expired w.phase ≡ some p → CanMove z s
    can_notice p e = (notice i, tt, move s i w p, unfold step in rw (at, e) refl)

    can_expire : is_draining w.phase && not w.expired ≡ true → CanMove z s
    can_expire e = (expire i, tt, expired_state, unfold step in rw (at, e) refl)
      where
        expired_state : System A
        expired_state = record s { workers = put_worker i (record w { expired = true }) s.workers }

    can_handle : (job : A) (p : Phase A) → handled_phase false w.phase ≡ some (job, p) → CanMove z s
    can_handle job p e = (
      handled i,
      tt,
      record (move s i w p) { done = s.done ++ job ∷ [] },
      unfold step in rw (at, e) refl,
    )

    phase_moves :
        (p : Phase A) → s.cancelled ≡ true → w.phase ≡ p → is_finished p ≡ false → CanMove z s
    unfolding check_phase notice_phase handled_phase
    phase_moves starting stop e h = can_check main_check (rw e refl)
    phase_moves main_check stop e h = can_check drain_check (rw (e, stop) refl)
    phase_moves main_select stop e h = can_notice drain_check (rw (e, stop) refl)
    phase_moves (handling job) stop e h = can_handle job main_check (rw e refl)
    phase_moves drain_check stop e h =
        can_check (if w.expired then finished else drain_select) (rw e refl)
    phase_moves drain_select stop e h = elim (Bool-cases w.expired) [
      | inl over ↦ can_notice finished (rw (e, stop, over) refl)
      | inr early ↦ can_expire (rw (e, early) refl)
    ]
    phase_moves (draining job) stop e h = can_handle job drain_check (rw e refl)
    phase_moves finished stop e h = cc

  length-put_worker :
      (i : ℕ) (v : Worker A) (ws : List (Worker A)) → length (put_worker i v ws) ≡ length ws
  unfolding put_worker
  length-put_worker i v [] = refl
  length-put_worker zero v (w ∷ ws) = refl
  length-put_worker (suc i) v (w ∷ ws) = ap suc (length-put_worker i v ws)

  -- What no step changes.
  abbrev Same : System A → System A → Type 0
  Same s' s = (length s'.workers ≡ length s.workers) × (s'.queue.buffer_size ≡ s.queue.buffer_size)

  step-Same : (z : A) (c : Choice A) (s s' : System A) → step z c s ≡ some s' → Same s' s
  unfolding step after_enqueue after_close enqueue_job close_queue take_job move
  step-Same z (enqueue send job) s s' e = ground arith
  step-Same z (enqueue timed_out job) s s' e = ground arith
  step-Same z (enqueue cancelled job) s s' e = ground arith
  step-Same z cancel s s' e = ground arith
  step-Same z (hand_over i job) s s' e = grind (arith, length-put_worker)
  step-Same z (check i) s s' e = grind (arith, length-put_worker)
  step-Same z (receive i) s s' e = grind (arith, length-put_worker)
  step-Same z (notice i) s s' e = grind (arith, length-put_worker)
  step-Same z (expire i) s s' e = grind (arith, length-put_worker)
  step-Same z (handled i) s s' e = grind (arith, length-put_worker)
  step-Same z (handler_panics i) s s' e = grind (arith, length-put_worker)
  step-Same z shut_down s s' e = ground arith

  pub run-Same : (z : A) (cs : List (Choice A)) (s s' : System A) → run z cs s ≡ some s' → Same s' s
  unfolding run
  run-Same z [] s s' e = ground arith
  run-Same z (c ∷ cs) s s' e =
      let (t, first, rest) = bind-eq-some (step z c s) (run z cs) e in
      let (l, b) = step-Same z c s t first in
      let (l', b') = run-Same z cs t s' rest in (l' ∙ l, b' ∙ b)

  total-le-length : (ws : List (Worker A)) → total ws ≤ 5 * length ws
  unfolding total worker_weight phase_weight
  total-le-length [] = omega arith
  total-le-length (w ∷ ws) = ground (arith, total-le-length ws)

  Inv-CanMove : (z : A) (s : System A) → Inv s → s.cancelled ≡ true → s.closed ≡ false → CanMove z s
  Inv-CanMove z s v stop unclosed = elim (Bool-cases (all_finished s.workers)) [
    | inr busy ↦
        let (i, w, at, going) = find_unfinished s.workers busy in
        phase_moves z s i w at w.phase stop refl going
    | inl all ↦ let (s', e, _, _) = close_after z s v all unclosed in (shut_down, tt, s', e)
  ]

  weight-le : (s : System A) → Inv s → weight s ≤ 5 * length s.workers + 3 * s.queue.buffer_size + 1
  unfolding weight
  weight-le s v = ground (arith, v.bounded, v.opened, total-le-length s.workers)

  -- Once ctx of Run is done, under every schedule from the start of Run on a queue not opened
  -- before, the workers and Run take at most 5 steps for each worker, 3 for each place in the
  -- buffer, and 1 more, as long as no job is enqueued; and they can go on until Run has closed the
  -- queue, however they have gone on so far.
  pub run_terminates :
      (z : A) (cs more : List (Choice A)) (q : ChanQueue A) (n : ℕ) (s s' : System A)
      → q.opened ≡ false
      → run z cs (start q n) ≡ some s
      → s.cancelled ≡ true
      → All IsInternal more
      → run z more s ≡ some s'
      → (length more ≤ 5 * n + 3 * q.buffer_size + 1) × ((s'.closed ≡ true) ⊎ CanMove z s')
  run_terminates z cs more q n s s' fresh e stop internal e' =
      let v = run-Inv z cs q n s fresh e in
      let (less, stopped, v') = run-Less z more s s' v stop internal e' in
      let (workers, size) = run-Same z cs (start q n) s e in
      (
        omega (arith, less, weight-le s v, workers, size, started n),
        elim (Bool-cases s'.closed) [
          | inl closed ↦ inl closed
          | inr unclosed ↦ inr (Inv-CanMove z s' v' stopped unclosed)
        ],
      )
    where
      started :
          (k : ℕ)
          → (length (start q k).workers ≡ k) × ((start q k).queue.buffer_size ≡ q.buffer_size)
      started k = unfold start open_queue in (length-spawn A k, ground arith)
