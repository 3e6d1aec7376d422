-- ===== src/Queue/Processor/Closed.antt =====
-- What has become of the jobs when Run has closed the queue.
use mathlib.Core.List.{Perm}
use platforma.Base.{
  ℕ, ◌≡◌, refl, sym, true, false, List, [], ◌∷◌, ◌++◌, some, arith, Bool-cases, inl, inr,
}
use platforma.Queue.ChanQueue.{ChanQueue}
use platforma.Queue.ChanQueue.Laws.{contents}
use platforma.Queue.Processor.{
  Phase, Worker, System, Choice, start, run, all_finished, is_finished, starting, main_check,
  main_select, handling, drain_check, drain_select, draining, finished,
}
use platforma.Queue.Processor.Invariant.{in_hand, holds}
use platforma.Queue.Processor.Schedule.{run-Inv}

module _ {ℓ} {A : Type ℓ} where
  finished-holds : (p : Phase A) → is_finished p ≡ true → holds p ≡ []
  finished-holds finished h = refl
  finished-holds starting h = cc
  finished-holds main_check h = cc
  finished-holds main_select h = cc
  finished-holds (handling job) h = cc
  finished-holds drain_check h = cc
  finished-holds drain_select h = cc
  finished-holds (draining job) h = cc

  finished-in_hand : (ws : List (Worker A)) → all_finished ws ≡ true → in_hand ws ≡ []
  unfolding all_finished in_hand
  finished-in_hand [] h = refl
  finished-in_hand (w ∷ ws) h = elim (Bool-cases (is_finished w.phase)) [
    | inr moving ↦ absurd (ground (arith, moving))
    | inl ended ↦ rw (finished-holds w.phase ended) (finished-in_hand ws (ground (arith, ended)))
  ]

  -- Under every schedule from the start of Run on a queue not opened before: once Run has closed the
  -- queue, each job that was accepted has been given to the handler, once, or is still in the queue,
  -- and those in the queue are the last ones accepted.
  pub run_closed-contents :
      (zero_job : A) (cs : List (Choice A)) (q : ChanQueue A) (n : ℕ) (s : System A)
      → q.opened ≡ false
      → run zero_job cs (start q n) ≡ some s
      → s.closed ≡ true
      → (handed_out : List A) × Perm handed_out s.done
        × (s.accepted ≡ handed_out ++ contents s.queue)
  run_closed-contents z cs q n s fresh e closed =
      let v = run-Inv z cs q n s fresh e in
      let idle = finished-in_hand s.workers (v.ended closed) in
      (s.received, rw idle at v.accounted, sym v.fifo)
