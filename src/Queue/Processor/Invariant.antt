-- ===== src/Queue/Processor/Invariant.antt =====
-- What holds of the processor's state under every schedule.
use mathlib.Core.List.{
  Perm, append_assoc, perm_append_comm, perm_append_singleton, perm-append_left_iff,
}
use mathlib.Core.List.Perm
use platforma.Base.{
  ℕ, zero, suc, ◌≡◌, refl, ◌∙◌, subst, true, false, not, List, [], ◌∷◌, ◌++◌, some, arith,
}
use platforma.Queue.ChanQueue.{ChanQueue, open_queue}
use platforma.Queue.ChanQueue.Laws.{contents, is_live, IsBounded}
use platforma.Queue.Processor.{
  is_finished, spawn, Phase, handling, draining, Worker, System, worker_at, put_worker,
  all_finished, start,
}

module _ {ℓ} {A : Type ℓ} where
  abbrev pub holds : Phase A → List A
  holds (handling job) = job ∷ []
  holds (draining job) = job ∷ []
  holds _ = []

  -- The jobs that workers are handling.
  unfoldable pub in_hand : List (Worker A) → List A
  in_hand [] = []
  in_hand (w ∷ ws) = holds w.phase ++ in_hand ws

  pub record Inv (s : System A) : Type ℓ where
    pub fifo : s.received ++ contents s.queue ≡ s.accepted
    pub accounted : Perm s.received (in_hand s.workers ++ s.done)
    pub bounded : IsBounded s.queue
    pub opened : s.queue.opened ≡ true
    pub live : is_live s.queue ≡ not s.closed
    pub ended : s.closed ≡ true → all_finished s.workers ≡ true

  swap_front : (xs ys zs : List A) → Perm (xs ++ (ys ++ zs)) (ys ++ (xs ++ zs))
  swap_front xs ys zs =
      rw (← append_assoc xs ys zs, ← append_assoc ys xs zs)
        (Perm.append_right zs (perm_append_comm xs ys))

  -- Changing one worker changes what is in hand by what it holds.
  in_hand-put_worker :
      (i : ℕ) (ws : List (Worker A)) (w v : Worker A)
      → worker_at i ws ≡ some w
      → Perm (holds v.phase ++ in_hand ws) (holds w.phase ++ in_hand (put_worker i v ws))
  unfolding worker_at put_worker in_hand
  in_hand-put_worker i [] w v h = cc
  in_hand-put_worker zero (x ∷ ws) w v h =
      subst
        (λ y.
          Perm (holds v.phase ++ (holds x.phase ++ in_hand ws))
            (holds (Worker.phase y) ++ (holds v.phase ++ in_hand ws)))
        (let e : x ≡ w = cc in e) (swap_front (holds v.phase) (holds x.phase) (in_hand ws))
  in_hand-put_worker (suc i) (x ∷ ws) w v h =
      Perm.trans (swap_front (holds v.phase) (holds x.phase) (in_hand ws)) (
        Perm.trans (Perm.append_left (holds x.phase) (in_hand-put_worker i ws w v h))
          (swap_front (holds x.phase) (holds w.phase) (in_hand (put_worker i v ws))))

  finished_at :
      (i : ℕ) (ws : List (Worker A)) (w : Worker A)
      → all_finished ws ≡ true
      → worker_at i ws ≡ some w
      → is_finished w.phase ≡ true
  unfolding all_finished worker_at
  finished_at i [] w all h = cc
  finished_at zero (x ∷ ws) w all h = ground (arith, all, h)
  finished_at (suc i) (x ∷ ws) w all h = ground (arith, finished_at i ws w)

  pub spawn-in_hand : (n : ℕ) → in_hand (spawn {A = A} n) ≡ []
  unfolding spawn in_hand
  spawn-in_hand zero = refl
  spawn-in_hand (suc n) = spawn-in_hand n

  pub start-Inv : (q : ChanQueue A) (n : ℕ) → q.opened ≡ false → Inv (start q n)
  unfolding start open_queue
  start-Inv q n h = record {
    fifo = ground arith;
    accounted = rw (spawn-in_hand n) Perm.nil;
    bounded = ground arith;
    opened = ground arith;
    live = ground arith;
    ended = λ e. cc;
  }

  -- Only a worker that has not returned moves, so Run has not closed the queue yet.
  module _ (s : System A) (v : Inv s) (i : ℕ) (w : Worker A)
      (at : worker_at i s.workers ≡ some w) where
    pub not_closed : is_finished w.phase ≡ false → s.closed ≡ false
    not_closed busy = ground (arith, v.ended, finished_at i s.workers w)

    pub changed :
        (u : Worker A) (xs ys : List A)
        → holds u.phase ≡ xs
        → holds w.phase ≡ ys
        → Perm (xs ++ in_hand s.workers) (ys ++ in_hand (put_worker i u s.workers))
    changed u xs ys hu hw = rw (← hu, ← hw) (in_hand-put_worker i s.workers w u at)

    -- A worker that goes on with what it holds.
    pub keep-Inv :
        (u : Worker A)
        → is_finished w.phase ≡ false
        → holds u.phase ≡ holds w.phase
        → Inv (record s { workers = put_worker i u s.workers })
    keep-Inv u busy same = record {
      fifo = v.fifo;
      accounted = Perm.trans v.accounted (
          Perm.append_right s.done (
            (perm-append_left_iff (holds w.phase)).0
              (changed u (holds w.phase) (holds w.phase) same refl)));
      bounded = v.bounded;
      opened = v.opened;
      live = v.live;
      ended = λ e. cc (not_closed busy);
    }

    -- A worker that takes `job`, which is the next one of those accepted.
    pub take-Inv :
        (u : Worker A) (job : A) (q : ChanQueue A) (accepted : List A)
        → is_finished w.phase ≡ false
        → holds w.phase ≡ []
        → holds u.phase ≡ job ∷ []
        → (s.received ++ job ∷ []) ++ contents q ≡ accepted
        → IsBounded q
        → q.opened ≡ true
        → is_live q ≡ is_live s.queue
        → Inv (record s {
          queue = q;
          workers = put_worker i u s.workers;
          accepted = accepted;
          received = s.received ++ job ∷ [];
        })
    take-Inv u job q accepted busy hw hu fifo bounded opened live = record {
      fifo = fifo;
      accounted = Perm.trans (perm_append_singleton job s.received) (
          Perm.trans (Perm.cons job v.accounted)
            (Perm.append_right s.done (changed u (job ∷ []) [] hu hw)));
      bounded = bounded;
      opened = opened;
      live = live ∙ v.live;
      ended = λ e. cc (not_closed busy);
    }

    -- A worker whose Handle of `job` has ended.
    pub finish-Inv :
        (u : Worker A) (job : A)
        → is_finished w.phase ≡ false
        → holds w.phase ≡ job ∷ []
        → holds u.phase ≡ []
        → Inv (record s { workers = put_worker i u s.workers; done = s.done ++ job ∷ [] })
    finish-Inv u job busy hw hu = record {
      fifo = v.fifo;
      accounted = Perm.trans v.accounted (
          Perm.trans (Perm.append_right s.done (changed u [] (job ∷ []) hu hw)) (
            Perm.symm (
              rw (← append_assoc (in_hand (put_worker i u s.workers)) s.done (job ∷ []))
                (perm_append_singleton job (in_hand (put_worker i u s.workers) ++ s.done)))));
      bounded = v.bounded;
      opened = v.opened;
      live = v.live;
      ended = λ e. cc (not_closed busy);
    }
