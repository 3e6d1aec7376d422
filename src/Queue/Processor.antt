-- ===== src/Queue/Processor.antt =====
-- queue/processor.go over a ChanQueue: the state that Run, its workers and the callers of Enqueue
-- share, and the step of each. A schedule chooses who moves and which ready case a select statement
-- takes; a choice that is not possible gives `none`.
pub mod Invariant
pub mod Safety
pub mod Schedule
pub mod Termination
pub mod Progress
pub mod Closed
pub mod Room
pub mod Refinement
use mathlib.Core.Bool.{Bool, true, false, not, ◌&&◌}
use platforma.Base.{ℕ, zero, suc, List, [], ◌∷◌, ◌++◌, Option, none, some, if◌then◌else◌}
use platforma.Queue.ChanQueue.{
  Channel, ChanQueue, Outcome, returned, panicked, waits, SelectCase, new_chan_queue, open_queue,
  close_queue, enqueue_job, get_job_chan,
}

-- Where a worker is: before GetJobChan; at the outer and at the inner select statement of its main
-- loop, or in Handle there; the same in the loop that drains; or returned.
pub data Phase {ℓ} (A : Type ℓ) : Type ℓ where
  starting main_check main_select : Phase A
  handling : A → Phase A
  drain_check drain_select : Phase A
  draining : A → Phase A
  finished : Phase A

pub record Worker {ℓ} (A : Type ℓ) : Type ℓ where
  pub phase : Phase A
  pub expired : Bool  -- shutdownCtx is done

-- `accepted`, `received` and `done` only record what happened: the jobs whose Enqueue returned nil,
-- those that workers took from the channel, and those whose Handle returned or panicked.
pub record System {ℓ} (A : Type ℓ) : Type ℓ where
  pub queue : ChanQueue A
  pub workers : List (Worker A)
  pub cancelled : Bool  -- ctx of Run is done
  pub closed : Bool  -- Run has called Close
  pub accepted : List A
  pub received : List A
  pub done : List A

pub data Choice {ℓ} (A : Type ℓ) : Type ℓ where
  enqueue : SelectCase → A → Choice A
  cancel : Choice A
  check : ℕ → Choice A  -- worker: GetJobChan, or an outer select statement
  receive : ℕ → Choice A  -- worker: the job case of an inner select statement
  notice : ℕ → Choice A  -- worker: the Done case of an inner select statement
  expire : ℕ → Choice A  -- worker: its shutdown timeout passes
  handled : ℕ → Choice A  -- worker: Handle returns
  handler_panics : ℕ → Choice A
  hand_over : ℕ → A → Choice A  -- a send and the receive that waits for it, without the buffer
  shut_down : Choice A  -- Run, after wg.Wait

infixl 5 ◌>>=◌
abbrev pub ◌>>=◌ {ℓ κ} : {A : Type ℓ} {B : Type κ} → Option A → (A → Option B) → Option B
none >>= f = none
some a >>= f = f a

module _ {ℓ} {A : Type ℓ} where
  unfoldable pub worker_at : ℕ → List (Worker A) → Option (Worker A)
  worker_at i [] = none
  worker_at zero (w ∷ ws) = some w
  worker_at (suc i) (w ∷ ws) = worker_at i ws

  unfoldable pub put_worker : ℕ → Worker A → List (Worker A) → List (Worker A)
  put_worker i v [] = []
  put_worker zero v (w ∷ ws) = v ∷ ws
  put_worker (suc i) v (w ∷ ws) = w ∷ put_worker i v ws

  pub spawn : ℕ → List (Worker A)
  spawn zero = []
  spawn (suc n) = record { phase = starting; expired = false } ∷ spawn n

  -- Run up to wg.Wait: the queue is opened and the workers are started.
  unfoldable pub start : ChanQueue A → ℕ → System A
  unfolding spawn
  start q workers_amount = record {
    queue = open_queue q;
    workers = spawn workers_amount;
    cancelled = false;
    closed = false;
    accepted = [];
    received = [];
    done = [];
  }

  -- What a worker does at GetJobChan and at an outer select statement.
  unfoldable pub check_phase : Bool → Bool → Phase A → Option (Phase A)
  check_phase ctx_done expired starting = some main_check
  check_phase ctx_done expired main_check = some (if ctx_done then drain_check else main_select)
  check_phase ctx_done expired drain_check = some (if expired then finished else drain_select)
  check_phase ctx_done expired _ = none

  unfoldable pub receive_phase : A → Phase A → Option (Phase A)
  receive_phase job main_select = some (handling job)
  receive_phase job drain_select = some (draining job)
  receive_phase job _ = none

  unfoldable pub notice_phase : Bool → Bool → Phase A → Option (Phase A)
  notice_phase true expired main_select = some drain_check
  notice_phase ctx_done true drain_select = some finished
  notice_phase ctx_done expired _ = none

  -- After Handle the loop goes on; a panic ends the worker.
  unfoldable pub handled_phase : Bool → Phase A → Option (A × Phase A)
  handled_phase panics (handling job) = some (job, if panics then finished else main_check)
  handled_phase panics (draining job) = some (job, if panics then finished else drain_check)
  handled_phase panics _ = none

  -- The timeout runs from the moment the worker leaves its main loop.
  abbrev pub is_draining : Phase A → Bool
  is_draining drain_check = true
  is_draining drain_select = true
  is_draining (draining _) = true
  is_draining _ = false

  abbrev pub is_finished : Phase A → Bool
  is_finished finished = true
  is_finished _ = false

  unfoldable pub all_finished : List (Worker A) → Bool
  all_finished [] = true
  all_finished (w ∷ ws) = if is_finished w.phase then all_finished ws else false

  -- A receive takes the oldest item; on an empty closed channel it gives the zero value.
  unfoldable pub take_job : A → ChanQueue A → Option (Channel A) → Option (A × ChanQueue A)
  take_job zero_job q none = none
  take_job zero_job q (some c) = elim c.items [
    | job ∷ rest ↦ some (job, record q { channel = some (record c { items = rest }) })
    | [] ↦ if c.closed then some (zero_job, q) else none
  ]

  pub after_enqueue : System A → A → Outcome A → Option (System A)
  after_enqueue s job (returned none q) =
      some (record s { queue = q; accepted = s.accepted ++ job ∷ [] })
  after_enqueue s job (returned (some e) q) = some (record s { queue = q })
  after_enqueue s job panicked = some s
  after_enqueue s job waits = none

  pub after_close : System A → Outcome A → Option (System A)
  after_close s (returned e q) = some (record s { queue = q; closed = true })
  after_close s panicked = none
  after_close s waits = none

  -- A send that meets a waiting receiver passes the buffer by: it is empty then.
  unfoldable pub can_hand_over : Option (Channel A) → Bool
  can_hand_over none = false
  can_hand_over (some c) = elim c.items [ [] ↦ if c.closed then false else true | _ ∷ _ ↦ false ]

  move : System A → ℕ → Worker A → Phase A → System A
  move s i w p = record s { workers = put_worker i (record w { phase = p }) s.workers }

  unfoldable pub step : A → Choice A → System A → Option (System A)
  unfolding after_enqueue after_close can_hand_over move
  step zero_job (enqueue c job) s = after_enqueue s job (enqueue_job c s.queue job)
  step zero_job cancel s = some (record s { cancelled = true })
  step zero_job (check i) s = do
    w ← worker_at i s.workers
    p ← check_phase s.cancelled w.expired w.phase
    some (move s i w p)
  step zero_job (receive i) s = do
    w ← worker_at i s.workers
    (job, q) ← take_job zero_job s.queue (get_job_chan s.queue)
    p ← receive_phase job w.phase
    some (record (move s i w p) { queue = q; received = s.received ++ job ∷ [] })
  step zero_job (notice i) s = do
    w ← worker_at i s.workers
    p ← notice_phase s.cancelled w.expired w.phase
    some (move s i w p)
  step zero_job (expire i) s = do
    w ← worker_at i s.workers
    if is_draining w.phase && not w.expired
        then some (record s { workers = put_worker i (record w { expired = true }) s.workers })
        else none
  step zero_job (handled i) s = do
    w ← worker_at i s.workers
    (job, p) ← handled_phase false w.phase
    some (record (move s i w p) { done = s.done ++ job ∷ [] })
  step zero_job (handler_panics i) s = do
    w ← worker_at i s.workers
    (job, p) ← handled_phase true w.phase
    some (record (move s i w p) { done = s.done ++ job ∷ [] })
  step zero_job (hand_over i job) s = do
    w ← worker_at i s.workers
    p ← receive_phase job w.phase
    if can_hand_over (get_job_chan s.queue)
        then some (record (move s i w p) {
          accepted = s.accepted ++ job ∷ [];
          received = s.received ++ job ∷ [];
        })
        else none
  step zero_job shut_down s =
      if s.closed
      then none
      else if all_finished s.workers
      then after_close s (close_queue s.queue)
      else none

  unfoldable pub run : A → List (Choice A) → System A → Option (System A)
  unfolding step
  run zero_job [] s = some s
  run zero_job (c ∷ cs) s = step zero_job c s >>= run zero_job cs
