-- ===== src/Queue/ChanQueue.antt =====
-- queue/chanqueue.go. A Go channel is the list of its items, oldest first, with its capacity; nil
-- is `none`. A call returns, panics, or waits: which case of its select statement a call takes is an
-- argument, and a case that is not ready gives `waits`.
pub mod Laws
use mathlib.Core.Bool.{Bool, true, false}
use platforma.Base.{ℕ, List, [], ◌∷◌, ◌++◌, Option, none, some, length, ltb, if◌then◌else◌}
use platforma.Base.Errors.{Error, sentinel, foreign, wrapped}

abbrev pub timeout_error : Error
timeout_error = sentinel "queue.ErrTimeout"

abbrev pub closed_queue_error : Error
closed_queue_error = sentinel "queue.ErrClosedQueue"

pub record Channel {ℓ} (A : Type ℓ) : Type ℓ where
  pub items : List A
  pub capacity : ℕ
  pub closed : Bool

-- The enqueue timeout only decides when the timeout case is ready.
pub record ChanQueue {ℓ} (A : Type ℓ) : Type ℓ where
  pub channel : Option (Channel A)
  pub opened : Bool
  pub buffer_size : ℕ

pub data Outcome {ℓ} (A : Type ℓ) : Type ℓ where
  returned : Option Error → ChanQueue A → Outcome A
  panicked waits : Outcome A

-- The cases of the select statement of EnqueueJob.
pub data SelectCase : Type 0 where
  send timed_out cancelled : SelectCase

module _ {ℓ} {A : Type ℓ} where
  unfoldable pub new_chan_queue : ℕ → ChanQueue A
  new_chan_queue size = record { channel = none; opened = false; buffer_size = size }

  unfoldable pub open_queue : ChanQueue A → ChanQueue A
  open_queue q = if q.opened then q else record q {
    channel = some (record { items = []; capacity = q.buffer_size; closed = false });
    opened = true;
  }

  -- close(ch) panics on nil and on a closed channel.
  close_channel : ChanQueue A → Option (Channel A) → Outcome A
  close_channel q none = panicked
  close_channel q (some c) =
      if c.closed
      then panicked
      else returned none (record q { channel = some (record c { closed = true }) })

  unfoldable pub close_queue : ChanQueue A → Outcome A
  unfolding close_channel
  close_queue q = if q.opened then close_channel q q.channel else returned none q

  -- A send panics on a closed channel, and waits on nil and on a full one.
  send_job : ChanQueue A → A → Option (Channel A) → Outcome A
  send_job q job none = waits
  send_job q job (some c) =
      if c.closed
      then panicked
      else if ltb (length c.items) c.capacity
      then returned none (record q { channel = some (record c { items = c.items ++ job ∷ [] }) })
      else waits

  select_case : SelectCase → ChanQueue A → A → Outcome A
  unfolding send_job
  select_case send q job = send_job q job q.channel
  select_case timed_out q job = returned (some timeout_error) q
  select_case cancelled q job =
      returned (some (wrapped "context cancelled" (foreign "context canceled"))) q

  unfoldable pub enqueue_job : SelectCase → ChanQueue A → A → Outcome A
  unfolding select_case
  enqueue_job c q job =
      if q.opened then select_case c q job else returned (some closed_queue_error) q

  unfoldable pub get_job_chan : ChanQueue A → Option (Channel A)
  get_job_chan q = q.channel
