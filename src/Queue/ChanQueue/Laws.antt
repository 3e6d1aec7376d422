-- ===== src/Queue/ChanQueue/Laws.antt =====
-- ChanQueue as a bounded queue, and what Close does to it.
use platforma.Base.{
  ℕ, ◌≤◌, ◌<◌, ◌≡◌, ◌≢◌, Bool, true, false, List, [], ◌∷◌, ◌++◌, Option, none, some, length,
  length-append, arith, ◌↔◌, inl, inr, Bool-cases, Option-cases, ap, if◌then◌else◌,
}
use platforma.Base.Errors.{Error, is_error}
use platforma.Queue.ChanQueue.{
  Channel, ChanQueue, returned, panicked, SelectCase, send, send_job, open_queue, close_queue,
  enqueue_job, closed_queue_error, timeout_error,
}

timeout_ne_closed : timeout_error ≢ closed_queue_error
unfolding is_error
timeout_ne_closed e = cc (ap (λ (x : Error). is_error x "queue.ErrTimeout") e)

module _ {ℓ} {A : Type ℓ} where
  -- The jobs that wait in the queue.
  abbrev items_of : Option (Channel A) → List A
  items_of none = []
  items_of (some c) = c.items

  abbrev pub contents : ChanQueue A → List A
  contents q = items_of q.channel

  -- An opened queue has a channel, of the configured size, that holds at most so many jobs.
  abbrev HasRoom : ℕ → Option (Channel A) → Type 0
  HasRoom size none = ⊥
  HasRoom size (some c) = (c.capacity ≡ size) × (length c.items ≤ size)

  abbrev is_open_channel : Option (Channel A) → Bool
  is_open_channel none = false
  is_open_channel (some c) = if c.closed then false else true

  -- Opened, and not closed since.
  abbrev pub is_live : ChanQueue A → Bool
  is_live q = is_open_channel q.channel

  abbrev Bounded : Bool → ℕ → Option (Channel A) → Type 0
  Bounded false size c = Unit
  Bounded true size c = HasRoom size c

  abbrev pub IsBounded : ChanQueue A → Type 0
  IsBounded q = Bounded q.opened q.buffer_size q.channel

  send_job-IsBounded :
      (q q' : ChanQueue A) (c : Option (Channel A)) (job : A) (e : Option Error)
      → HasRoom q.buffer_size c
      → q.opened ≡ true
      → send_job q job c ≡ returned e q'
      → IsBounded q'
  unfolding send_job
  send_job-IsBounded q q' none job e b o h = cc
  send_job-IsBounded q q' (some c) job e b o h = ground (arith, length-append c.items (job ∷ []))

  pub enqueue_job-IsBounded :
      (c : SelectCase) (q q' : ChanQueue A) (job : A) (e : Option Error)
      → IsBounded q
      → enqueue_job c q job ≡ returned e q'
      → IsBounded q'
  unfolding enqueue_job
  enqueue_job-IsBounded send q q' job e b h = elim (Bool-cases q.opened) [
    | inl o ↦ send_job-IsBounded q q' q.channel job e (rw o at b) o (ground (arith, o))
    | inr o ↦ ground (arith, o)
  ]
  enqueue_job-IsBounded _ q q' job e b h = ground arith

  send_job-room :
      (q : ChanQueue A) (job : A) (c : Option (Channel A))
      → HasRoom q.buffer_size c
      → is_open_channel c ≡ true
      → length (items_of c) < q.buffer_size
      → (q' : ChanQueue A) × (send_job q job c ≡ returned none q')
  unfolding send_job
  send_job-room q job none b live room = absurd b
  send_job-room q job (some c) b live room = (
    record q { channel = some (record c { items = c.items ++ job ∷ [] }) },
    ground (arith, b, live, room),
  )

  -- A send goes through at once if the channel is open and not full.
  pub enqueue_job-room :
      (q : ChanQueue A) (job : A)
      → IsBounded q
      → q.opened ≡ true
      → is_live q ≡ true
      → length (contents q) < q.buffer_size
      → (q' : ChanQueue A) × (enqueue_job send q job ≡ returned none q')
  unfolding enqueue_job
  enqueue_job-room q job b o live room =
      let (q', sent) = send_job-room q job q.channel (rw o at b) live room in
      (q', ground (arith, o, sent))

  -- A job enters the queue exactly when EnqueueJob returns nil, and then at its end.
  pub contents-enqueue_job :
      (c : SelectCase) (q q' : ChanQueue A) (job : A)
      → enqueue_job c q job ≡ returned none q'
      → contents q' ≡ contents q ++ job ∷ []
  unfolding enqueue_job
  contents-enqueue_job c q q' job h = ground arith

  pub contents-enqueue_job_failed :
      (c : SelectCase) (q q' : ChanQueue A) (job : A) {e : Error}
      → enqueue_job c q job ≡ returned (some e) q'
      → contents q' ≡ contents q
  unfolding enqueue_job
  contents-enqueue_job_failed c q q' job h = ground arith

  pub enqueue_job_frame :
      (c : SelectCase) (q q' : ChanQueue A) (job : A) (e : Option Error)
      → enqueue_job c q job ≡ returned e q'
      → (q'.opened ≡ q.opened) × (is_live q' ≡ is_live q)
  unfolding enqueue_job
  enqueue_job_frame c q q' job e h = ground arith

  pub open_queue-IsBounded : (q : ChanQueue A) → IsBounded q → IsBounded (open_queue q)
  unfolding open_queue
  open_queue-IsBounded q b = ground arith

  pub close_queue-IsBounded :
      (q q' : ChanQueue A) (e : Option Error)
      → IsBounded q
      → close_queue q ≡ returned e q'
      → IsBounded q'
  unfolding close_queue
  close_queue-IsBounded q q' e b h = ground arith

  pub close_queue_frame :
      (q q' : ChanQueue A) (e : Option Error)
      → q.opened ≡ true
      → close_queue q ≡ returned e q'
      → (q'.opened ≡ true) × (is_live q' ≡ false) × (contents q' ≡ contents q)
  unfolding close_queue
  close_queue_frame q q' e o h = ground arith

  -- EnqueueJob answers ErrClosedQueue exactly on a queue that was never opened.
  pub enqueue_job-closed_iff :
      (c : SelectCase) (q q' : ChanQueue A) (job : A)
      → (enqueue_job c q job ≡ returned (some closed_queue_error) q')
        ↔ ((q.opened ≡ false) × (q' ≡ q))
  unfolding enqueue_job
  enqueue_job-closed_iff c q q' job =
      ground (arith, λ (e : timeout_error ≡ closed_queue_error). timeout_ne_closed e)

  -- On a queue that is opened and not closed, Close keeps the waiting jobs and the mark that the queue is opened, so every
  -- later send and every later Close panics.
  pub close_then_panics :
      (q : ChanQueue A)
      → q.opened ≡ true
      → is_live q ≡ true
      → (q' : ChanQueue A) × (close_queue q ≡ returned none q')
        × (contents q' ≡ contents q)
        × (q'.opened ≡ true)
        × ((job : A) → enqueue_job send q' job ≡ panicked)
        × (close_queue q' ≡ panicked)
  unfolding close_queue enqueue_job
  close_then_panics q o live = elim (Option-cases q.channel) [
    | inl nil ↦ cc (rw nil at live)
    | inr (c, e) ↦ (
      record q { channel = some (record c { closed = true }) },
      ground (arith, o, e),
      ground (arith, e),
      o,
      λ job. ground (arith, o),
      ground (arith, o),
    )
  ]
