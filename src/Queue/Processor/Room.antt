-- ===== src/Queue/Processor/Room.antt =====
-- When a caller of Enqueue need not wait.
use platforma.Base.{
  ℕ, ◌+◌, ◌<◌, ◌≡◌, refl, ap, false, List, [], ◌∷◌, ◌++◌, some, arith, length, length-append,
}
use platforma.Queue.ChanQueue.{ChanQueue, send, open_queue}
use platforma.Queue.ChanQueue.Laws.{contents, enqueue_job-room, contents-enqueue_job}
use platforma.Queue.Processor.{System, Choice, enqueue, start, run, step, after_enqueue}
use platforma.Queue.Processor.Invariant.{Inv}
use platforma.Queue.Processor.Schedule.{run-Inv}
use platforma.Queue.Processor.Progress.{run-Same}

module _ {ℓ} {A : Type ℓ} where
  Inv-room :
      (z job : A) (s : System A)
      → Inv s
      → s.closed ≡ false
      → length (contents s.queue) < s.queue.buffer_size
      → (s' : System A) × (step z (enqueue send job) s ≡ some s')
        × (s'.accepted ≡ s.accepted ++ job ∷ [])
        × (contents s'.queue ≡ contents s.queue ++ job ∷ [])
  unfolding step after_enqueue
  Inv-room z job s v unclosed room =
      let (q', sent) =
        enqueue_job-room s.queue job v.bounded v.opened (rw unclosed at v.live) room in
      (
        record s { queue = q'; accepted = s.accepted ++ job ∷ [] },
        rw sent refl,
        refl,
        contents-enqueue_job send s.queue q' job sent,
      )

  -- Under every schedule from the start of Run on a queue not opened before: as long as Run has not
  -- closed the queue, and fewer jobs wait than the buffer holds, a send of EnqueueJob goes through at
  -- once, and the job is the last one accepted.
  pub run_room :
      (z job : A) (cs : List (Choice A)) (q : ChanQueue A) (n : ℕ) (s : System A)
      → q.opened ≡ false
      → run z cs (start q n) ≡ some s
      → s.closed ≡ false
      → length s.accepted < q.buffer_size + length s.received
      → (s' : System A) × (step z (enqueue send job) s ≡ some s')
        × (s'.accepted ≡ s.accepted ++ job ∷ [])
        × (contents s'.queue ≡ contents s.queue ++ job ∷ [])
  run_room z job cs q n s fresh e unclosed room =
      let v = run-Inv z cs q n s fresh e in
      let (_, size) = run-Same z cs (start q n) s e in
      Inv-room z job s v unclosed (
        omega (
          arith,
          room,
          size,
          started,
          ap length v.fifo,
          length-append s.received (contents s.queue),
        ))
    where
      started : (start q n).queue.buffer_size ≡ q.buffer_size
      started = unfold start open_queue in ground (arith, fresh)
