-- ===== src/Queue/Processor/Safety.antt =====
-- What the steps of the processor keep.
use mathlib.Core.List.{append_assoc}
use platforma.Base.{
  ◌≡◌, refl, sym, ap, ◌∙◌, subst, Bool, true, false, List, [], ◌∷◌, ◌++◌, Option, none, some, arith,
}
use platforma.Queue.ChanQueue.{
  ChanQueue, Outcome, returned, panicked, waits, SelectCase, enqueue_job, close_queue, get_job_chan,
}
use platforma.Queue.ChanQueue.Laws.{
  contents, is_live, IsBounded, enqueue_job-IsBounded, close_queue-IsBounded, contents-enqueue_job,
  contents-enqueue_job_failed, enqueue_job_frame, close_queue_frame,
}
use platforma.Queue.Processor.{
  Phase, System, ◌>>=◌, check_phase, receive_phase, notice_phase, handled_phase, is_finished,
  all_finished, take_job, after_enqueue, after_close,
}
use platforma.Queue.Processor.Invariant.{holds, Inv}

pub bind-eq-some {ℓ κ} :
    {A : Type ℓ} {B : Type κ} (m : Option A) (f : A → Option B) {b : B}
    → (m >>= f) ≡ some b
    → (a : A) × (m ≡ some a) × (f a ≡ some b)
bind-eq-some none f h = cc
bind-eq-some (some a) f h = (a, refl, h)

module _ {ℓ} {A : Type ℓ} where
  -- What each kind of move says of the phase before and after it.
  abbrev pub Goes : Phase A → List A → Phase A → List A → Type ℓ
  Goes p xs p' ys = (is_finished p ≡ false) × (holds p ≡ xs) × (holds p' ≡ ys)

  pub check_phase-Goes :
      (c e : Bool) (p p' : Phase A) → check_phase c e p ≡ some p' → Goes p [] p' []
  unfolding check_phase
  check_phase-Goes c e p p' h = ground arith

  pub receive_phase-Goes :
      (job : A) (p p' : Phase A) → receive_phase job p ≡ some p' → Goes p [] p' (job ∷ [])
  unfolding receive_phase
  receive_phase-Goes job p p' h = ground arith

  pub notice_phase-Goes :
      (c e : Bool) (p p' : Phase A) → notice_phase c e p ≡ some p' → Goes p [] p' []
  unfolding notice_phase
  notice_phase-Goes c e p p' h = ground arith

  pub handled_phase-Goes :
      (panics : Bool) (p p' : Phase A) (job : A)
      → handled_phase panics p ≡ some (job, p')
      → Goes p (job ∷ []) p' []
  unfolding handled_phase
  handled_phase-Goes panics p p' job h = ground arith

  pub Inv-of : {s s' : System A} → some s ≡ some s' → Inv s → Inv s'
  Inv-of {s} {s'} e v = let e' : s ≡ s' = cc in subst Inv e' v

  pub enqueue_outcome-Inv :
      (s s' : System A) (c : SelectCase) (job : A) (o : Outcome A)
      → Inv s
      → enqueue_job c s.queue job ≡ o
      → after_enqueue s job o ≡ some s'
      → Inv s'
  unfolding after_enqueue
  enqueue_outcome-Inv s s' c job (returned none q) v h e =
      let (opened, live) = enqueue_job_frame c s.queue q job none h in
      Inv-of e (record {
        fifo =
            ap (λ xs. s.received ++ xs) (contents-enqueue_job c s.queue q job h)
            ∙ sym (append_assoc s.received (contents s.queue) (job ∷ []))
            ∙ ap (λ xs. xs ++ job ∷ []) v.fifo;
        accounted = v.accounted;
        bounded = enqueue_job-IsBounded c s.queue q job none v.bounded h;
        opened = opened ∙ v.opened;
        live = live ∙ v.live;
        ended = v.ended;
      })
  enqueue_outcome-Inv s s' c job (returned (some x) q) v h e =
      let (opened, live) = enqueue_job_frame c s.queue q job (some x) h in
      Inv-of e (record {
        fifo = ap (λ xs. s.received ++ xs) (contents-enqueue_job_failed c s.queue q job h) ∙ v.fifo;
        accounted = v.accounted;
        bounded = enqueue_job-IsBounded c s.queue q job (some x) v.bounded h;
        opened = opened ∙ v.opened;
        live = live ∙ v.live;
        ended = v.ended;
      })
  enqueue_outcome-Inv s s' c job panicked v h e = Inv-of e v
  enqueue_outcome-Inv s s' c job waits v h e = cc

  pub close_outcome-Inv :
      (s s' : System A) (o : Outcome A)
      → Inv s
      → all_finished s.workers ≡ true
      → close_queue s.queue ≡ o
      → after_close s o ≡ some s'
      → Inv s'
  unfolding after_close
  close_outcome-Inv s s' (returned x q) v all h e =
      let (opened, live, kept) = close_queue_frame s.queue q x v.opened h in
      Inv-of e (record {
        fifo = ap (λ xs. s.received ++ xs) kept ∙ v.fifo;
        accounted = v.accounted;
        bounded = close_queue-IsBounded s.queue q x v.bounded h;
        opened = opened;
        live = live;
        ended = λ _. all;
      })
  close_outcome-Inv s s' panicked v all h e = cc
  close_outcome-Inv s s' waits v all h e = cc

  -- What a receive from a queue that Run has not closed takes: the oldest job.
  pub take_job-open :
      (zero_job job : A) (q q' : ChanQueue A)
      → is_live q ≡ true
      → take_job zero_job q (get_job_chan q) ≡ some (job, q')
      → IsBounded q
      → q.opened ≡ true
      → (contents q ≡ job ∷ contents q')
        × IsBounded q'
        × (q'.opened ≡ true)
        × (is_live q' ≡ is_live q)
  unfolding take_job get_job_chan
  take_job-open zero_job job q q' live h b o = ground arith
