-- ===== src/Demo/Jobs.antt =====
-- demo-app/cmd/queue/main.go: two workers, and three jobs for them.
use platforma.Base.{ℕ, String, List, [], ◌∷◌}
use platforma.Log.{Value, int}
use platforma.Queue.ChanQueue.{ChanQueue, new_chan_queue}
use platforma.Queue.Processor.{System, start}

pub record Job : Type 0 where
  pub data_field : ℕ

-- The line of the log that jobHandler writes.
abbrev pub job_handler : Job → String × List (String × Value)
job_handler job = ("job handled", ("data", int job.data_field) ∷ [])

abbrev pub queue : ChanQueue Job
queue = new_chan_queue 10

-- The processor as its Run starts.
abbrev pub processor : System Job
processor = start queue 2

abbrev job_of : ℕ → Job
job_of n = record { data_field = n }

-- What main enqueues.
abbrev pub enqueued : List Job
enqueued = job_of 1 ∷ job_of 2 ∷ job_of 3 ∷ []
