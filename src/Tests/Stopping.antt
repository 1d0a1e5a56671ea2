-- ===== src/Tests/Stopping.antt =====
-- The theorems on the end of a thread pool, at a pool of two workers that is stopped with two jobs.
use stream_gate.Base.{length, ℕ, ◌≡◌, refl, true, some, List, [], ◌∷◌, arith}
use stream_gate.ThreadPool.{
  Config, Pool, new_pool, new, returned, threw, Event, submit, turn, run, step, submit_task,
  worker_thread,
}
use stream_gate.ThreadPool.Drain.{AllGone, Turn}
use stream_gate.ThreadPool.Stopping.{
  Round, timed_out, ask_all, drain, wait_drained, clear_workers, stop_and_wait,
}
use stream_gate.ThreadPool.Stopping.Ends.{stop_and_wait-returns, events_of, Tells}
use stream_gate.ThreadPool.Stopping.AllAsked.{waited}
use stream_gate.ThreadPool.Stopping.Stopped.{stop_and_wait-AllGone}
use stream_gate.ThreadPool.Workers.{Worker, gone}

abbrev config : Config
config = record { num_threads = 2; max_queue_size = 3 }

abbrev pool : Pool ℕ
pool = new_pool config

abbrev jobs : List (Event ℕ)
jobs = submit 7 ∷ submit 8 ∷ []

abbrev nothing : ℕ → List (Event ℕ)
nothing i = []

-- One job ends in time; the other one is waited for beyond the timeout.
abbrev rounds : List (Round ℕ)
rounds =
    record { meanwhile = turn 0 returned ∷ []; elapsed = 0 }
    ∷ record { meanwhile = turn 1 returned ∷ turn 0 returned ∷ []; elapsed = 6 }
    ∷ record { meanwhile = []; elapsed = 12 }
    ∷ []

abbrev turns : List Turn
turns = (1, threw) ∷ (0, returned) ∷ (1, returned) ∷ []

abbrev last : List (Event ℕ)
last = events_of turns

abbrev ended : Worker ℕ
ended = record { token = true; phase = gone }

abbrev stopped : Pool ℕ
stopped = record {
  max_queue_size = 3;
  workers = ended ∷ ended ∷ [];
  tasks = [];
  stop = true;
  total_submitted = 2;
  completed_tasks = 2;
  failed_tasks = 0;
  rejected_tasks = 0;
  last_logged_size = 0;
}

made : new config ≡ some pool
unfolding new
made = refl

late : stop_and_wait 2 10 nothing rounds last (run jobs pool).0 ≡ some (stopped, timed_out 1)
unfolding stop_and_wait ask_all wait_drained drain clear_workers run step submit_task worker_thread
late = refl

stopped_example :
    AllGone stopped.workers
    × (stopped.tasks ≡ [])
    × (stopped.completed_tasks ≡ stopped.total_submitted)
unfolding run step submit_task
stopped_example =
    stop_and_wait-AllGone config jobs pool made 2 10 nothing rounds last stopped (timed_out 1) refl
      late

returns_example :
    (q : Pool ℕ) × (stop_and_wait 2 10 nothing rounds last (run jobs pool).0
      ≡ some (q, (waited 2 10 nothing rounds (run jobs pool).0).1))
    × (length q.tasks ≡ 0)
    × Tells 2 10
        (waited 2 10 nothing rounds (run jobs pool).0).0
        (waited 2 10 nothing rounds (run jobs pool).0).1
unfolding ask_all wait_drained drain run step submit_task worker_thread
returns_example =
    stop_and_wait-returns 2 10 nothing rounds (run jobs pool).0 turns refl
      (omega arith, (omega arith, (omega arith, tt))) (omega arith) (refl, (refl, (refl, tt))) refl
