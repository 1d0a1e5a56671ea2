-- ===== src/ThreadPool.antt =====
-- src/util/ThreadPool.cpp and include/ThreadPool.h: jobs wait in a queue for a fixed number of
-- workers. What the threads do is a list of events, each of which is one critical section or one
-- run of a job; jobs are of any type.
pub mod Workers
pub mod Invariant
pub mod Order
pub mod Drain
pub mod Stopping
use stream_gate.Base.{
  ℕ, ◌+◌, ◌*◌, ◌/◌, ◌%◌, ◌^◌, Bool, true, false, ◌&&◌, Option, none, some, List, [], ◌∷◌, length,
  eqb, ltb, leb, if◌then◌else◌,
}
use stream_gate.Base.Slots.{replicate, slot_at, set_slot, snoc}
use Workers.{Worker, Phase, waiting, busy, gone}

-- `log_exceptions` only decides about the log.
pub record Config : Type 0 where
  pub num_threads : ℕ
  pub max_queue_size : ℕ

pub record Stats : Type 0 where
  pub num_threads : ℕ
  pub queued_tasks : ℕ
  pub total_submitted : ℕ
  pub completed_tasks : ℕ
  pub failed_tasks : ℕ
  pub rejected_tasks : ℕ

pub record Pool (J : Type 0) : Type 0 where
  pub max_queue_size : ℕ
  pub workers : List (Worker J)
  pub tasks : List J
  pub stop : Bool
  pub total_submitted : ℕ
  pub completed_tasks : ℕ
  pub failed_tasks : ℕ
  pub rejected_tasks : ℕ
  pub last_logged_size : ℕ

-- How the job of a caller ends.
pub data Ending : Type 0 where
  returned threw : Ending

-- A job is queued inside a std::packaged_task, which keeps an exception for the future and returns.
abbrev pub packaged_task : Ending → Ending
packaged_task _ = returned

pub data Event (J : Type 0) : Type 0 where
  submit : J → Event J
  -- the next round of a worker, and how its job ends if it runs one
  turn : ℕ → Ending → Event J
  -- `stop_and_wait` up to the loop, and one round of the loop that asks the workers to stop
  begin_stop : Event J
  request_stop : ℕ → Event J

pub data Output (J : Type 0) : Type 0 where
  accepted : J → Output J
  started : J → Output J
  refused : Output J
  silent : Output J

-- `fetch_add(1)`
abbrev pub bump : ℕ → ℕ
bump n = (n + 1) % 2 ^ 64

module _ {J : Type 0} where
  abbrev pub new_pool : Config → Pool J
  new_pool config = record {
    max_queue_size = config.max_queue_size;
    workers = replicate config.num_threads (record { token = false; phase = waiting });
    tasks = [];
    stop = false;
    total_submitted = 0;
    completed_tasks = 0;
    failed_tasks = 0;
    rejected_tasks = 0;
    last_logged_size = 0;
  }

  -- `none`: the constructor throws.
  unfoldable pub new : Config → Option (Pool J)
  new config = if eqb config.num_threads 0 then none else some (new_pool config)

  abbrev pub check_queue_size : ℕ → Pool J → Pool J
  check_queue_size size p =
      let threshold = if ltb 0 p.max_queue_size then p.max_queue_size * 3 / 4 else 500 in
      if leb threshold size && ltb (p.last_logged_size + 50) size
      then record p { last_logged_size = size }
      else p

  abbrev pub is_full : Pool J → Bool
  is_full p = ltb 0 p.max_queue_size && leb p.max_queue_size (length p.tasks)

  abbrev refuse : Pool J → Pool J × Output J
  refuse p = (record p { rejected_tasks = bump p.rejected_tasks }, refused)

  -- `refused`: the call throws.
  unfoldable pub submit_task : J → Pool J → Pool J × Output J
  submit_task job p =
      if p.stop
      then refuse p
      else if is_full p
      then refuse p
      else (let p' = record p {
        tasks = snoc p.tasks job;
        total_submitted = bump p.total_submitted;
      } in
          (
            if ltb (p.max_queue_size / 2) (length p'.tasks)
                then check_queue_size (length p'.tasks) p'
                else p',
            accepted job,
          ))

  abbrev put : ℕ → Worker J → Pool J → Pool J
  put i w p = record p { workers = set_slot i w p.workers }

  -- A worker that waits: it takes the first job, or ends if it was asked to and there is none.
  abbrev pub look : ℕ → Worker J → List J → Pool J → Pool J × Output J
  look i w [] p = if w.token then (put i (record w { phase = gone }) p, silent) else (p, silent)
  look i w (job ∷ rest) p = (
    record p { tasks = rest; workers = set_slot i (record w { phase = busy job }) p.workers },
    started job,
  )

  abbrev count_ending : Ending → Pool J → Pool J
  count_ending returned p = record p { completed_tasks = bump p.completed_tasks }
  count_ending threw p = record p { failed_tasks = bump p.failed_tasks }

  abbrev pub worker_round : ℕ → Ending → Worker J → Phase J → Pool J → Pool J × Output J
  worker_round i end w waiting p = look i w p.tasks p
  worker_round i end w (busy job) p =
      (count_ending (packaged_task end) (put i (record w { phase = waiting }) p), silent)
  worker_round i end w gone p = (p, silent)

  abbrev pub round_of : ℕ → Ending → Option (Worker J) → Pool J → Pool J × Output J
  round_of i end none p = (p, silent)
  round_of i end (some w) p = worker_round i end w w.phase p

  unfoldable pub worker_thread : ℕ → Ending → Pool J → Pool J × Output J
  worker_thread i end p = round_of i end (slot_at i p.workers) p

  abbrev pub ask : ℕ → Option (Worker J) → Pool J → Pool J
  ask i none p = p
  ask i (some w) p = put i (record w { token = true }) p

  -- The first call only goes on from the exchange to the loop.
  unfoldable pub step : Event J → Pool J → Pool J × Output J
  unfolding submit_task worker_thread
  step (submit job) p = submit_task job p
  step (turn i end) p = worker_thread i end p
  step begin_stop p = (record p { stop = true }, silent)
  step (request_stop i) p = (if p.stop then ask i (slot_at i p.workers) p else p, silent)

  unfoldable pub run : List (Event J) → Pool J → Pool J × List (Output J)
  run [] p = (p, [])
  run (e ∷ es) p = let (p', o) = step e p in let (p'', os) = run es p' in (p'', o ∷ os)

  unfoldable pub get_stats : Pool J → Stats
  get_stats p = record {
    num_threads = length p.workers;
    queued_tasks = length p.tasks;
    total_submitted = p.total_submitted;
    completed_tasks = p.completed_tasks;
    failed_tasks = p.failed_tasks;
    rejected_tasks = p.rejected_tasks;
  }

  unfoldable pub reset_stats : Pool J → Pool J
  reset_stats p = record p {
    total_submitted = 0;
    completed_tasks = 0;
    failed_tasks = 0;
    rejected_tasks = 0;
  }
