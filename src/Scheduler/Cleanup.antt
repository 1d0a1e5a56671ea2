-- ===== src/Scheduler/Cleanup.antt =====
-- `start`, `stop` and the cleanup thread of src/scheduler/StreamTaskScheduler.cpp. Each event is one
-- access of what the two threads share: the flag, the mutex and the condition variable.
pub mod Woken
use stream_gate.Base.{ℕ, Bool, true, false, not, Option, none, some, List, [], ◌∷◌, if◌then◌else◌}
use stream_gate.Redis.{Redis}
use stream_gate.Scheduler.{Counters, cleanup_round}
use stream_gate.Scheduler.Nodes.{NodeConfig}

-- Where the cleanup thread is: it is not there; at the test of the loop; in a round; before the
-- mutex, for the first time or woken; with the mutex, before the look at the flag; with the mutex,
-- about to sleep; asleep; at its end. The Boolean says whether its waiting time is over.
pub data Phase : Type 0 where
  absent testing working locking ended : Phase
  woken looking : Bool → Phase
  drowsy sleeping : Phase

-- Where the caller of `stop` is: not in it; with the flag cleared; with the mutex; waiting for the
-- thread to end.
pub data Stopper : Type 0 where
  outside flagged notifying joining : Stopper

pub data Owner : Type 0 where
  nobody cleaner stopper : Owner

pub record Cleanup (S : Type 0) : Type 0 where
  pub running : Bool
  pub thread : Phase
  pub caller : Stopper
  pub mutex : Owner
  pub state : S

-- `turn`: the next access of the thread, at a time. `timeout`: the interval ends.
pub data Event : Type 0 where
  start_call stop_call timeout : Event
  turn : ℕ → Event

abbrev pub is_free : Owner → Bool
is_free nobody = true
is_free cleaner = false
is_free stopper = false

abbrev pub wake : Phase → Phase
wake sleeping = woken false
wake p = p

module _ {S : Type 0} where
  unfoldable pub start : Stopper → Phase → Cleanup S → Cleanup S
  start outside absent c = if c.running then c else record c { running = true; thread = testing }
  start _ _ c = c

  -- The thread is gone when `join` returns.
  unfoldable pub stop : Stopper → Phase → Cleanup S → Cleanup S
  stop outside p c = if c.running then record c { running = false; caller = flagged } else c
  stop flagged p c = if is_free c.mutex then record c { mutex = stopper; caller = notifying } else c
  stop notifying p c = record c { mutex = nobody; thread = wake p; caller = joining }
  stop joining ended c = record c { thread = absent; caller = outside }
  stop joining p c = c

  -- The predicate of `wait_for` says that the flag is cleared: then the loop is left. Otherwise the
  -- time is over, and the loop goes on; or the thread sleeps.
  abbrev pub looked : Bool → Bool → Cleanup S → Cleanup S
  looked true late c =
      if late then record c { mutex = nobody; thread = testing } else record c { thread = drowsy }
  looked false late c = record c { mutex = nobody; thread = ended }

  abbrev pub lock : Bool → Cleanup S → Cleanup S
  lock late c = if is_free c.mutex then record c { mutex = cleaner; thread = looking late } else c

  -- `round`: the body of the loop.
  unfoldable pub move : (ℕ → S → S) → ℕ → Phase → Cleanup S → Cleanup S
  move round now testing c = record c { thread = if c.running then working else ended }
  move round now working c = record c { thread = locking; state = round now c.state }
  move round now locking c = lock false c
  move round now (woken late) c = lock late c
  move round now (looking late) c = looked c.running late c
  move round now drowsy c = record c { mutex = nobody; thread = sleeping }
  move round now _ c = c

  unfoldable pub expire : Phase → Cleanup S → Cleanup S
  expire sleeping c = record c { thread = woken true }
  expire p c = c

  unfoldable pub step : (ℕ → S → S) → Event → Cleanup S → Cleanup S
  unfolding start stop move expire
  step round start_call c = start c.caller c.thread c
  step round stop_call c = stop c.caller c.thread c
  step round Event.timeout c = expire c.thread c
  step round (turn now) c = move round now c.thread c

  unfoldable pub run : (ℕ → S → S) → List Event → Cleanup S → Cleanup S
  unfolding step
  run round [] c = c
  run round (e ∷ es) c = run round es (step round e c)

  -- Before the first call of `start`.
  unfoldable pub new : S → Cleanup S
  new s = record { running = false; thread = absent; caller = outside; mutex = nobody; state = s }

-- The thread of the scheduler: the state is the counters and the server.
unfoldable pub timeout_cleanup_thread :
    (r : Redis)
    → NodeConfig
    → ℕ
    → Event
    → Cleanup (Counters × r.Server)
    → Cleanup (Counters × r.Server)
unfolding step
timeout_cleanup_thread r nodes task_timeout =
    step (λ now (c, s). cleanup_round r nodes now task_timeout c s)
