-- ===== src/Startup/Lifetimes.antt =====
-- src/main/main.cpp: in which order the parts end, and which parts the threads still use meanwhile.
-- A part is used by the jobs in the thread pool, by the thread of the scheduler, by that of the
-- metrics and by those of the server, as long as these are there.
pub mod Ends
use stream_gate.Base.{
  ℕ, zero, suc, Bool, true, false, not, ◌&&◌, ◌||◌, Option, none, some, List, [], ◌∷◌,
  if◌then◌else◌,
}

pub data Part : Type 0 where
  server controller use_case scheduler auth_manager state_manager db_manager task_pool metrics :
      Part

abbrev pub number : Part → ℕ
number server = 0
number controller = 1
number use_case = 2
number scheduler = 3
number auth_manager = 4
number state_manager = 5
number db_manager = 6
number task_pool = 7
number metrics = 8

abbrev eq_number : ℕ → ℕ → Bool
eq_number zero zero = true
eq_number zero (suc n) = false
eq_number (suc m) zero = false
eq_number (suc m) (suc n) = eq_number m n

abbrev pub same_part : Part → Part → Bool
same_part p q = eq_number (number p) (number q)

-- The order in which the parts are made.
abbrev pub start_order : List Part
start_order =
    db_manager ∷ task_pool ∷ state_manager ∷ auth_manager ∷ scheduler ∷ metrics ∷ use_case
    ∷ controller ∷ server ∷ []

-- The order in which they end after a signal.
abbrev pub shutdown_order : List Part
shutdown_order =
    metrics ∷ server ∷ controller ∷ use_case ∷ scheduler ∷ auth_manager ∷ state_manager ∷ task_pool
    ∷ db_manager ∷ []

-- The order in which they end after an exception: that of the declarations, from the last to the
-- first. The collector of the metrics is static and ends after `main`.
abbrev pub unwind_order : List Part
unwind_order =
    task_pool ∷ db_manager ∷ state_manager ∷ auth_manager ∷ scheduler ∷ use_case ∷ controller
    ∷ server ∷ metrics ∷ []

abbrev pub contains : List Part → Part → Bool
contains [] p = false
contains (q ∷ ps) p = same_part q p || contains ps p

abbrev pub take : ℕ → List Part → List Part
take zero ps = []
take (suc n) [] = []
take (suc n) (p ∷ ps) = p ∷ take n ps

abbrev pub drop : ℕ → List Part → List Part
drop zero ps = ps
drop (suc n) [] = []
drop (suc n) (p ∷ ps) = drop n ps

-- The parts of `made` in the order of the other list.
abbrev pub ordered : List Part → List Part → List Part
ordered [] made = []
ordered (p ∷ ps) made = let rest = ordered ps made in if contains made p then p ∷ rest else rest

-- The parts that end when the n-th step of the start throws.
abbrev pub unwound : ℕ → List Part
unwound n = ordered unwind_order (take n start_order)

-- `next`: the main thread ends the next part; it waits for the thread pool until no job is left.
-- The others are what a thread does if its part is there: a job, a round of the cleanup, a round of
-- the metrics, and a hook, which queues a job.
pub data Event : Type 0 where
  next job round collect hook : Event

pub record Ending : Type 0 where
  pub order : List Part
  pub ended : ℕ
  pub jobs : ℕ

abbrev pub left : Ending → List Part
left e = drop e.ended e.order

-- What a thread uses. A job calls back with the answer, which goes to the server's io_context.
abbrev pub all_there : List Part → List Part → Bool
all_there ps [] = true
all_there ps (q ∷ qs) = contains ps q && all_there ps qs

abbrev pub uses : Event → List Part
uses next = []
uses job = auth_manager ∷ scheduler ∷ state_manager ∷ db_manager ∷ server ∷ []
uses round = state_manager ∷ []
uses collect = scheduler ∷ db_manager ∷ []
uses hook = controller ∷ use_case ∷ scheduler ∷ auth_manager ∷ state_manager ∷ task_pool ∷ []

abbrev pub starts_pool : List Part → Bool
starts_pool [] = false
starts_pool (p ∷ ps) = same_part p task_pool

abbrev pub is_zero : ℕ → Bool
is_zero zero = true
is_zero (suc n) = false

abbrev pub one_less : ℕ → ℕ
one_less zero = zero
one_less (suc n) = n

-- Whether the thread is there to do it.
abbrev pub can_do : Event → Ending → Bool
can_do next e = if starts_pool (left e) then is_zero e.jobs else true
can_do job e = contains (left e) task_pool && not (is_zero e.jobs)
can_do round e = contains (left e) scheduler
can_do collect e = contains (left e) metrics
can_do hook e = contains (left e) server

abbrev pub effect : Event → Ending → Ending
effect next e = record e { ended = suc e.ended }
effect job e = record e { jobs = one_less e.jobs }
effect hook e = record e { jobs = suc e.jobs }
effect round e = e
effect collect e = e

-- `none`: a thread has used a part that is gone.
unfoldable pub step : Event → Ending → Option Ending
step v e =
    if can_do v e then (if all_there (left e) (uses v) then some (effect v e) else none) else some e

abbrev pub and_then : Option Ending → (Ending → Option Ending) → Option Ending
and_then none f = none
and_then (some e) f = f e

unfoldable pub play : List Event → Ending → Option Ending
unfolding step
play [] e = some e
play (v ∷ vs) e = and_then (step v e) (play vs)

-- The shutdown with so many jobs queued, and the way out after an exception in the n-th step.
abbrev pub after_signal : ℕ → Ending
after_signal jobs = record { order = shutdown_order; ended = 0; jobs = jobs }

abbrev pub after_throw : ℕ → Ending
after_throw n = record { order = unwound n; ended = 0; jobs = 0 }
