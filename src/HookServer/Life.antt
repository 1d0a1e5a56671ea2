-- ===== src/HookServer/Life.antt =====
-- HookListener and HookServer of src/main/HookServer.cpp: the acceptor, and the start and stop of the
-- server. What Boost.Asio and the threads answer is given with each call.
pub mod Tidy
use stream_gate.Base.{
  ℕ, zero, suc, ◌+◌, Bool, true, false, not, ◌&&◌, ◌||◌, Option, none, some, List, [], ◌∷◌,
  if◌then◌else◌,
}
use stream_gate.Base.Int.{ℤ, pos_part}

-- An acceptor that is open or not, and whether an accept is pending.
pub record HookListener : Type 0 where
  pub is_open : Bool
  pub accepting : Bool

-- How a pending accept ends: with operation_aborted, with another error, or with a socket, for which
-- the session starts or throws.
pub data Accepted : Type 0 where
  aborted failed : Accepted
  connected : Bool → Accepted

-- `opens`: whether open, bind and listen go through; they throw otherwise.
unfoldable pub listen : Bool → Option HookListener
listen opens = if opens then some (record { is_open = true; accepting = false }) else none

abbrev pub do_accept : HookListener → HookListener
do_accept l = record l { accepting = true }

abbrev pub listener_start : HookListener → HookListener
listener_start l = do_accept l

-- An error of `close` is only logged.
abbrev pub listener_stop : HookListener → HookListener
listener_stop l = record l { is_open = false }

-- The handler of an accept: the new listener, and whether a session was started.
unfoldable pub on_accept : Accepted → HookListener → HookListener × Bool
on_accept aborted l = (record l { accepting = false }, false)
on_accept failed l = (if l.is_open then do_accept l else record l { accepting = false }, false)
on_accept (connected starts) l =
    (if l.is_open then do_accept l else record l { accepting = false }, starts)

-- `sessions`: those started and not over, which keep the I/O threads at work. `joining`: a caller of
-- `stop` waits for the threads. `is_stopped`: the io_context has run out of work, after which its
-- `run` returns at once, since `start` never calls `restart`. `worker_threads` are the thread objects.
pub record HookServer : Type 0 where
  pub io_threads : ℕ
  pub running : Bool
  pub listener : Option HookListener
  pub work_guard : Bool
  pub is_stopped : Bool
  pub worker_threads : ℕ
  pub sessions : ℕ
  pub joining : Bool

-- The loop counts up to an int: a negative number of threads is none.
unfoldable pub new_server : ℤ → HookServer
new_server io_threads = record {
  io_threads = pos_part io_threads;
  running = false;
  listener = none;
  work_guard = false;
  is_stopped = false;
  worker_threads = 0;
  sessions = 0;
  joining = false;
}

-- What `start` meets: whether the address is one, whether the acceptor opens, and how many threads
-- can be made; `none`: all of them.
pub record Given : Type 0 where
  pub is_address : Bool
  pub opens : Bool
  pub threads : Option ℕ

-- The threads that are made out of n, and whether that is all of them.
abbrev pub make_threads : ℕ → Option ℕ → ℕ × Bool
make_threads n none = (n, true)
make_threads zero (some k) = (0, true)
make_threads (suc n) (some zero) = (0, false)
make_threads (suc n) (some (suc k)) = let rest = make_threads n (some k) in (suc (rest.0), rest.1)

-- The rest of the `try` after the listener; the handler only takes the flag back.
abbrev pub go_on : ℕ × Bool → HookServer → Bool × HookServer
go_on (made, true) s = (true, record s { worker_threads = s.worker_threads + made })
go_on (made, false) s =
    (false, record s { worker_threads = s.worker_threads + made; running = false })

abbrev pub start_with : Given → Option HookListener → HookServer → Bool × HookServer
start_with g none s = (false, record s { running = false })
start_with g (some l) s =
    go_on (make_threads s.io_threads g.threads)
      (record s { listener = some (listener_start l); work_guard = true })

unfoldable pub start : Given → HookServer → Bool × HookServer
unfolding listen
start g s =
    if s.running
    then (true, s)
    else start_with g (if g.is_address then listen g.opens else none) (record s { running = true })

-- Up to the loop of `join`.
unfoldable pub stop : HookServer → HookServer
stop s =
    if s.running
    then record s { running = false; listener = none; work_guard = false; joining = true }
    else s

abbrev pub is_zero : ℕ → Bool
is_zero zero = true
is_zero (suc n) = false

-- Whether some thread runs the io_context.
abbrev pub is_served : HookServer → Bool
is_served s = not s.is_stopped && not (is_zero s.worker_threads)

-- Whether `join` returns: a thread ends when the guard is gone and no session is left, or at once if
-- the io_context has stopped.
unfoldable pub can_join : HookServer → Bool
can_join s = s.joining && (not (is_served s) || is_zero s.sessions)

-- The end of `stop`; the threads that ran out of work stop the io_context.
unfoldable pub join_all : HookServer → HookServer
unfolding can_join
join_all s =
    if can_join s
    then record s {
      is_stopped = s.is_stopped || not (is_zero s.worker_threads);
      worker_threads = 0;
      joining = false;
    }
    else s

-- What happens to a server: the calls, and the ends of accepts and sessions, which a thread that runs
-- the io_context handles. While `stop` waits its
-- caller makes no other call.
pub data Event : Type 0 where
  start_call : Given → Event
  stop_call join : Event
  accept : Accepted → Event
  session_over : Event

abbrev pub one_less : ℕ → ℕ
one_less zero = zero
one_less (suc n) = n

abbrev pub accepted_on : Accepted → Option HookListener → HookServer → HookServer
accepted_on a none s = s
accepted_on a (some l) s =
    if l.accepting && is_served s
    then record s {
      listener = some (on_accept a l).0;
      sessions = if (on_accept a l).1 then suc s.sessions else s.sessions;
    }
    else s

unfoldable pub step : Event → HookServer → HookServer
unfolding start stop join_all on_accept
step (start_call g) s = if s.joining then s else (start g s).1
step stop_call s = if s.joining then s else stop s
step join s = join_all s
step (accept a) s = accepted_on a s.listener s
step session_over s = record s { sessions = one_less s.sessions }

unfoldable pub run : List Event → HookServer → HookServer
unfolding step
run [] s = s
run (e ∷ es) s = run es (step e s)
