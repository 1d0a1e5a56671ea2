-- ===== src/DbManager.antt =====
-- src/db/DBManager.cpp and include/DBManager.h: the pool of database connections. What the threads
-- do in it is a list of events, each of which is what a thread does between two moments at which
-- another one can get in. The asserts, which a release build leaves out, are left out.
pub mod Counters
pub mod Measures
pub mod Invariant
pub mod Fresh
pub mod Limits
pub mod Owners
pub mod Acquire
pub mod Guard
pub mod Driver
use stream_gate.Base.{
  ℕ, zero, suc, Bool, true, false, ◌&&◌, ◌||◌, Option, none, some, List, [], ◌∷◌, if◌then◌else◌,
}
use stream_gate.Base.Int.{ℤ, pos, ltb_ℤ, pos_part, ◌-ℤ◌}
use stream_gate.Base.Slots.{snoc, slot_at, set_slot, replicate}
use Counters.{Counter, start, up, down, read, below, is_positive}

-- A sql::Connection is known by a number. Where a thread stands in `acquireConnection`, which
-- connection it has got from it, or which one it is giving back.
pub data Phase : Type 0 where
  outside acquiring creating waiting : Phase
  validating holding returning : ℕ → Phase

pub record Manager : Type 0 where
  pub max_size : ℕ
  pub pool : List ℕ
  pub is_shutdown : Bool
  pub total_conns : Counter
  pub active_conns : Counter
  pub wait_threads : Counter
  pub threads : List Phase

-- What a thread meets in its next step: whether the weak exchange succeeds, whether the connection
-- passes the check, what the driver gives, and whether the deadline is over.
pub record Answer : Type 0 where
  pub exchanged : Bool
  pub is_valid : Bool
  pub made : Option ℕ
  pub is_late : Bool

pub data Event : Type 0 where
  turn : ℕ → Answer → Event
  shutdown : Event

pub record PoolStats : Type 0 where
  pub is_ok : Bool
  pub current_size : ℤ
  pub active_count : ℤ
  pub idle_count : ℤ
  pub wait_count : ℤ

-- Both the constructor and `markConnectionCreated` add to the total.
abbrev pub add_initial : Option ℕ → Manager → Manager
add_initial none m = m
add_initial (some conn) m = record m {
  pool = snoc m.pool conn;
  total_conns = up (up m.total_conns);
}

-- The constructor's loop, by what the driver gives in each round.
abbrev pub prefill : ℕ → (ℕ → Option ℕ) → Manager → Manager
prefill zero driver m = m
prefill (suc n) driver m = add_initial (driver n) (prefill n driver m)

abbrev pub empty_manager : ℕ → ℕ → Manager
empty_manager max_size callers = record {
  max_size = max_size;
  pool = [];
  is_shutdown = false;
  total_conns = start;
  active_conns = start;
  wait_threads = start;
  threads = replicate callers outside;
}

-- `none`: the constructor throws. `callers` is how many threads will use the pool.
unfoldable pub new : ℤ → ℤ → ℕ → (ℕ → Option ℕ) → Option Manager
new min_size max_size callers driver =
    if ltb_ℤ min_size (pos 0) || ltb_ℤ max_size min_size
    then none
    else some (prefill (pos_part min_size) driver (empty_manager (pos_part max_size) callers))

module _ (i : ℕ) where
  abbrev pub set : Phase → Manager → Manager
  set phase m = record m { threads = set_slot i phase m.threads }

  -- The loop's body under the lock, down to the wait.
  abbrev pub take : Answer → List ℕ → Manager → Manager
  take a (conn ∷ rest) m = record m {
    pool = rest;
    threads = set_slot i (validating conn) m.threads;
  }
  take a [] m =
      if below m.total_conns m.max_size && a.exchanged
      then record m { total_conns = up m.total_conns; threads = set_slot i creating m.threads }
      else record m { wait_threads = up m.wait_threads; threads = set_slot i waiting m.threads }

  abbrev pub validated : Bool → ℕ → Manager → Manager
  validated true conn m = record m {
    active_conns = up m.active_conns;
    threads = set_slot i (holding conn) m.threads;
  }
  validated false conn m = record m {
    total_conns = down m.total_conns;
    threads = set_slot i acquiring m.threads;
  }

  abbrev pub created : Option ℕ → Manager → Manager
  created (some conn) m = record m {
    active_conns = up m.active_conns;
    threads = set_slot i (holding conn) m.threads;
  }
  created none m = record m {
    total_conns = down m.total_conns;
    wait_threads = up m.wait_threads;
    threads = set_slot i waiting m.threads;
  }

  abbrev leave : Phase → Manager → Manager
  leave phase m = record m {
    wait_threads = down m.wait_threads;
    threads = set_slot i phase m.threads;
  }

  -- `wait_until`: it returns true if there is a connection or the pool is shut down.
  abbrev pub woken : Bool → List ℕ → Manager → Manager
  woken is_late [] m =
      if m.is_shutdown then leave outside m else if is_late then leave outside m else m
  woken is_late (conn ∷ rest) m = if m.is_shutdown then leave outside m else leave acquiring m

  -- `releaseConnection` up to the lock, and then the rest.
  abbrev pub release : ℕ → Manager → Manager
  release conn m =
      if m.is_shutdown
      then record m {
        active_conns = down m.active_conns;
        total_conns = down (down m.total_conns);
        threads = set_slot i outside m.threads;
      }
      else record m {
        active_conns = down m.active_conns;
        threads = set_slot i (returning conn) m.threads;
      }

  abbrev pub give_back : ℕ → Manager → Manager
  give_back conn m = record m { pool = snoc m.pool conn; threads = set_slot i outside m.threads }

  -- A thread that is outside calls `acquireConnection`, and one that holds a connection gives it
  -- back.
  abbrev pub advance : Answer → Phase → Manager → Manager
  advance a outside m = if m.is_shutdown then m else set acquiring m
  advance a acquiring m = if m.is_shutdown then set outside m else take a m.pool m
  advance a (validating conn) m = validated a.is_valid conn m
  advance a creating m = created a.made m
  advance a waiting m = woken a.is_late m.pool m
  advance a (holding conn) m = release conn m
  advance a (returning conn) m = give_back conn m

abbrev pub advance_at : ℕ → Answer → Option Phase → Manager → Manager
advance_at i a none m = m
advance_at i a (some phase) m = advance i a phase m

-- Two are taken from the total for each idle connection.
abbrev pub drain : List ℕ → Manager → Manager
drain [] m = record m { pool = [] }
drain (conn ∷ rest) m = drain rest (record m { total_conns = down (down m.total_conns) })

unfoldable pub shut_down : Manager → Manager
shut_down m = if m.is_shutdown then m else drain m.pool (record m { is_shutdown = true })

unfoldable pub step : Event → Manager → Manager
unfolding shut_down
step (turn i a) m = advance_at i a (slot_at i m.threads) m
step shutdown m = shut_down m

unfoldable pub run : List Event → Manager → Manager
run [] m = m
run (e ∷ es) m = run es (step e m)

-- The pool at the two loads, between which other threads may have run.
unfoldable pub is_connected : Manager → Manager → Bool
is_connected m m' = if m.is_shutdown then false else is_positive m'.total_conns

-- The pool at one moment after the other: those of the two loads of `isConnected`, and those of the
-- loads of the total, the active connections and the waiting threads.
abbrev pub Moments : Type 0
Moments = ℕ → Manager

-- Nothing happens in between.
abbrev pub still : Manager → Moments
still m i = m

unfoldable pub get_pool_stats : Moments → PoolStats
unfolding is_connected
get_pool_stats m =
    let total = read (m 2).total_conns in
    let active = read (m 3).active_conns in
    record {
      is_ok = is_connected (m 0) (m 1);
      current_size = total;
      active_count = active;
      idle_count = if ltb_ℤ active total then total -ℤ active else pos 0;
      wait_count = read (m 4).wait_threads;
    }
