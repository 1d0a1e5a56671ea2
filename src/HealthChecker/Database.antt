-- ===== src/HealthChecker/Database.antt =====
-- What the check of the database says of a pool of connections.
use stream_gate.Base.{
  ℕ, ◌<◌, ◌≡◌, ◌∙◌, refl, ap, Bool, true, false, Option, some, List, ltb, arith, if◌then◌else◌,
}
use stream_gate.Base.Int.{ℤ, pos_part}
use stream_gate.Base.Slots.{sum}
use stream_gate.DbManager.{Manager, Event, PoolStats, new, run, get_pool_stats, is_connected, still}
use stream_gate.DbManager.Invariant.{IsSound, run-IsSound}
use stream_gate.DbManager.Measures.{is_waiter, holders_le}
use stream_gate.DbManager.Fresh.{count_made, new-IsSound}
use stream_gate.DbManager.Limits.{IsRunning}
use stream_gate.HealthChecker.{
  HealthStatus, healthy, degraded, unhealthy, answered, check_database, is_pressed,
}

-- What a status the check gives, by the statistics.
status_of :
    (stats : PoolStats) (time : ℕ)
    → (check_database (some (answered stats time))).status
      ≡ (if stats.is_ok then (if is_pressed stats then degraded else healthy) else unhealthy)
unfolding check_database
status_of stats time = ground arith

-- A status that is not `unhealthy`.
abbrev pub is_up : HealthStatus → Bool
is_up healthy = true
is_up degraded = true
is_up unhealthy = false

is_up-status :
    (b c : Bool)
    → b ≡ true
    → is_up (if b then (if c then degraded else healthy) else unhealthy) ≡ true
is_up-status true true e = refl
is_up-status true false e = refl
is_up-status false c e = cc

module _ (min_size max_size : ℤ) (callers : ℕ) (driver : ℕ → Option ℕ) (m : Manager)
    (made : new min_size max_size callers driver ≡ some m)
    (some_made : 0 < count_made (pos_part min_size) driver) where
  -- The pool after some events.
  abbrev after : List Event → Manager
  after es = run es m

  sound :
      (es : List Event)
      → IsSound (count_made (pos_part min_size) driver) (pos_part max_size) (after es)
  sound es =
      run-IsSound (count_made (pos_part min_size) driver) (pos_part max_size) es m
        (new-IsSound min_size max_size callers driver m made)

  connected :
      (es ds : List Event)
      → IsRunning (after es)
      → IsRunning (after ds)
      → is_connected (after es) (after ds) ≡ true
  unfolding is_connected
  connected es ds live live' = rw live (ground (arith, some_made, (sound ds).counted live'))

  quiet :
      (es : List Event) (time : ℕ)
      → IsRunning (after es)
      → (check_database (some (answered (get_pool_stats (still (after es))) time))).status
        ≡ (if ltb 0 (sum is_waiter (after es).threads) then degraded else healthy)
  unfolding get_pool_stats is_connected
  quiet es time live =
      status_of (get_pool_stats (still (after es))) time
      ∙ ground (
        arith,
        some_made,
        (sound es).counted live,
        (sound es).active,
        (sound es).waits,
        live,
        holders_le (after es).threads,
      )

  -- If the constructor of a pool made a connection, then until the pool is shut down the check of the
  -- database never calls it unhealthy, whatever happens between the loads of the statistics. Where
  -- nothing happens between them it is degraded exactly while a thread waits: not when all its
  -- connections are lent, and not even when it has lost all of them.
  pub check_database-run :
      (moments : ℕ → List Event) (time : ℕ)
      → ((i : ℕ) → IsRunning (after (moments i)))
      → (is_up
            (check_database (some (answered (get_pool_stats (λ i. after (moments i))) time))).status
          ≡ true)
        × ((check_database
              (some (answered (get_pool_stats (still (after (moments 0)))) time))).status
            ≡ (if ltb 0 (sum is_waiter (after (moments 0)).threads) then degraded else healthy))
  unfolding get_pool_stats
  check_database-run moments time live =
      let stats = get_pool_stats (λ i. after (moments i)) in
      (
        ap is_up (status_of stats time)
            ∙ is_up-status stats.is_ok (is_pressed stats)
                (connected (moments 0) (moments 1) (live 0) (live 1)),
        quiet (moments 0) time (live 0),
      )
