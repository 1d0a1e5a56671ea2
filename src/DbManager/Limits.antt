-- ===== src/DbManager/Limits.antt =====
-- How many connections a pool can have.
use stream_gate.Base.{
  ℕ, ◌+◌, ◌*◌, ◌-◌, ◌≤◌, ◌≡◌, refl, true, false, Option, some, List, [], ◌∷◌, length, arith,
}
use stream_gate.Base.Int.{ℤ, pos, pos_part, ◌-ℤ◌}
use stream_gate.Base.Slots.{sum}
use stream_gate.DbManager.{Manager, Event, new, run, shut_down, drain, get_pool_stats, still}
use stream_gate.DbManager.Counters.{read, down}
use stream_gate.DbManager.Invariant.{IsSound, run-IsSound}
use stream_gate.DbManager.Measures.{open_conns, is_holder, is_waiter, is_creator, larger}
use stream_gate.DbManager.Fresh.{count_made, new-IsSound}

abbrev pub IsRunning : Manager → Type 0
IsRunning m = m.is_shutdown ≡ false

module _ (min_size max_size : ℤ) (callers : ℕ) (driver : ℕ → Option ℕ) (m : Manager)
    (made : new min_size max_size callers driver ≡ some m) (es : List Event) where
  abbrev k : ℕ
  k = count_made (pos_part min_size) driver

  sound : IsSound k (pos_part max_size) (run es m)
  sound =
      run-IsSound k (pos_part max_size) es m (new-IsSound min_size max_size callers driver m made)

  -- After any events on a new pool that is not shut down, the total counts each connection that
  -- there is or is being made once, and each one that the constructor made a second time. The active
  -- ones are those that threads hold, the waiting threads are those that wait, and the idle ones that
  -- the statistics give, if they are read while nothing else happens, are what the total, counted like
  -- this, has more than the active ones. There are never more connections than the maximum less those
  -- that the constructor made, or than those that the constructor made if they are more.
  pub run-new-counted :
      IsRunning (run es m)
      → (read (run es m).total_conns ≡ pos (open_conns (run es m) + k))
        × (read (run es m).active_conns ≡ pos (sum is_holder (run es m).threads))
        × (read (run es m).wait_threads ≡ pos (sum is_waiter (run es m).threads))
        × ((get_pool_stats (still (run es m))).idle_count
            ≡ pos (open_conns (run es m) + k - sum is_holder (run es m).threads))
        × (open_conns (run es m) + k ≤ larger (2 * k) (pos_part max_size))
  unfolding get_pool_stats
  run-new-counted live =
      ground (arith, sound.counted live, sound.active, sound.waits, sound.bounded live)

  -- If the constructor made as many connections as the maximum, or more, no thread ever makes another
  -- one, so those that are lost are never replaced.
  pub run-new-creating : pos_part max_size ≤ k → sum is_creator (run es m).threads ≡ 0
  run-new-creating h = sound.stuck h

drain-total :
    (pool : List ℕ) (m : Manager)
    → ((drain pool m).total_conns.ups ≡ m.total_conns.ups)
      × ((drain pool m).total_conns.downs ≡ m.total_conns.downs + 2 * length pool)
drain-total [] m = (refl, omega arith)
drain-total (conn ∷ rest) m =
    let h = drain-total rest (record m { total_conns = down (down m.total_conns) }) in
    (h.0, omega (arith, h.1))

drain-pool : (pool : List ℕ) (m : Manager) → (drain pool m).pool ≡ []
drain-pool [] m = refl
drain-pool (conn ∷ rest) m = drain-pool rest (record m { total_conns = down (down m.total_conns) })

drain-is_shutdown : (pool : List ℕ) (m : Manager) → (drain pool m).is_shutdown ≡ m.is_shutdown
drain-is_shutdown [] m = refl
drain-is_shutdown (conn ∷ rest) m =
    drain-is_shutdown rest (record m { total_conns = down (down m.total_conns) })

-- `shutdown` empties the pool and takes two from the total for each connection that was in it. A
-- second call changes nothing.
pub shut_down-total :
    (m : Manager)
    → IsRunning m
    → ((shut_down m).pool ≡ [])
      × (read (shut_down m).total_conns ≡ read m.total_conns -ℤ pos (2 * length m.pool))
      × (shut_down (shut_down m) ≡ shut_down m)
unfolding shut_down
shut_down-total m live =
    let q = record m { is_shutdown = true } in
    let h = drain-total m.pool q in
    (
      rw live (drain-pool m.pool q),
      rw live (ground (arith, h)),
      rw (live, drain-is_shutdown m.pool q) refl,
    )
