-- ===== src/Tests/Pools.antt =====
-- The theorems on the two pools, at small ones.
use stream_gate.Base.{
  ◌≢◌, none, ℕ, ◌+◌, ◌≤◌, ◌≡◌, refl, true, false, Option, some, List, [], ◌∷◌, arith,
}
use stream_gate.Base.Int.{pos}
use stream_gate.ThreadPool.{Config, Pool, new_pool, new, returned, threw, Event, submit, turn, run}
use stream_gate.ThreadPool.Invariant.{IsSound, run-new-IsSound}
use stream_gate.ThreadPool.Order.{taken_in, handed_out, append, run-new_fifo}
use stream_gate.DbManager as Db
use stream_gate.DbManager.{
  holding, acquiring, outside, Manager, Answer, prefill, empty_manager, get_pool_stats, still,
}
use stream_gate.DbManager.Acquire.{
  has_returned, acquire_connection, acquire_connection-has_returned,
}
use stream_gate.DbManager.Counters.{read}
use stream_gate.Base.Slots.{slot_at, sum}
use stream_gate.DbManager.Limits.{IsRunning, run-new-counted}
use stream_gate.DbManager.Owners.{same, run-exclusive}

abbrev config : Config
config = record { num_threads = 2; max_queue_size = 3 }

abbrev pool : Pool ℕ
pool = new_pool config

abbrev jobs : List (Event ℕ)
jobs = submit 7 ∷ submit 8 ∷ submit 9 ∷ turn 1 returned ∷ turn 1 threw ∷ turn 0 returned ∷ []

made : new config ≡ some pool
unfolding new
made = refl

pool_example : IsSound (run jobs pool).0
pool_example = run-new-IsSound config jobs pool made

fifo_example :
    taken_in (run jobs pool).1 ≡ append (handed_out (run jobs pool).1) (run jobs pool).0.tasks
fifo_example = run-new_fifo config jobs pool made

-- A driver that gives two connections, and a third one later.
abbrev driver : ℕ → Option ℕ
driver n = some n

abbrev conns : Manager
conns = prefill 2 driver (empty_manager 5 2)

conns_made : Db.new (pos 2) (pos 5) 2 driver ≡ some conns
unfolding Db.new
conns_made = refl

abbrev gives : ℕ → Answer
gives conn = record { exchanged = true; is_valid = true; made = some conn; is_late = false }

abbrev calls : List Db.Event
calls =
    Db.turn 0 (gives 7)
    ∷ Db.turn 0 (gives 7)
    ∷ Db.turn 0 (gives 7)
    ∷ Db.turn 1 (gives 8)
    ∷ Db.turn 1 (gives 8)
    ∷ []

calls-IsRunning : IsRunning (Db.run calls conns)
unfolding Db.run Db.step
calls-IsRunning = refl

counted_example :
    (read (Db.run calls conns).total_conns ≡ pos 4)
    × (read (Db.run calls conns).active_conns ≡ pos 1)
    × (read (Db.run calls conns).wait_threads ≡ pos 0)
    × ((get_pool_stats (still (Db.run calls conns))).idle_count ≡ pos 3)
    × (2 + 2 ≤ 5)
unfolding Db.run Db.step
counted_example = run-new-counted (pos 2) (pos 5) 2 driver conns conns_made calls calls-IsRunning

first_holds : slot_at 0 (Db.run calls conns).threads ≡ some (holding 0)
unfolding Db.run Db.step
first_holds = refl

owner_example :
    (slot_at 1 (Db.run calls conns).threads ≢ some (holding 0))
    × (sum (same 0) (Db.run calls conns).pool ≡ 0)
owner_example =
    run-exclusive 0 calls conns 0 1 (omega arith) (λ e. absurd (omega (arith, e))) first_holds

-- A thread in its call, a driver that gives nothing, and a deadline that is over.
abbrev calling : Manager
calling = record conns { threads = acquiring ∷ outside ∷ [] }

abbrev nothing_left : Answer
nothing_left = record { exchanged = true; is_valid = false; made = none; is_late = true }

abbrev seven : List Answer
seven =
    nothing_left ∷ nothing_left ∷ nothing_left ∷ nothing_left ∷ nothing_left ∷ nothing_left
    ∷ nothing_left ∷ []

acquire_example : has_returned (slot_at 0 (acquire_connection 0 seven calling).threads) ≡ true
acquire_example =
    acquire_connection-has_returned 0 seven acquiring calling refl tt
      (refl, (refl, (refl, (refl, (refl, (refl, (refl, tt))))))) (omega arith)
