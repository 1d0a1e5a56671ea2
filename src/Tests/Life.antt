-- ===== src/Tests/Life.antt =====
-- The theorems on the start and the end of the program and of its threads.
use stream_gate.Base.{ℕ, suc, ◌≡◌, refl, true, false, none, List, [], ◌∷◌}
use stream_gate.HookServer.Life.{
  Event, start_call, stop_call, session_over, join, accept, connected, run,
}
use stream_gate.Scheduler.Cleanup as Cleanup
use stream_gate.Scheduler.Cleanup.{absent, outside, new}
use stream_gate.Scheduler.Cleanup.Woken.{asleep, stop-joining}
use stream_gate.Startup.Lifetimes as Ends

abbrev count_round : ℕ → ℕ → ℕ
count_round now n = suc n

-- The cleanup thread has a round and falls asleep, and is stopped.
abbrev stopped : List Cleanup.Event
stopped =
    Cleanup.start_call
    ∷ Cleanup.turn 0
    ∷ Cleanup.turn 0
    ∷ Cleanup.turn 0
    ∷ Cleanup.turn 0
    ∷ Cleanup.turn 0
    ∷ Cleanup.stop_call
    ∷ Cleanup.stop_call
    ∷ Cleanup.stop_call
    ∷ []

joining_example :
    (asleep (Cleanup.run count_round stopped (new 0)).thread ≡ false)
    × ((w x y z : ℕ)
        → let c =
            Cleanup.run count_round
              (Cleanup.turn w
                ∷ Cleanup.turn x
                ∷ Cleanup.turn y
                ∷ Cleanup.turn z
                ∷ Cleanup.stop_call
                ∷ [])
              (Cleanup.run count_round stopped (new 0)) in
          (c.thread ≡ absent) × (c.caller ≡ outside))
unfolding Cleanup.run new
joining_example = stop-joining count_round 0 stopped refl

abbrev calls : List Event
calls =
    start_call (record { is_address = true; opens = true; threads = none })
    ∷ accept (connected true)
    ∷ stop_call
    ∷ session_over
    ∷ join
    ∷ start_call (record { is_address = true; opens = true; threads = none })
    ∷ accept (connected true)
    ∷ []

abbrev busy_end : List Ends.Event
busy_end = Ends.next ∷ Ends.hook ∷ Ends.next ∷ Ends.round ∷ Ends.collect ∷ []
