-- ===== src/Metrics/Collector/Worker.antt =====
-- src/metrics/MetricsCollector.cpp, `start` and `stop`: the thread that refreshes the providers at
-- every tick. That a request to stop ends the wait is what std::condition_variable_any documents.
use stream_gate.Base.{
  ℕ, ◌+◌, ◌*◌, suc, ◌≡◌, refl, Bool, true, false, ◌||◌, List, [], ◌∷◌, leb, arith, if◌then◌else◌,
  Bool-cases, inl, inr,
}

-- The thread is not there; at the test of the loop; waiting for the next tick; at its end.
pub data Phase : Type 0 where
  absent testing waiting finished : Phase

-- `state`: what a turn of the loop changes.
pub record Worker (S : Type 0) : Type 0 where
  pub phase : Phase
  pub stop_requested : Bool
  pub interval : ℕ
  pub next_tick : ℕ
  pub state : S

-- `start` at a time with an interval, the next turn of the loop, the time at a look of the wait, the
-- request to stop, and the end of `join`.
pub data Event : Type 0 where
  start_call : ℕ → ℕ → Event
  turn : Event
  look : ℕ → Event
  stop_call join : Event

module _ {S : Type 0} (body : S → S) where
  -- A thread that is joinable is not started again.
  unfoldable pub start : ℕ → ℕ → Phase → Worker S → Worker S
  start now interval absent w = record w {
    phase = testing;
    stop_requested = false;
    interval = interval;
    next_tick = now;
  }
  start now interval p w = w

  unfoldable pub loop_turn : Phase → Worker S → Worker S
  loop_turn testing w =
      if w.stop_requested
      then record w { phase = finished }
      else record w { phase = waiting; state = body w.state; next_tick = w.next_tick + w.interval }
  loop_turn p w = w

  unfoldable pub wait_until : ℕ → Phase → Worker S → Worker S
  wait_until now waiting w =
      if w.stop_requested || leb w.next_tick now then record w { phase = testing } else w
  wait_until now p w = w

  unfoldable pub stop : Phase → Worker S → Worker S
  stop absent w = w
  stop p w = record w { stop_requested = true }

  unfoldable pub join_end : Phase → Worker S → Worker S
  join_end finished w = record w { phase = absent }
  join_end p w = w

  unfoldable pub step : Event → Worker S → Worker S
  unfolding start loop_turn wait_until stop join_end
  step (start_call now interval) w = start now interval w.phase w
  step turn w = loop_turn w.phase w
  step (look now) w = wait_until now w.phase w
  step stop_call w = stop w.phase w
  step join w = join_end w.phase w

  unfoldable pub run : List Event → Worker S → Worker S
  unfolding step
  run [] w = w
  run (e ∷ es) w = run es (step e w)

abbrev pub no_start : List Event → Bool
no_start [] = true
no_start (start_call now interval ∷ es) = false
no_start (e ∷ es) = no_start es

-- The tick is so many intervals after the start as there were turns.
abbrev IsOnTime : ℕ → ℕ → Worker ℕ → Type 0
IsOnTime now interval w = (w.interval ≡ interval) × (w.next_tick ≡ now + w.state * interval)

module _ (now interval : ℕ) (w : Worker ℕ) (h : IsOnTime now interval w) where
  loop_turn-IsOnTime : (p : Phase) → IsOnTime now interval (loop_turn suc p w)
  unfolding loop_turn
  loop_turn-IsOnTime testing = elim (Bool-cases w.stop_requested) [
    | inl over ↦ simp over h
    | inr on ↦ simp on (h.0, grind (arith, h))
  ]
  loop_turn-IsOnTime absent = h
  loop_turn-IsOnTime waiting = h
  loop_turn-IsOnTime finished = h

  wait_until-IsOnTime : (time : ℕ) (p : Phase) → IsOnTime now interval (wait_until suc time p w)
  unfolding wait_until
  wait_until-IsOnTime time p = ground (arith, h)

  stop-IsOnTime : (p : Phase) → IsOnTime now interval (stop suc p w)
  unfolding stop
  stop-IsOnTime p = ground (arith, h)

  join_end-IsOnTime : (p : Phase) → IsOnTime now interval (join_end suc p w)
  unfolding join_end
  join_end-IsOnTime p = ground (arith, h)

run-IsOnTime :
    (now interval : ℕ) (es : List Event) (w : Worker ℕ)
    → no_start es ≡ true
    → IsOnTime now interval w
    → IsOnTime now interval (run suc es w)
unfolding run step
run-IsOnTime now interval [] w quiet h = h
run-IsOnTime now interval (start_call a b ∷ es) w quiet h = cc
run-IsOnTime now interval (turn ∷ es) w quiet h =
    run-IsOnTime now interval es _ quiet (loop_turn-IsOnTime now interval w h w.phase)
run-IsOnTime now interval (look time ∷ es) w quiet h =
    run-IsOnTime now interval es _ quiet (wait_until-IsOnTime now interval w h time w.phase)
run-IsOnTime now interval (stop_call ∷ es) w quiet h =
    run-IsOnTime now interval es _ quiet (stop-IsOnTime now interval w h w.phase)
run-IsOnTime now interval (join ∷ es) w quiet h =
    run-IsOnTime now interval es _ quiet (join_end-IsOnTime now interval w h w.phase)

abbrev fresh_worker : Worker ℕ
fresh_worker = record {
  phase = absent;
  stop_requested = false;
  interval = 0;
  next_tick = 0;
  state = 0;
}

-- The ticks do not drift: after any turns and looks of a thread that was started once, the next tick
-- is as many intervals after the start as there were turns, however late the turns were.
pub next_tick-run :
    (now interval : ℕ) (es : List Event)
    → no_start es ≡ true
    → let w = run suc (start_call now interval ∷ es) fresh_worker in
      w.next_tick ≡ now + w.state * interval
unfolding run step start
next_tick-run now interval es quiet =
    let begun = start suc now interval absent fresh_worker in
    (run-IsOnTime now interval es begun quiet (refl, omega arith)).1

-- After `stop`, a look and a turn bring the thread to its end, at whatever time, without another
-- turn of the loop.
pub stop-ends :
    {S : Type 0} (body : S → S) (w : Worker S) (now : ℕ) (p : Phase)
    → w.phase ≡ p
    → (p ≡ absent → ⊥)
    → let v = run body (stop_call ∷ look now ∷ turn ∷ join ∷ []) w in
      (v.phase ≡ absent) × (v.state ≡ w.state)
unfolding run step stop wait_until loop_turn join_end
stop-ends body w now absent e d = absurd (d refl)
stop-ends body w now testing e d = ground arith
stop-ends body w now waiting e d = ground arith
stop-ends body w now finished e d = ground arith
