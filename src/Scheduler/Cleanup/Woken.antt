-- ===== src/Scheduler/Cleanup/Woken.antt =====
-- src/scheduler/StreamTaskScheduler.cpp: `stop` is not missed by the cleanup thread.
use stream_gate.Base.{ℕ, ◌≡◌, refl, Bool, true, false, ◌||◌, List, [], ◌∷◌, arith}
use stream_gate.Scheduler.Cleanup.{
  Phase, absent, testing, working, locking, ended, woken, looking, drowsy, sleeping, Stopper,
  outside, flagged, notifying, joining, Owner, nobody, cleaner, stopper, Cleanup, Event, start_call,
  stop_call, turn, start, stop, move, expire, step, run, new,
}

-- Who has the mutex.
abbrev owner_of : Phase → Stopper → Owner
owner_of (looking late) q = cleaner
owner_of drowsy q = cleaner
owner_of p notifying = stopper
owner_of p q = nobody

abbrev has_mutex : Phase → Bool
has_mutex (looking late) = true
has_mutex drowsy = true
has_mutex p = false

abbrev pub asleep : Phase → Bool
asleep drowsy = true
asleep sleeping = true
asleep p = false

abbrev pub is_absent : Phase → Bool
is_absent absent = true
is_absent p = false

abbrev pub is_stopping : Stopper → Bool
is_stopping outside = false
is_stopping q = true

module _ {S : Type 0} where
  pub record IsSound (c : Cleanup S) : Type 0 where
    pub held : c.mutex ≡ owner_of c.thread c.caller
    pub apart : c.caller ≡ notifying → has_mutex c.thread ≡ false
    pub cleared : is_stopping c.caller ≡ true → c.running ≡ false
    pub awake : c.caller ≡ joining → asleep c.thread ≡ false
    pub present : (c.running || is_stopping c.caller) ≡ true → is_absent c.thread ≡ false
    pub gone : (c.running || is_stopping c.caller) ≡ false → c.thread ≡ absent

  module _ (round : ℕ → S → S) (now : ℕ) where
    move-IsSound :
        (p : Phase) (c : Cleanup S) → c.thread ≡ p → IsSound c → IsSound (move round now p c)
    unfolding move
    move-IsSound testing c e h = ground arith
    move-IsSound working c e h = ground arith
    move-IsSound locking c e h = ground arith
    move-IsSound (woken late) c e h = ground arith
    move-IsSound (looking late) c e h = ground arith
    move-IsSound drowsy c e h = ground arith
    move-IsSound absent c e h = h
    move-IsSound sleeping c e h = h
    move-IsSound ended c e h = h

  -- The flag of the caller and the phase of the thread are given with their values.
  stop-IsSound :
      (q : Stopper) (p : Phase) (c : Cleanup S)
      → c.caller ≡ q
      → c.thread ≡ p
      → IsSound c
      → IsSound (stop q p c)
  unfolding stop
  stop-IsSound outside p c e f h = ground arith
  stop-IsSound flagged p c e f h = ground arith
  stop-IsSound notifying p c e f h = ground arith
  stop-IsSound joining p c e f h = ground arith

  start-IsSound :
      (q : Stopper) (p : Phase) (c : Cleanup S)
      → c.caller ≡ q
      → c.thread ≡ p
      → IsSound c
      → IsSound (start q p c)
  unfolding start
  start-IsSound q p c e f h = ground arith

  expire-IsSound : (p : Phase) (c : Cleanup S) → c.thread ≡ p → IsSound c → IsSound (expire p c)
  unfolding expire
  expire-IsSound p c e h = ground arith

  module _ (round : ℕ → S → S) where
    step-IsSound : (e : Event) (c : Cleanup S) → IsSound c → IsSound (step round e c)
    unfolding step
    step-IsSound start_call c h = start-IsSound c.caller c.thread c refl refl h
    step-IsSound stop_call c h = stop-IsSound c.caller c.thread c refl refl h
    step-IsSound Event.timeout c h = expire-IsSound c.thread c refl h
    step-IsSound (turn now) c h = move-IsSound round now c.thread c refl h

    run-IsSound : (es : List Event) (c : Cleanup S) → IsSound c → IsSound (run round es c)
    unfolding run
    run-IsSound [] c h = h
    run-IsSound (e ∷ es) c h = run-IsSound es (step round e c) (step-IsSound e c h)

    new-IsSound : (s : S) → IsSound (new s)
    unfolding new
    new-IsSound s = ground arith

    -- A thread that `stop` waits for comes to its end in four accesses.
    ends :
        (p : Phase) (c : Cleanup S) (w x y z : ℕ)
        → c.thread ≡ p
        → c.caller ≡ joining
        → IsSound c
        → let d = run round (turn w ∷ turn x ∷ turn y ∷ turn z ∷ stop_call ∷ []) c in
          (d.thread ≡ absent) × (d.caller ≡ outside)
    unfolding run step move stop
    ends absent c w x y z e j h = absurd (ground arith)
    ends testing c w x y z e j h = ground arith
    ends working c w x y z e j h = ground arith
    ends locking c w x y z e j h = ground arith
    ends ended c w x y z e j h = ground arith
    ends (woken late) c w x y z e j h = ground arith
    ends (looking late) c w x y z e j h = ground arith
    ends drowsy c w x y z e j h = absurd (ground arith)
    ends sleeping c w x y z e j h = absurd (ground arith)

-- However the calls of `start` and `stop`, the end of the interval and the accesses of the cleanup
-- thread follow each other: while `stop` waits for the thread, the thread is not asleep, and four
-- accesses of it, whatever the time, bring it to its end, after which `stop` returns.
pub stop-joining :
    {S : Type 0} (round : ℕ → S → S) (s : S) (es : List Event)
    → (run round es (new s)).caller ≡ joining
    → (asleep (run round es (new s)).thread ≡ false)
      × ((w x y z : ℕ)
          → let c =
              run round
                (turn w ∷ turn x ∷ turn y ∷ turn z ∷ stop_call ∷ [])
                (run round es (new s)) in
            (c.thread ≡ absent) × (c.caller ≡ outside))
stop-joining round s es j =
    let h = run-IsSound round es (new s) (new-IsSound round s) in
    (
      h.awake j,
      λ w x y z. ends round (run round es (new s)).thread (run round es (new s)) w x y z refl j h,
    )
