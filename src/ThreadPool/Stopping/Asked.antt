-- ===== src/ThreadPool/Stopping/Asked.antt =====
-- That a worker that was asked to return does not forget it.
use stream_gate.Base.{
  ℕ, zero, suc, ◌≡◌, refl, Bool, true, false, Option, none, some, List, [], ◌∷◌, if◌then◌else◌,
  arith, Bool-cases, inl, inr,
}
use stream_gate.Base.Slots.{slot_at, set_slot}
use stream_gate.ThreadPool.{
  Pool, Ending, Event, submit, turn, begin_stop, request_stop, submit_task, worker_thread, round_of,
  worker_round, look, ask, step, run,
}
use stream_gate.ThreadPool.Workers.{Worker, Phase, waiting, busy, gone}

module _ {J : Type 0} where
  -- Worker j, if there is one, was asked.
  abbrev pub IsAsked : ℕ → List (Worker J) → Type 0
  IsAsked j ws = (u : Worker J) → slot_at j ws ≡ some u → u.token ≡ true

  set_slot-IsAsked :
      (j i : ℕ) (w v : Worker J) (ws : List (Worker J))
      → slot_at i ws ≡ some w
      → (w.token ≡ true → v.token ≡ true)
      → IsAsked j ws
      → IsAsked j (set_slot i v ws)
  set_slot-IsAsked j i w v [] at keeps h u e = cc
  set_slot-IsAsked zero zero w v (x ∷ ws) at keeps h u e =
      let same : v ≡ u = cc in rw (← same) (keeps (h w at))
  set_slot-IsAsked zero (suc i) w v (x ∷ ws) at keeps h u e = h u e
  set_slot-IsAsked (suc j) zero w v (x ∷ ws) at keeps h u e = h u e
  set_slot-IsAsked (suc j) (suc i) w v (x ∷ ws) at keeps h u e =
      set_slot-IsAsked j i w v ws at keeps h u e

  module _ (j i : ℕ) (end : Ending) (w : Worker J) (p : Pool J)
      (found : slot_at i p.workers ≡ some w) (h : IsAsked j p.workers) where
    look-IsAsked : (tasks : List J) → IsAsked j (look i w tasks p).0.workers
    look-IsAsked [] = elim (Bool-cases w.token) [
      | inl asked ↦ rw asked (
          set_slot-IsAsked j i w (record { token = true; phase = gone }) p.workers found (λ e. refl)
            h)
      | inr not_yet ↦ rw not_yet h
    ]
    look-IsAsked (job ∷ rest) =
        set_slot-IsAsked j i w (record w { phase = busy job }) p.workers found (λ e. e) h

    round-IsAsked : (phase : Phase J) → IsAsked j (worker_round i end w phase p).0.workers
    round-IsAsked waiting = look-IsAsked p.tasks
    round-IsAsked (busy job) =
        set_slot-IsAsked j i w (record w { phase = waiting }) p.workers found (λ e. e) h
    round-IsAsked gone = h

  round_of-IsAsked :
      (j i : ℕ) (end : Ending) (found : Option (Worker J)) (p : Pool J)
      → slot_at i p.workers ≡ found
      → IsAsked j p.workers
      → IsAsked j (round_of i end found p).0.workers
  round_of-IsAsked j i end none p e h = h
  round_of-IsAsked j i end (some w) p e h = round-IsAsked j i end w p e h w.phase

  pub ask-IsAsked :
      (j i : ℕ) (found : Option (Worker J)) (p : Pool J)
      → slot_at i p.workers ≡ found
      → IsAsked j p.workers
      → IsAsked j (ask i found p).workers
  ask-IsAsked j i none p e h = h
  ask-IsAsked j i (some w) p e h =
      set_slot-IsAsked j i w (record w { token = true }) p.workers e (λ e. refl) h

  either-IsAsked :
      (j : ℕ) (b : Bool) (p q : Pool J)
      → IsAsked j p.workers
      → IsAsked j q.workers
      → IsAsked j (if b then p else q).workers
  either-IsAsked j true p q h k = h
  either-IsAsked j false p q h k = k

  submitted-workers : (job : J) (p : Pool J) → (submit_task job p).0.workers ≡ p.workers
  unfolding submit_task
  submitted-workers job p = ground arith

  pub step-IsAsked :
      (j : ℕ) (e : Event J) (p : Pool J) → IsAsked j p.workers → IsAsked j (step e p).0.workers
  unfolding step worker_thread
  step-IsAsked j (submit job) p h = rw (submitted-workers job p) h
  step-IsAsked j (turn i end) p h = round_of-IsAsked j i end (slot_at i p.workers) p refl h
  step-IsAsked j begin_stop p h = h
  step-IsAsked j (request_stop i) p h =
      either-IsAsked j p.stop (ask i (slot_at i p.workers) p) p
        (ask-IsAsked j i (slot_at i p.workers) p refl h) h

  pub run-IsAsked :
      (j : ℕ) (es : List (Event J)) (p : Pool J)
      → IsAsked j p.workers
      → IsAsked j (run es p).0.workers
  unfolding run
  run-IsAsked j [] p h = h
  run-IsAsked j (e ∷ es) p h = run-IsAsked j es (step e p).0 (step-IsAsked j e p h)
