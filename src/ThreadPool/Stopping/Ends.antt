-- ===== src/ThreadPool/Stopping/Ends.antt =====
-- Why the loop of `stop_and_wait` ends, and so when the call does.
use stream_gate.Base.{
  ℕ, ◌+◌, ◌-◌, ◌*◌, ◌<◌, ◌≤◌, ◌≡◌, refl, ap, ◌∙◌, Bool, true, false, some, List, [], ◌∷◌, length,
  eqb, ltb, leb, if◌then◌else◌, arith, Bool-cases, inl, inr,
}
use stream_gate.Base.Slots.{sum}
use stream_gate.ThreadPool.{Pool, Event, turn, begin_stop, worker_thread, step, run}
use stream_gate.ThreadPool.Drain.{
  Turn, weight, load, turns_left, run_turns, AllLive, run_turns-turns_left,
}
use stream_gate.ThreadPool.Stopping.{
  Round, Wait, emptied, unbounded, timed_out, still_waiting, stopped_before, is_over, finished,
  ask_all, drain, wait_drained, clear_workers, stop_and_wait,
}
use stream_gate.ThreadPool.Stopping.AllAsked.{waited, waited-AllAsked}
use stream_gate.ThreadPool.Workers.{Phase, waiting, busy, gone, Worker, ended, has_ended}

not_stopped : {A : Type 0} (b : Bool) (x y : A) → b ≡ false → (if b then x else y) ≡ y
not_stopped true x y e = cc
not_stopped false x y e = refl

module _ {J : Type 0} where
  -- The rounds of the loop from time `t` on: each comes at least the five milliseconds of the sleep
  -- after the one before it.
  abbrev pub IsPaced : ℕ → List (Round J) → Type 0
  IsPaced t [] = Unit {0}
  IsPaced t (r ∷ rs) = (t ≤ r.elapsed) × IsPaced (r.elapsed + 5) rs

  -- What the end of the waiting says of the pool then.
  abbrev pub Tells : ℕ → ℕ → Pool J → Wait → Type 0
  Tells target timeout p emptied = target ≤ finished p
  Tells target timeout p unbounded = timeout ≡ 0
  Tells target timeout p (timed_out n) = (0 < n) × (n + finished p ≡ target)
  Tells target timeout p still_waiting = true ≡ false
  Tells target timeout p stopped_before = true ≡ false

  Tells-is_over :
      (target timeout : ℕ) (p : Pool J) (w : Wait) → Tells target timeout p w → is_over w ≡ true
  Tells-is_over target timeout p emptied h = refl
  Tells-is_over target timeout p unbounded h = refl
  Tells-is_over target timeout p (timed_out n) h = refl
  Tells-is_over target timeout p still_waiting h = cc
  Tells-is_over target timeout p stopped_before h = cc

  drain-Tells :
      (target timeout t : ℕ) (rs : List (Round J)) (p : Pool J)
      → IsPaced t rs
      → t < timeout + 5
      → timeout + 5 ≤ t + 5 * length rs
      → Tells target timeout (drain target timeout rs p).0 (drain target timeout rs p).1
  unfolding drain
  drain-Tells target timeout t [] p paced soon enough = absurd (omega (arith, soon, enough))
  drain-Tells target timeout t (r ∷ rs) p (later, paced) soon enough =
      let p' = (run r.meanwhile p).0 in
      elim (Bool-cases (leb target (finished p'))) [
        | inl all_done ↦
            let told : target ≤ finished p' = ground (arith, all_done) in rw all_done told
        | inr left ↦ elim (Bool-cases (leb timeout r.elapsed)) [
          | inl over ↦
              let n = target - finished p' in
              let told : (0 < n) × (n + finished p' ≡ target) =
                (ground (arith, left), ground (arith, left)) in
              rw (left, over) told
          | inr early ↦
              rw (left, early)
                (drain-Tells target timeout (r.elapsed + 5) rs p' paced (ground (arith, early))
                  (ground (arith, enough, later)))
        ]
      ]

  -- Without a timeout there is no loop; with one, the loop is over by the round that comes after it.
  wait_drained-Tells :
      (target timeout : ℕ) (rs : List (Round J)) (p : Pool J)
      → IsPaced 0 rs
      → timeout + 5 ≤ 5 * length rs
      → Tells target timeout
          (wait_drained target timeout rs p).0
          (wait_drained target timeout rs p).1
  unfolding wait_drained
  wait_drained-Tells target timeout rs p paced enough =
      let told = drain-Tells target timeout 0 rs p paced (omega arith) (omega (arith, enough)) in
      elim (Bool-cases (ltb 0 timeout)) [
        | inl some_time ↦ rw some_time told
        | inr no_time ↦
            let zero_time : timeout ≡ 0 = ground (arith, no_time) in rw no_time zero_time
      ]

  -- The turns as events of the pool.
  abbrev pub events_of : List Turn → List (Event J)
  events_of [] = []
  events_of ((i, end) ∷ ts) = turn i end ∷ events_of ts

  run-events_of : (ts : List Turn) (p : Pool J) → (run (events_of ts) p).0 ≡ run_turns ts p
  unfolding run step
  run-events_of [] p = refl
  run-events_of ((i, end) ∷ ts) p = run-events_of ts (worker_thread i end p).0

  over-gone : (phase : Phase J) → weight phase ≡ 0 → ended phase ≡ 1
  over-gone waiting h = absurd (omega (arith, h))
  over-gone (busy job) h = absurd (omega (arith, h))
  over-gone gone h = refl

  idle-gone : (ws : List (Worker J)) → sum load ws ≡ 0 → sum has_ended ws ≡ length ws
  idle-gone [] h = refl
  idle-gone (w ∷ ws) h =
      omega (arith, over-gone w.phase (omega (arith, h)), idle-gone ws (omega (arith, h)))

  clear_workers-some :
      (last : List (Event J)) (p : Pool J) (w : Wait)
      → is_over w ≡ true
      → sum has_ended (run last p).0.workers ≡ length (run last p).0.workers
      → clear_workers last (p, w) ≡ some ((run last p).0, w)
  unfolding clear_workers
  clear_workers-some last p w over all =
      let test : eqb (sum has_ended (run last p).0.workers) (length (run last p).0.workers) ≡ true =
        ground (arith, all) in
      rw (over, test) refl

  -- A call of `stop_and_wait` on a pool that was not stopped returns if its waiting loop comes round
  -- every five milliseconds or later, as often as the timeout asks for, and the workers go on after
  -- it: any turns of workers that have not returned, as many as there are left, two for each job that
  -- waits, two for a worker that runs one and one for another, let it return. No job waits then, and
  -- the waiting says that the count was reached only if it was, and otherwise how many were missing.
  pub stop_and_wait-returns :
      (target timeout : ℕ) (among : ℕ → List (Event J)) (rs : List (Round J)) (p : Pool J)
      (ts : List Turn)
      → p.stop ≡ false
      → IsPaced 0 rs
      → timeout + 5 ≤ 5 * length rs
      → AllLive ts (waited target timeout among rs p).0
      → length ts ≡ turns_left (waited target timeout among rs p).0
      → (q : Pool J) × (stop_and_wait target timeout among rs (events_of ts) p
          ≡ some (q, (waited target timeout among rs p).1))
        × (length q.tasks ≡ 0)
        × Tells target timeout
            (waited target timeout among rs p).0
            (waited target timeout among rs p).1
  unfolding stop_and_wait
  stop_and_wait-returns target timeout among rs p ts running paced enough live all_turns =
      let x = waited target timeout among rs p in
      let q = run_turns ts x.0 in
      let asked = ask_all 0 (length p.workers) among (step begin_stop p).0 in
      let told = wait_drained-Tells target timeout rs asked paced enough in
      let none_left =
        run_turns-turns_left ts x.0 (waited-AllAsked target timeout among rs p) live in
      let gone : sum has_ended q.workers ≡ length q.workers =
        idle-gone q.workers (omega (arith, none_left, all_turns)) in
      let same = run-events_of ts x.0 in
      let cleared =
        clear_workers-some (events_of ts) x.0 x.1 (Tells-is_over target timeout x.0 x.1 told)
          (rw same gone) in
      let returned : clear_workers (events_of ts) x ≡ some (q, x.1) =
        cleared ∙ ap (λ u. some (u, x.1)) same in
      (
        q,
        not_stopped p.stop (some (p, stopped_before)) (clear_workers (events_of ts) x) running
            ∙ returned,
        omega (arith, none_left, all_turns),
        told,
      )
