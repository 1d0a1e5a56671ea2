-- ===== src/ThreadPool/Stopping/AllAsked.antt =====
-- That `stop_and_wait` has asked every worker to return when its waiting ends.
use stream_gate.Base.{
  ℕ, zero, suc, ◌+◌, ◌-◌, ◌<◌, ◌≤◌, ◌≡◌, refl, eqb, ◌∙◌, Bool, true, false, Option, none, some,
  List, [], ◌∷◌, length, leb, ltb, if◌then◌else◌, arith, Bool-cases, inl, inr,
}
use stream_gate.Base.Slots.{sum, slot_at, set_slot}
use stream_gate.ThreadPool.{
  Pool, Ending, Event, submit, turn, begin_stop, request_stop, submit_task, worker_thread, round_of,
  worker_round, look, ask, step, run,
}
use stream_gate.ThreadPool.Stopping.Asked.{IsAsked, step-IsAsked, run-IsAsked}
use stream_gate.ThreadPool.Drain.{AllAsked}
use stream_gate.ThreadPool.Stopping.{
  Round, Wait, emptied, unbounded, timed_out, finished, ask_all, drain, wait_drained,
}
use stream_gate.ThreadPool.Stopping.Stopped.{step-length, run-length}
use stream_gate.ThreadPool.Workers.{Worker, Phase, waiting, busy, gone, is_asked}

module _ {J : Type 0} where
  -- A pool that is stopped stays stopped.
  look-stop :
      (i : ℕ) (w : Worker J) (tasks : List J) (p : Pool J) → (look i w tasks p).0.stop ≡ p.stop
  look-stop i w [] p = ground arith
  look-stop i w (job ∷ rest) p = refl

  round-stop :
      (i : ℕ) (end : Ending) (w : Worker J) (phase : Phase J) (p : Pool J)
      → (worker_round i end w phase p).0.stop ≡ p.stop
  round-stop i end w waiting p = look-stop i w p.tasks p
  round-stop i end w (busy job) p = refl
  round-stop i end w gone p = refl

  round_of-stop :
      (i : ℕ) (end : Ending) (found : Option (Worker J)) (p : Pool J)
      → (round_of i end found p).0.stop ≡ p.stop
  round_of-stop i end none p = refl
  round_of-stop i end (some w) p = round-stop i end w w.phase p

  ask-stop : (i : ℕ) (found : Option (Worker J)) (p : Pool J) → (ask i found p).stop ≡ p.stop
  ask-stop i none p = refl
  ask-stop i (some w) p = refl

  either-stop :
      (b : Bool) (p q : Pool J) → p.stop ≡ true → q.stop ≡ true → (if b then p else q).stop ≡ true
  either-stop true p q h k = h
  either-stop false p q h k = k

  step-stop : (e : Event J) (p : Pool J) → p.stop ≡ true → (step e p).0.stop ≡ true
  unfolding step submit_task worker_thread
  step-stop (submit job) p h = ground (arith, h)
  step-stop (turn i end) p h = round_of-stop i end (slot_at i p.workers) p ∙ h
  step-stop begin_stop p h = refl
  step-stop (request_stop i) p h =
      either-stop p.stop (ask i (slot_at i p.workers) p) p (ask-stop i (slot_at i p.workers) p ∙ h)
        h

  run-stop : (es : List (Event J)) (p : Pool J) → p.stop ≡ true → (run es p).0.stop ≡ true
  unfolding run
  run-stop [] p h = h
  run-stop (e ∷ es) p h = run-stop es (step e p).0 (step-stop e p h)

  set_slot_here :
      (i : ℕ) (w v : Worker J) (ws : List (Worker J))
      → slot_at i ws ≡ some w
      → v.token ≡ true
      → IsAsked i (set_slot i v ws)
  set_slot_here i w v [] at asked u e = cc
  set_slot_here zero w v (x ∷ ws) at asked u e = let same : v ≡ u = cc in rw (← same) asked
  set_slot_here (suc i) w v (x ∷ ws) at asked u e = set_slot_here i w v ws at asked u e

  ask_here :
      (i : ℕ) (found : Option (Worker J)) (p : Pool J)
      → slot_at i p.workers ≡ found
      → IsAsked i (ask i found p).workers
  ask_here i none p at u e = cc
  ask_here i (some w) p at u e = set_slot_here i w (record w { token = true }) p.workers at refl u e

  then-IsAsked :
      (j : ℕ) (b : Bool) (p q : Pool J)
      → b ≡ true
      → IsAsked j p.workers
      → IsAsked j (if b then p else q).workers
  then-IsAsked j true p q e h = h
  then-IsAsked j false p q e h = cc

  request_stop-IsAsked :
      (i : ℕ) (p : Pool J) → p.stop ≡ true → IsAsked i (step (request_stop i) p).0.workers
  unfolding step
  request_stop-IsAsked i p h =
      then-IsAsked i p.stop (ask i (slot_at i p.workers) p) p h
        (ask_here i (slot_at i p.workers) p refl)

  ask_all-kept :
      (j n i : ℕ) (among : ℕ → List (Event J)) (p : Pool J)
      → IsAsked j p.workers
      → IsAsked j (ask_all i n among p).workers
  unfolding ask_all
  ask_all-kept j zero i among p h = h
  ask_all-kept j (suc n) i among p h =
      let q = (run (among i) p).0 in
      ask_all-kept j n (suc i) among (step (request_stop i) q).0
        (step-IsAsked j (request_stop i) q (run-IsAsked j (among i) p h))

  -- Every worker of the places i, ..., i + n - 1 is asked, whatever happens meanwhile.
  ask_all-IsAsked :
      (j n i : ℕ) (among : ℕ → List (Event J)) (p : Pool J)
      → p.stop ≡ true
      → i ≤ j
      → j < i + n
      → IsAsked j (ask_all i n among p).workers
  unfolding ask_all
  ask_all-IsAsked j zero i among p h le lt = absurd (omega (arith, le, lt))
  ask_all-IsAsked j (suc n) i among p h le lt =
      let q = (run (among i) p).0 in
      let closed = run-stop (among i) p h in
      let next = (step (request_stop i) q).0 in
      elim (Bool-cases (eqb i j)) [
        | inl same ↦
            let here : i ≡ j = ground (arith, same) in
            ask_all-kept j n (suc i) among next (rw (← here) (request_stop-IsAsked i q closed))
        | inr other ↦
            ask_all-IsAsked j n (suc i) among next (step-stop (request_stop i) q closed)
              (ground (arith, other, le)) (omega (arith, lt))
      ]

  closing : (p : Pool J) → (step begin_stop p).0.stop ≡ true
  unfolding step
  closing p = refl

  pair-IsAsked :
      (j : ℕ) (b : Bool) (x y : Pool J × Wait)
      → IsAsked j x.0.workers
      → IsAsked j y.0.workers
      → IsAsked j (if b then x else y).0.workers
  pair-IsAsked j true x y h k = h
  pair-IsAsked j false x y h k = k

  drain-IsAsked :
      (j target timeout : ℕ) (rs : List (Round J)) (p : Pool J)
      → IsAsked j p.workers
      → IsAsked j (drain target timeout rs p).0.workers
  unfolding drain
  drain-IsAsked j target timeout [] p h = h
  drain-IsAsked j target timeout (r ∷ rs) p h =
      let p' = (run r.meanwhile p).0 in
      let h' = run-IsAsked j r.meanwhile p h in
      let late : Pool J × Wait = (p', timed_out (target - finished p')) in
      let rest = drain target timeout rs p' in
      let late_or_on = if leb timeout r.elapsed then late else rest in
      pair-IsAsked j (leb target (finished p')) (p', emptied) late_or_on h'
        (pair-IsAsked j (leb timeout r.elapsed) late rest h'
          (drain-IsAsked j target timeout rs p' h'))

  asked_each :
      (ws : List (Worker J))
      → ((j : ℕ) → j < length ws → IsAsked j ws)
      → sum is_asked ws ≡ length ws
  asked_each [] h = refl
  asked_each (w ∷ ws) h =
      let here = h 0 (omega arith) w refl in
      let rest = asked_each ws (λ j lt. h (suc j) (omega (arith, lt))) in ground (arith, here, rest)

  pair-length :
      (n : ℕ) (b : Bool) (x y : Pool J × Wait)
      → length x.0.workers ≡ n
      → length y.0.workers ≡ n
      → length (if b then x else y).0.workers ≡ n
  pair-length n true x y h k = h
  pair-length n false x y h k = k

  ask_all-length :
      (n i : ℕ) (among : ℕ → List (Event J)) (p : Pool J)
      → length (ask_all i n among p).workers ≡ length p.workers
  unfolding ask_all
  ask_all-length zero i among p = refl
  ask_all-length (suc n) i among p =
      let q = (run (among i) p).0 in
      ask_all-length n (suc i) among (step (request_stop i) q).0
      ∙ step-length (request_stop i) q
      ∙ run-length (among i) p

  drain-length :
      (target timeout : ℕ) (rs : List (Round J)) (p : Pool J)
      → length (drain target timeout rs p).0.workers ≡ length p.workers
  unfolding drain
  drain-length target timeout [] p = refl
  drain-length target timeout (r ∷ rs) p =
      let p' = (run r.meanwhile p).0 in
      let here = run-length r.meanwhile p in
      let late : Pool J × Wait = (p', timed_out (target - finished p')) in
      let rest = drain target timeout rs p' in
      let late_or_on = if leb timeout r.elapsed then late else rest in
      pair-length (length p.workers) (leb target (finished p')) (p', emptied) late_or_on here
        (pair-length (length p.workers) (leb timeout r.elapsed) late rest here
          (drain-length target timeout rs p' ∙ here))

  -- The pool when the waiting ends.
  abbrev pub waited : ℕ → ℕ → (ℕ → List (Event J)) → List (Round J) → Pool J → Pool J × Wait
  waited target timeout among rs p =
      wait_drained target timeout rs (ask_all 0 (length p.workers) among (step begin_stop p).0)

  pub waited-AllAsked :
      (target timeout : ℕ) (among : ℕ → List (Event J)) (rs : List (Round J)) (p : Pool J)
      → AllAsked (waited target timeout among rs p).0
  unfolding wait_drained
  waited-AllAsked target timeout among rs p =
      let closed = (step begin_stop p).0 in
      let n = length p.workers in
      let size = step-length begin_stop p in
      let asked = ask_all 0 n among closed in
      let some_time = ltb 0 timeout in
      let rest = drain target timeout rs asked in
      let asked_size = ask_all-length n 0 among closed ∙ size in
      let end_size =
        pair-length n some_time rest (asked, unbounded)
          (drain-length target timeout rs asked ∙ asked_size) asked_size in
      asked_each (waited target timeout among rs p).0.workers (λ j lt.
        let was_asked =
          ask_all-IsAsked j n 0 among closed (closing p) (omega arith)
            (omega (arith, lt, end_size)) in
        pair-IsAsked j some_time rest (asked, unbounded)
          (drain-IsAsked j target timeout rs asked was_asked) was_asked)
