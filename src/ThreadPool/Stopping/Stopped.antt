-- ===== src/ThreadPool/Stopping/Stopped.antt =====
-- What holds once `stop_and_wait` returns.
use stream_gate.Base.{
  ℕ, zero, suc, ◌-◌, ◌<◌, ◌≡◌, refl, ◌∙◌, Bool, true, false, ◌&&◌, Option, none, some, List, [],
  ◌∷◌, length, eqb, ltb, leb, if◌then◌else◌, arith,
}
use stream_gate.Base.Slots.{sum, slot_at, length-set_slot, replicate}
use stream_gate.ThreadPool.{
  Config, Pool, new_pool, new, Ending, Event, submit, turn, begin_stop, request_stop, submit_task,
  worker_thread, round_of, worker_round, look, ask, step, run,
}
use stream_gate.ThreadPool.Drain.{AllGone, AllGone-IsSound}
use stream_gate.ThreadPool.Invariant.{
  IsSound, some_else, run-IsSound, step-IsSound, run-new-IsSound,
}
use stream_gate.ThreadPool.Stopping.{
  Round, Wait, is_over, emptied, unbounded, timed_out, finished, ask_all, drain, wait_drained,
  clear_workers, stop_and_wait,
}
use stream_gate.ThreadPool.Workers.{Worker, Phase, waiting, busy, gone, has_ended}

if_some :
    {A : Type 0} (b : Bool) (x y : A) → (if b then some x else none) ≡ some y → (b ≡ true) × (x ≡ y)
if_some true x y e = (refl, cc)
if_some false x y e = cc

else_taken : {A : Type 0} (b : Bool) (x y z : A) → b ≡ false → (if b then x else y) ≡ z → y ≡ z
else_taken true x y z h e = cc
else_taken false x y z h e = e

module _ {J : Type 0} where
  look-length :
      (i : ℕ) (w : Worker J) (tasks : List J) (p : Pool J)
      → length (look i w tasks p).0.workers ≡ length p.workers
  look-length i w [] p = ground (arith, length-set_slot i (record w { phase = gone }) p.workers)
  look-length i w (job ∷ rest) p = length-set_slot i (record w { phase = busy job }) p.workers

  round-length :
      (i : ℕ) (end : Ending) (w : Worker J) (phase : Phase J) (p : Pool J)
      → length (worker_round i end w phase p).0.workers ≡ length p.workers
  round-length i end w waiting p = look-length i w p.tasks p
  round-length i end w (busy job) p = length-set_slot i (record w { phase = waiting }) p.workers
  round-length i end w gone p = refl

  round_of-length :
      (i : ℕ) (end : Ending) (found : Option (Worker J)) (p : Pool J)
      → length (round_of i end found p).0.workers ≡ length p.workers
  round_of-length i end none p = refl
  round_of-length i end (some w) p = round-length i end w w.phase p

  ask-length :
      (i : ℕ) (found : Option (Worker J)) (p : Pool J)
      → length (ask i found p).workers ≡ length p.workers
  ask-length i none p = refl
  ask-length i (some w) p = length-set_slot i (record w { token = true }) p.workers

  pub step-length : (e : Event J) (p : Pool J) → length (step e p).0.workers ≡ length p.workers
  unfolding step submit_task worker_thread
  step-length (submit job) p = ground arith
  step-length (turn i end) p = round_of-length i end (slot_at i p.workers) p
  step-length begin_stop p = refl
  step-length (request_stop i) p = ground (arith, ask-length i (slot_at i p.workers) p)

  pub run-length :
      (es : List (Event J)) (p : Pool J) → length (run es p).0.workers ≡ length p.workers
  unfolding run
  run-length [] p = refl
  run-length (e ∷ es) p = run-length es (step e p).0 ∙ step-length e p

  -- A sound pool that has a worker.
  abbrev IsManned : Pool J → Type 0
  IsManned p = IsSound p × (0 < length p.workers)

  replicate-some :
      (n : ℕ) (w : Worker J) (x p : Pool J)
      → (if eqb n 0 then none else some x) ≡ some p
      → 0 < length (replicate n w)
  replicate-some zero w x p e = cc
  replicate-some (suc n) w x p e = omega arith

  new-IsManned : (config : Config) (p : Pool J) → new config ≡ some p → IsManned p
  unfolding new run
  new-IsManned config p e =
      let same = some_else (eqb config.num_threads 0) (new_pool config) p e in
      let idle : Worker J = record { token = false; phase = waiting } in
      let few = replicate-some config.num_threads idle (new_pool config) p e in
      (run-new-IsSound config [] p e, rw (← same) few)

  run-IsManned : (es : List (Event J)) (p : Pool J) → IsManned p → IsManned (run es p).0
  run-IsManned es p (h, k) = (run-IsSound es p h, omega (arith, k, run-length es p))

  step-IsManned : (e : Event J) (p : Pool J) → IsManned p → IsManned (step e p).0
  step-IsManned e p (h, k) = (step-IsSound e p h, omega (arith, k, step-length e p))

  ask_all-IsManned :
      (n i : ℕ) (among : ℕ → List (Event J)) (p : Pool J)
      → IsManned p
      → IsManned (ask_all i n among p)
  unfolding ask_all
  ask_all-IsManned zero i among p h = h
  ask_all-IsManned (suc n) i among p h =
      let q = (run (among i) p).0 in
      ask_all-IsManned n (suc i) among (step (request_stop i) q).0
        (step-IsManned (request_stop i) q (run-IsManned (among i) p h))

  either-IsManned :
      (b : Bool) (x y : Pool J × Wait)
      → IsManned x.0
      → IsManned y.0
      → IsManned (if b then x else y).0
  either-IsManned true x y h k = h
  either-IsManned false x y h k = k

  -- The loop that waits ends in the pool of one of its rounds.
  drain-IsManned :
      (target timeout : ℕ) (rs : List (Round J)) (p : Pool J)
      → IsManned p
      → IsManned (drain target timeout rs p).0
  unfolding drain
  drain-IsManned target timeout [] p h = h
  drain-IsManned target timeout (r ∷ rs) p h =
      let p' = (run r.meanwhile p).0 in
      let h' = run-IsManned r.meanwhile p h in
      let late : Pool J × Wait = (p', timed_out (target - finished p')) in
      let rest = drain target timeout rs p' in
      let late_or_on = if leb timeout r.elapsed then late else rest in
      either-IsManned (leb target (finished p')) (p', emptied) late_or_on h'
        (either-IsManned (leb timeout r.elapsed) late rest h'
          (drain-IsManned target timeout rs p' h'))

  wait_drained-IsManned :
      (target timeout : ℕ) (rs : List (Round J)) (p : Pool J)
      → IsManned p
      → IsManned (wait_drained target timeout rs p).0
  unfolding wait_drained
  wait_drained-IsManned target timeout rs p h =
      either-IsManned (ltb 0 timeout) (drain target timeout rs p) (p, unbounded)
        (drain-IsManned target timeout rs p h) h

  -- The join: what it waits for holds of the pool that the call leaves.
  clear_workers-AllGone :
      (last : List (Event J)) (p q : Pool J) (v w : Wait)
      → IsManned p
      → clear_workers last (p, v) ≡ some (q, w)
      → IsSound q × AllGone q.workers
  unfolding clear_workers
  clear_workers-AllGone last p q v w h e =
      let p' = (run last p).0 in
      let (sound, manned) = run-IsManned last p h in
      let (test, same) =
        if_some (is_over v && eqb (sum has_ended p'.workers) (length p'.workers)) (p', v) (q, w)
          e in
      let same_pool : p' ≡ q = cc in
      let all : sum has_ended p'.workers ≡ length p'.workers = ground (arith, test) in
      rw (← same_pool) (sound, (manned, all))

  -- A call of `stop_and_wait` on a pool that was not stopped returns only when every worker did; then
  -- no job waits and every job that was taken in has ended: with any timeout, whatever is read as the
  -- number to wait for, and whatever happens meanwhile.
  pub stop_and_wait-AllGone :
      (config : Config) (es : List (Event J)) (p : Pool J)
      → new config ≡ some p
      → (target timeout : ℕ) (among : ℕ → List (Event J)) (rs : List (Round J))
        (last : List (Event J)) (q : Pool J) (w : Wait)
      → (run es p).0.stop ≡ false
      → stop_and_wait target timeout among rs last (run es p).0 ≡ some (q, w)
      → AllGone q.workers × (q.tasks ≡ []) × (q.completed_tasks ≡ q.total_submitted)
  unfolding stop_and_wait step
  stop_and_wait-AllGone config es p e target timeout among rs last q w running returns =
      let p' = (run es p).0 in
      let manned : IsManned p' = run-IsManned es p (new-IsManned config p e) in
      let closed = (step begin_stop p').0 in
      let n = length p'.workers in
      let asked = ask_all 0 n among closed in
      let asked_manned = ask_all-IsManned n 0 among closed (step-IsManned begin_stop p' manned) in
      let waited = wait_drained target timeout rs asked in
      let (sound, all) =
        clear_workers-AllGone last waited.0 q waited.1 w
          (wait_drained-IsManned target timeout rs asked asked_manned)
          (else_taken p'.stop _ (clear_workers last waited) _ running returns) in
      let (none_left, ended, _) = AllGone-IsSound q sound all in (all, none_left, ended)
