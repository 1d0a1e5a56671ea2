-- ===== src/ThreadPool/Stopping.antt =====
-- src/util/ThreadPool.cpp's `stop_and_wait`: its loop over the workers, the loop that waits for the
-- jobs, and the join that `_workers.clear()` is. What other threads do between its steps is given as
-- events of the pool; times are in milliseconds.
pub mod Stopped
pub mod Asked
pub mod AllAsked
pub mod Ends
use stream_gate.Base.{
  ℕ, zero, suc, ◌+◌, ◌-◌, ◌*◌, ◌%◌, ◌^◌, ◌<◌, ◌≤◌, ◌≡◌, ◌≢◌, refl, Bool, true, false, ◌&&◌, Option,
  none, some, List, [], ◌∷◌, length, eqb, ltb, leb, if◌then◌else◌, arith,
}
use stream_gate.Base.Slots.{sum}
use stream_gate.ThreadPool.{Pool, Event, begin_stop, request_stop, step, run}
use stream_gate.ThreadPool.Workers.{has_ended}

-- One round of the waiting loop: what happened since the one before it, and `elapse`.
pub record Round (J : Type 0) : Type 0 where
  pub meanwhile : List (Event J)
  pub elapsed : ℕ

-- How the waiting ends, with the number of jobs that the log names; `unbounded`: there is no timeout.
pub data Wait : Type 0 where
  emptied unbounded still_waiting stopped_before : Wait
  timed_out : ℕ → Wait

abbrev pub is_over : Wait → Bool
is_over emptied = true
is_over unbounded = true
is_over still_waiting = false
is_over stopped_before = true
is_over (timed_out n) = true

module _ {J : Type 0} where
  abbrev pub finished : Pool J → ℕ
  finished p = (p.completed_tasks + p.failed_tasks) % 2 ^ 64

  -- `among i`: what happens before worker `i` is asked.
  unfoldable pub ask_all : ℕ → ℕ → (ℕ → List (Event J)) → Pool J → Pool J
  ask_all i zero among p = p
  ask_all i (suc n) among p = ask_all (suc i) n among (step (request_stop i) (run (among i) p).0).0

  unfoldable pub drain : ℕ → ℕ → List (Round J) → Pool J → Pool J × Wait
  drain target timeout [] p = (p, still_waiting)
  drain target timeout (r ∷ rs) p =
      let p' = (run r.meanwhile p).0 in
      let rest = drain target timeout rs p' in
      if leb target (finished p')
      then (p', emptied)
      else if leb timeout r.elapsed
      then (p', timed_out (target - finished p'))
      else rest

  unfoldable pub wait_drained : ℕ → ℕ → List (Round J) → Pool J → Pool J × Wait
  unfolding drain
  wait_drained target timeout rs p =
      if ltb 0 timeout then drain target timeout rs p else (p, unbounded)

  -- `clear()` returns once every worker did, whatever ended the waiting; `last` is what happens until
  -- then. `none`: the call has not returned.
  unfoldable pub clear_workers : List (Event J) → Pool J × Wait → Option (Pool J × Wait)
  clear_workers last (p, w) =
      let p' = (run last p).0 in
      if is_over w && eqb (sum has_ended p'.workers) (length p'.workers) then some (p', w) else none

  -- The target is the count at some moment after the exchange, so it is given: a caller that saw the
  -- pool open may still add its job after it was read.
  unfoldable pub stop_and_wait :
      ℕ
      → ℕ
      → (ℕ → List (Event J))
      → List (Round J)
      → List (Event J)
      → Pool J
      → Option (Pool J × Wait)
  unfolding ask_all wait_drained clear_workers
  stop_and_wait target timeout among rs last p =
      if p.stop
      then some (p, stopped_before)
      else (let open_no_more = (step begin_stop p).0 in
          let asked = ask_all 0 (length p.workers) among open_no_more in
          clear_workers last (wait_drained target timeout rs asked))
