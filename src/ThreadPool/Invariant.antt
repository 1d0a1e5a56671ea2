-- ===== src/ThreadPool/Invariant.antt =====
-- What holds of a pool after any events.
use stream_gate.Base.{
  ℕ, ◌+◌, ◌%◌, ◌^◌, ◌≤◌, ◌<◌, ◌≡◌, refl, ap, Bool, true, false, Option, none, some, List, [], ◌∷◌,
  length, eqb, arith, if◌then◌else◌,
}
use stream_gate.ThreadPool.{
  Config, Pool, new_pool, Ending, returned, Event, submit, turn, begin_stop, request_stop, new,
  submit_task, worker_thread, round_of, worker_round, look, ask, step, run,
}
use stream_gate.Base.Slots.{
  slot_at, set_slot, sum, sum-set_slot, sum-at, sum-replicate, length-snoc,
}
use stream_gate.ThreadPool.Workers.{
  Worker, Phase, waiting, busy, gone, runs, ended, is_running, has_ended, is_asked,
}

pub record IsSound {J : Type 0} (p : Pool J) : Type 0 where
  -- Every job that was accepted waits, runs or has ended.
  pub accounted :
      p.total_submitted ≡ (p.completed_tasks + sum is_running p.workers + length p.tasks) % 2 ^ 64
  pub in_word : p.completed_tasks < 2 ^ 64
  pub none_failed : p.failed_tasks ≡ 0
  pub bounded : 0 < p.max_queue_size → length p.tasks ≤ p.max_queue_size
  pub asked_late : 0 < sum is_asked p.workers → p.stop ≡ true
  pub drained : 0 < sum has_ended p.workers → (p.stop ≡ true) × (length p.tasks ≡ 0)

module _ {J : Type 0} where
  submit-IsSound : (job : J) (p : Pool J) → IsSound p → IsSound (submit_task job p).0
  unfolding submit_task
  submit-IsSound job p h = ground (
    arith,
    length-snoc p.tasks job,
    h.accounted,
    h.in_word,
    h.none_failed,
    h.bounded,
    h.asked_late,
    h.drained,
  )

  module _ (i : ℕ) (end : Ending) (w : Worker J) (p : Pool J) (found : slot_at i p.workers ≡ some w)
      (h : IsSound p) where
    moved :
        (f : Worker J → ℕ) (v : Worker J)
        → sum f (set_slot i v p.workers) + f w ≡ sum f p.workers + f v
    moved f v = sum-set_slot f i w v p.workers found

    look-IsSound :
        (tasks : List J) → p.tasks ≡ tasks → w.phase ≡ waiting → IsSound (look i w tasks p).0
    look-IsSound [] e ph =
        let v = record w { phase = gone } in
        ground (
          arith,
          h.accounted,
          h.in_word,
          h.none_failed,
          h.bounded,
          h.asked_late,
          h.drained,
          ap length e,
          ap runs ph,
          ap ended ph,
          moved is_running v,
          moved has_ended v,
          moved is_asked v,
          sum-at is_asked i w p.workers found,
        )
    look-IsSound (job ∷ rest) e ph =
        let v = record w { phase = busy job } in
        ground (
          arith,
          h.accounted,
          h.in_word,
          h.none_failed,
          h.bounded,
          h.asked_late,
          h.drained,
          ap length e,
          ap runs ph,
          ap ended ph,
          moved is_running v,
          moved has_ended v,
          moved is_asked v,
        )

    round-IsSound : (phase : Phase J) → w.phase ≡ phase → IsSound (worker_round i end w phase p).0
    round-IsSound waiting e = look-IsSound p.tasks refl e
    round-IsSound (busy job) e =
        let v = record w { phase = waiting } in
        ground (
          arith,
          h.accounted,
          h.in_word,
          h.none_failed,
          h.bounded,
          h.asked_late,
          h.drained,
          ap runs e,
          ap ended e,
          moved is_running v,
          moved has_ended v,
          moved is_asked v,
        )
    round-IsSound gone e = h

  round_of-IsSound :
      (i : ℕ) (end : Ending) (found : Option (Worker J)) (p : Pool J)
      → slot_at i p.workers ≡ found
      → IsSound p
      → IsSound (round_of i end found p).0
  round_of-IsSound i end none p e h = h
  round_of-IsSound i end (some w) p e h = round-IsSound i end w p e h w.phase refl

  ask-IsSound :
      (i : ℕ) (found : Option (Worker J)) (p : Pool J)
      → slot_at i p.workers ≡ found
      → p.stop ≡ true
      → IsSound p
      → IsSound (ask i found p)
  ask-IsSound i none p e st h = h
  ask-IsSound i (some w) p e st h =
      let v = record w { token = true } in
      ground (
        arith,
        h.accounted,
        h.in_word,
        h.none_failed,
        h.bounded,
        h.asked_late,
        h.drained,
        moved i returned w p e h is_running v,
        moved i returned w p e h has_ended v,
      )

  request-IsSound :
      (i : ℕ) (b : Bool) (p : Pool J)
      → p.stop ≡ b
      → IsSound p
      → IsSound (if b then ask i (slot_at i p.workers) p else p)
  request-IsSound i true p st h = ask-IsSound i (slot_at i p.workers) p refl st h
  request-IsSound i false p st h = h

  pub step-IsSound : (e : Event J) (p : Pool J) → IsSound p → IsSound (step e p).0
  unfolding step worker_thread
  step-IsSound (submit job) p h = submit-IsSound job p h
  step-IsSound (turn i end) p h = round_of-IsSound i end (slot_at i p.workers) p refl h
  step-IsSound begin_stop p h =
      ground (arith, h.accounted, h.in_word, h.none_failed, h.bounded, h.asked_late, h.drained)
  step-IsSound (request_stop i) p h = request-IsSound i p.stop p refl h

  pub run-IsSound : (es : List (Event J)) (p : Pool J) → IsSound p → IsSound (run es p).0
  unfolding run
  run-IsSound [] p h = h
  run-IsSound (e ∷ es) p h = run-IsSound es (step e p).0 (step-IsSound e p h)

  pub some_else : (b : Bool) (q p : Pool J) → (if b then none else some q) ≡ some p → q ≡ p
  some_else true q p e = cc
  some_else false q p e = cc

  new_pool-IsSound : (config : Config) → IsSound (new_pool {J = J} config)
  new_pool-IsSound config =
      let w : Worker J = record { token = false; phase = waiting } in
      ground (
        arith,
        sum-replicate is_running config.num_threads w refl,
        sum-replicate is_asked config.num_threads w refl,
        sum-replicate has_ended config.num_threads w refl,
      )

  -- After any events on a new pool: every job that was accepted waits, runs or has ended, counted
  -- modulo 2 ^ 64; no job is counted as failed; a limit on the queue is kept; only a pool that is
  -- stopped asks its workers to return; and once a worker has returned no job waits.
  pub run-new-IsSound :
      (config : Config) (es : List (Event J)) (p : Pool J)
      → new config ≡ some p
      → IsSound (run es p).0
  unfolding new
  run-new-IsSound config es p e =
      let same = some_else (eqb config.num_threads 0) (new_pool config) p e in
      run-IsSound es p (rw (← same) (new_pool-IsSound config))
