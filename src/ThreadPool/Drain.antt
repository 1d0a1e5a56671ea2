-- ===== src/ThreadPool/Drain.antt =====
-- What stopping a pool does to the jobs that it took in.
use stream_gate.Base.{
  ℕ, suc, ◌+◌, ◌*◌, ◌≤◌, ◌<◌, ◌≡◌, refl, sym, ap, ◌∙◌, Bool, true, false, Option, none, some, List,
  [], ◌∷◌, length, arith,
}
use stream_gate.ThreadPool.{
  Config, Pool, new, Ending, Event, worker_thread, round_of, worker_round, look, run,
}
use stream_gate.ThreadPool.Invariant.{IsSound, run-new-IsSound}
use stream_gate.ThreadPool.Order.{append, append-nil, taken_in, handed_out, run-new_fifo}
use stream_gate.Base.Slots.{slot_at, sum, sum-set_slot, length-set_slot}
use stream_gate.ThreadPool.Workers.{
  Worker, Phase, waiting, busy, gone, is_asked, all_asked, is_running, has_ended, runs, ended,
}

-- Which worker takes its turn, and how its job ends if it runs one.
abbrev pub Turn : Type 0
Turn = ℕ × Ending

module _ {J : Type 0} where
  -- Every worker has returned, and there is one.
  abbrev pub AllGone : List (Worker J) → Type 0
  AllGone ws = (0 < length ws) × (sum has_ended ws ≡ length ws)

  one_idle :
      (a b n : ℕ) (phase : Phase J) → a + b ≤ n → (runs phase + a) + (ended phase + b) ≤ suc n
  one_idle a b n waiting h = omega (arith, h)
  one_idle a b n (busy job) h = omega (arith, h)
  one_idle a b n gone h = omega (arith, h)

  gone-idle : (ws : List (Worker J)) → sum is_running ws + sum has_ended ws ≤ length ws
  gone-idle [] = omega arith
  gone-idle (w ∷ ws) = one_idle _ _ _ w.phase (gone-idle ws)

  no_tasks : (xs : List J) → length xs ≡ 0 → xs ≡ []
  no_tasks [] h = refl
  no_tasks (x ∷ xs) h = absurd (omega (arith, h))

  -- A sound pool all of whose workers have returned has no job that waits, and all of its jobs ended.
  pub AllGone-IsSound :
      (q : Pool J)
      → IsSound q
      → AllGone q.workers
      → (q.tasks ≡ []) × (q.completed_tasks ≡ q.total_submitted) × (q.stop ≡ true)
  AllGone-IsSound q h (some_worker, all) =
      let idle : sum is_running q.workers ≡ 0 = omega (arith, gone-idle q.workers, all) in
      let (stopped, empty) = h.drained (omega (arith, all, some_worker)) in
      (no_tasks q.tasks empty, omega (arith, h.accounted, h.in_word, idle, empty), stopped)

  -- A pool all of whose workers have returned has handed out every job that it ever took in, in
  -- order, and every one of them has ended; so a stop loses no job.
  pub run-AllGone :
      (config : Config) (es : List (Event J)) (p : Pool J)
      → new config ≡ some p
      → AllGone (run es p).0.workers
      → (handed_out (run es p).1 ≡ taken_in (run es p).1)
        × ((run es p).0.completed_tasks ≡ (run es p).0.total_submitted)
        × ((run es p).0.stop ≡ true)
  run-AllGone config es p e all =
      let q = (run es p).0 in
      let (none_left, ended, stopped) = AllGone-IsSound q (run-new-IsSound config es p e) all in
      (
        sym (
            run-new_fifo config es p e
            ∙ ap (append (handed_out (run es p).1)) none_left
            ∙ append-nil (handed_out (run es p).1)),
        ended,
        stopped,
      )

  -- The turns that a worker has before it, and its share of those of the pool.
  abbrev pub weight : Phase J → ℕ
  weight waiting = 1
  weight (busy job) = 2
  weight gone = 0

  abbrev pub load : Worker J → ℕ
  load w = weight w.phase

  abbrev pub turns_left : Pool J → ℕ
  turns_left p = 2 * length p.tasks + sum load p.workers

  abbrev alive : Phase J → Bool
  alive waiting = true
  alive (busy job) = true
  alive gone = false

  abbrev pub is_live : Option (Worker J) → Bool
  is_live none = false
  is_live (some w) = alive w.phase

  -- Every worker was asked to stop.
  abbrev pub AllAsked : Pool J → Type 0
  AllAsked p = sum is_asked p.workers ≡ length p.workers

  module _ (i : ℕ) (end : Ending) (w : Worker J) (p : Pool J) (found : slot_at i p.workers ≡ some w)
      (asked : w.token ≡ true) where
    look-shorter :
        (tasks : List J)
        → p.tasks ≡ tasks
        → w.phase ≡ waiting
        → suc (turns_left (look i w tasks p).0) ≡ turns_left p
    look-shorter [] e ph =
        let v = record w { phase = gone } in
        ground (arith, asked, ap length e, ap weight ph, sum-set_slot load i w v p.workers found)
    look-shorter (job ∷ rest) e ph =
        let v = record w { phase = busy job } in
        ground (arith, ap length e, ap weight ph, sum-set_slot load i w v p.workers found)

    round-shorter :
        (phase : Phase J)
        → w.phase ≡ phase
        → is_live (some w) ≡ true
        → suc (turns_left (worker_round i end w phase p).0) ≡ turns_left p
    round-shorter waiting e live = look-shorter p.tasks refl e
    round-shorter (busy job) e live =
        let v = record w { phase = waiting } in
        ground (arith, ap weight e, sum-set_slot load i w v p.workers found)
    round-shorter gone e live = let h : false ≡ true = sym (ap alive e) ∙ live in cc

    look-AllAsked : (tasks : List J) → AllAsked p → AllAsked (look i w tasks p).0
    look-AllAsked [] h =
        let v = record w { phase = gone } in
        ground
          (arith, h, sum-set_slot is_asked i w v p.workers found, length-set_slot i v p.workers)
    look-AllAsked (job ∷ rest) h =
        let v = record w { phase = busy job } in
        ground
          (arith, h, sum-set_slot is_asked i w v p.workers found, length-set_slot i v p.workers)

    round-AllAsked : (phase : Phase J) → AllAsked p → AllAsked (worker_round i end w phase p).0
    round-AllAsked waiting h = look-AllAsked p.tasks h
    round-AllAsked (busy job) h =
        let v = record w { phase = waiting } in
        ground
          (arith, h, sum-set_slot is_asked i w v p.workers found, length-set_slot i v p.workers)
    round-AllAsked gone h = h

  abbrev pub run_turns : List Turn → Pool J → Pool J
  run_turns [] p = p
  run_turns ((i, end) ∷ ts) p = run_turns ts (worker_thread i end p).0

  -- Each turn is of a worker that has not returned.
  abbrev pub AllLive : List Turn → Pool J → Type 0
  AllLive [] p = Unit {0}
  AllLive ((i, end) ∷ ts) p =
      (is_live (slot_at i p.workers) ≡ true) × AllLive ts (worker_thread i end p).0

  turn_shorter :
      (i : ℕ) (end : Ending) (found : Option (Worker J)) (p : Pool J)
      → slot_at i p.workers ≡ found
      → is_live found ≡ true
      → AllAsked p
      → (suc (turns_left (round_of i end found p).0) ≡ turns_left p)
        × AllAsked (round_of i end found p).0
  turn_shorter i end none p e live asked = cc
  turn_shorter i end (some w) p e live asked = (
    round-shorter i end w p e (all_asked i w p.workers e asked) w.phase refl live,
    round-AllAsked i end w p e (all_asked i w p.workers e asked) w.phase asked,
  )

  -- Once every worker of a pool was asked to stop, each turn of a worker that has not returned brings
  -- the pool closer to its end: the turns taken and those left add up to those left at first, two for
  -- each job that waits among them. So no such pool runs for ever.
  pub run_turns-turns_left :
      (ts : List Turn) (p : Pool J)
      → AllAsked p
      → AllLive ts p
      → length ts + turns_left (run_turns ts p) ≡ turns_left p
  unfolding worker_thread
  run_turns-turns_left [] p asked live = omega arith
  run_turns-turns_left ((i, end) ∷ ts) p asked (live, rest) =
      let (shorter, asked') = turn_shorter i end (slot_at i p.workers) p refl live asked in
      omega (arith, shorter, run_turns-turns_left ts (worker_thread i end p).0 asked' rest)
