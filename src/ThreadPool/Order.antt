-- ===== src/ThreadPool/Order.antt =====
-- The pool against what it promises: a queue that hands out the jobs in the order in which it took
-- them, each once.
use stream_gate.Base.{
  ℕ, ◌≡◌, refl, sym, ap, ◌∙◌, Bool, true, false, Option, none, some, List, [], ◌∷◌, eqb, arith,
  if◌then◌else◌,
}
use stream_gate.ThreadPool.{
  Pool, Ending, Event, submit, turn, begin_stop, request_stop, Output, accepted, started, refused,
  silent, submit_task, worker_thread, round_of, worker_round, look, ask, step, run, Config,
  new_pool, new,
}
use stream_gate.ThreadPool.Invariant.{some_else}
use stream_gate.Base.Slots.{slot_at, snoc}
use stream_gate.ThreadPool.Workers.{Worker, Phase, waiting, busy, gone}

module _ {J : Type 0} where
  abbrev pub append : List J → List J → List J
  append [] ys = ys
  append (x ∷ xs) ys = x ∷ append xs ys

  -- The jobs that the outputs say were taken in, and that were handed to a worker.
  abbrev pub taken_in : List (Output J) → List J
  taken_in [] = []
  taken_in (accepted job ∷ os) = job ∷ taken_in os
  taken_in (o ∷ os) = taken_in os

  abbrev pub handed_out : List (Output J) → List J
  handed_out [] = []
  handed_out (started job ∷ os) = job ∷ handed_out os
  handed_out (o ∷ os) = handed_out os

  append-snoc : (xs : List J) (a : J) (ys : List J) → append (snoc xs a) ys ≡ append xs (a ∷ ys)
  append-snoc [] a ys = refl
  append-snoc (x ∷ xs) a ys = ap (λ zs. x ∷ zs) (append-snoc xs a ys)

  pub append-nil : (xs : List J) → append xs [] ≡ xs
  append-nil [] = refl
  append-nil (x ∷ xs) = ap (λ zs. x ∷ zs) (append-nil xs)

  -- What one step does to the queue, by its output.
  abbrev pub IsQueueStep : Output J → List J → List J → Type 0
  IsQueueStep (accepted job) before after = after ≡ snoc before job
  IsQueueStep (started job) before after = before ≡ job ∷ after
  IsQueueStep _ before after = after ≡ before

  submit-queue :
      (job : J) (p : Pool J) → let (p', o) = submit_task job p in IsQueueStep o p.tasks p'.tasks
  unfolding submit_task
  submit-queue job p = ground arith

  look-queue :
      (i : ℕ) (w : Worker J) (tasks : List J) (p : Pool J)
      → p.tasks ≡ tasks
      → let (p', o) = look i w tasks p in IsQueueStep o p.tasks p'.tasks
  look-queue i w [] p e = ground arith
  look-queue i w (job ∷ rest) p e = e

  round-queue :
      (i : ℕ) (end : Ending) (w : Worker J) (phase : Phase J) (p : Pool J)
      → let (p', o) = worker_round i end w phase p in IsQueueStep o p.tasks p'.tasks
  round-queue i end w waiting p = look-queue i w p.tasks p refl
  round-queue i end w (busy job) p = refl
  round-queue i end w gone p = refl

  round_of-queue :
      (i : ℕ) (end : Ending) (found : Option (Worker J)) (p : Pool J)
      → let (p', o) = round_of i end found p in IsQueueStep o p.tasks p'.tasks
  round_of-queue i end none p = refl
  round_of-queue i end (some w) p = round-queue i end w w.phase p

  ask-queue :
      (i : ℕ) (b : Bool) (found : Option (Worker J)) (p : Pool J)
      → (if b then ask i found p else p).tasks ≡ p.tasks
  ask-queue i true none p = refl
  ask-queue i true (some w) p = refl
  ask-queue i false found p = refl

  step-queue : (e : Event J) (p : Pool J) → let (p', o) = step e p in IsQueueStep o p.tasks p'.tasks
  unfolding step worker_thread
  step-queue (submit job) p = submit-queue job p
  step-queue (turn i end) p = round_of-queue i end (slot_at i p.workers) p
  step-queue begin_stop p = refl
  step-queue (request_stop i) p = ask-queue i p.stop (slot_at i p.workers) p

  output-order :
      (o : Output J) (os : List (Output J)) (before after last : List J)
      → IsQueueStep o before after
      → append after (taken_in os) ≡ append (handed_out os) last
      → append before (taken_in (o ∷ os)) ≡ append (handed_out (o ∷ os)) last
  output-order (accepted job) os before after last e h =
      sym (append-snoc before job (taken_in os)) ∙ ap (λ q. append q (taken_in os)) (sym e) ∙ h
  output-order (started job) os before after last e h =
      ap (λ q. append q (taken_in os)) e ∙ ap (λ zs. job ∷ zs) h
  output-order refused os before after last e h = ap (λ q. append q (taken_in os)) (sym e) ∙ h
  output-order silent os before after last e h = ap (λ q. append q (taken_in os)) (sym e) ∙ h

  run-order :
      (es : List (Event J)) (p : Pool J)
      → append p.tasks (taken_in (run es p).1) ≡ append (handed_out (run es p).1) (run es p).0.tasks
  unfolding run
  run-order [] p = append-nil p.tasks
  run-order (e ∷ es) p =
      let p' = (step e p).0 in
      output-order (step e p).1 (run es p').1 p.tasks p'.tasks (run es p').0.tasks (step-queue e p)
        (run-order es p')

  -- Whatever the callers and the workers of a new pool do, and in whatever order: the jobs that were
  -- taken in are those that were handed to a worker and after them those that still wait, in the
  -- order in which they were taken in, each once.
  pub run-new_fifo :
      (config : Config) (es : List (Event J)) (p : Pool J)
      → new config ≡ some p
      → taken_in (run es p).1 ≡ append (handed_out (run es p).1) (run es p).0.tasks
  unfolding new
  run-new_fifo config es p e =
      let same = some_else (eqb config.num_threads 0) (new_pool config) p e in
      rw (← same) (run-order es (new_pool config))
