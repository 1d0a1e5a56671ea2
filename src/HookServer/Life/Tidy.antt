-- ===== src/HookServer/Life/Tidy.antt =====
-- src/main/HookServer.cpp, HookServer: what is left behind by `start` and `stop`.
use stream_gate.Base.{
  ℕ, zero, suc, ◌≡◌, refl, Bool, true, false, ◌&&◌, ◌||◌, none, some, List, [], ◌∷◌, is_some, arith,
  ◌<◌,
}
use stream_gate.HookServer.Life.{
  listen, HookServer, Given, make_threads, start, stop, Event, start_call,
}

-- All threads can be made.
abbrev pub has_threads : Event → Bool
has_threads (start_call g) = elim g.threads [ none ↦ true | some k ↦ false ]
has_threads e = true

abbrev pub all_threads : List Event → Bool
all_threads [] = true
all_threads (e ∷ es) = has_threads e && all_threads es

-- A server that runs has its listener, the guard and all its thread objects; one that does not run
-- has no listener and no guard, and it has threads only while `stop` waits for them. Where the
-- io_context has stopped there is no session, and so the threads of a server that was started again
-- never have one.
pub record IsTidy (s : HookServer) : Type 0 where
  pub listens : is_some s.listener ≡ s.running
  pub guarded : s.work_guard ≡ s.running
  pub staffed : s.running ≡ true → s.worker_threads ≡ s.io_threads
  pub stopped : (s.running || s.joining) ≡ false → s.worker_threads ≡ 0
  pub kept : s.joining ≡ true → s.worker_threads ≡ s.io_threads
  pub apart : s.joining ≡ true → s.running ≡ false
  pub deaf : s.is_stopped ≡ true → s.sessions ≡ 0

make_threads-short : (n k : ℕ) → k < n → make_threads n (some k) ≡ (k, false)
make_threads-short zero k lt = absurd (omega arith)
make_threads-short (suc n) zero lt = refl
make_threads-short (suc n) (suc k) lt = rw (make_threads-short n k (omega arith)) refl

-- Where a server that is stopped can make only some of its threads, `start` answers false and leaves
-- those threads, the listener and the guard behind, and `stop` does nothing about them.
pub start_short :
    (g : Given) (s : HookServer) (k : ℕ)
    → s.running ≡ false
    → s.worker_threads ≡ 0
    → (g.is_address && g.opens) ≡ true
    → g.threads ≡ some k
    → k < s.io_threads
    → let s' = (start g s).1 in
      ((start g s).0 ≡ false)
      × (s'.worker_threads ≡ k)
      × (is_some s'.listener ≡ true)
      × (s'.work_guard ≡ true)
      × (stop s' ≡ s')
unfolding start listen stop
start_short g s k off none_yet opens short lt = ground (arith, make_threads-short s.io_threads k lt)
