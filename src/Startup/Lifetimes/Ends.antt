-- ===== src/Startup/Lifetimes/Ends.antt =====
-- src/main/main.cpp: which threads can use a part that is gone.
use stream_gate.Base.{
  ℕ, zero, suc, ◌≤◌, ◌≡◌, refl, Bool, true, false, ◌&&◌, none, List, [], ◌∷◌, arith, if◌then◌else◌,
}
use stream_gate.Startup.Lifetimes.{
  Part, shutdown_order, contains, Event, next, job, round, Ending, all_there, uses, step, play,
  after_throw,
}

abbrev pub no_job : List Event → Bool
no_job [] = true
no_job (job ∷ vs) = false
no_job (v ∷ vs) = no_job vs

-- A test of every rest of a list.
abbrev all_rests : (List Part → Bool) → List Part → Bool
all_rests t [] = t []
all_rests t (p ∷ ps) = t (p ∷ ps) && all_rests t ps

-- With these parts left, where the thread is there, so is what it uses.
abbrev is_safe : Part → Event → List Part → Bool
is_safe thread v ps = if contains ps thread then all_there ps (uses v) else true

-- The order in a state never changes.
abbrev IsShutdown : Ending → Type 0
IsShutdown e = e.order ≡ shutdown_order

-- After an exception from a step of the start that follows the start of the scheduler, the thread of
-- the scheduler can have a round when the state manager that it uses is gone.
pub play-after_throw :
    (n : ℕ) → 5 ≤ n → n ≤ 9 → play (next ∷ next ∷ next ∷ round ∷ []) (after_throw n) ≡ none
unfolding play step
play-after_throw (suc (suc (suc (suc (suc zero))))) l u = refl
play-after_throw (suc (suc (suc (suc (suc (suc zero)))))) l u = refl
play-after_throw (suc (suc (suc (suc (suc (suc (suc zero))))))) l u = refl
play-after_throw (suc (suc (suc (suc (suc (suc (suc (suc zero)))))))) l u = refl
play-after_throw (suc (suc (suc (suc (suc (suc (suc (suc (suc zero))))))))) l u = refl
play-after_throw _ l u = absurd (omega arith)
