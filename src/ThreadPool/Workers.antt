-- ===== src/ThreadPool/Workers.antt =====
-- The workers of the pool, as a list.
use stream_gate.Base.{ℕ, zero, suc, ◌≤◌, ◌≡◌, Bool, true, false, some, List, [], ◌∷◌, length, arith}
use stream_gate.Base.Slots.{slot_at, sum}

-- What a worker does: it waits at the condition variable, runs a job, or has returned.
pub data Phase (J : Type 0) : Type 0 where
  waiting : Phase J
  busy : J → Phase J
  gone : Phase J

-- `token`: its std::stop_token was signalled.
pub record Worker (J : Type 0) : Type 0 where
  pub token : Bool
  pub phase : Phase J

module _ {J : Type 0} where
  abbrev pub runs : Phase J → ℕ
  runs waiting = 0
  runs (busy job) = 1
  runs gone = 0

  abbrev pub ended : Phase J → ℕ
  ended waiting = 0
  ended (busy job) = 0
  ended gone = 1

  abbrev pub is_running : Worker J → ℕ
  is_running w = runs w.phase

  abbrev pub has_ended : Worker J → ℕ
  has_ended w = ended w.phase

  abbrev pub is_asked : Worker J → ℕ
  is_asked w = elim w.token [ true ↦ 1 | false ↦ 0 ]

  asked-le : (ws : List (Worker J)) → sum is_asked ws ≤ length ws
  asked-le [] = omega arith
  asked-le (w ∷ ws) = ground (arith, asked-le ws)

  pub all_asked :
      (i : ℕ) (w : Worker J) (ws : List (Worker J))
      → slot_at i ws ≡ some w
      → sum is_asked ws ≡ length ws
      → w.token ≡ true
  all_asked i w [] h e = cc
  all_asked zero w (u ∷ ws) h e =
      let same : u ≡ w = cc in
      let asked : u.token ≡ true = ground (arith, e, asked-le ws) in rw (← same) asked
  all_asked (suc i) w (u ∷ ws) h e = all_asked i w ws h (ground (arith, e, asked-le ws))
