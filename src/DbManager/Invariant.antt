-- ===== src/DbManager/Invariant.antt =====
-- What the counters say about the connections.
use stream_gate.Base.{
  ℕ, ◌+◌, ◌*◌, ◌≤◌, ◌≡◌, refl, ap, Bool, true, false, Option, none, some, List, [], ◌∷◌, length,
  arith, if◌then◌else◌,
}
use stream_gate.Base.Slots.{slot_at, set_slot, sum, sum-set_slot, length-snoc}
use stream_gate.DbManager.{
  Phase, outside, acquiring, creating, waiting, validating, holding, returning, Manager, Answer,
  Event, turn, shutdown, set, take, validated, created, woken, release, give_back, advance,
  advance_at, drain, shut_down, step, run,
}
use stream_gate.DbManager.Counters.{up, down}
use stream_gate.DbManager.Measures.{is_owner, is_holder, is_waiter, is_creator, open_conns, larger}

-- `k` is how many connections the constructor made, and `l` the maximum that it was given.
pub record IsSound (k l : ℕ) (m : Manager) : Type 0 where
  pub fixed : m.max_size ≡ l
  pub counted : m.is_shutdown ≡ false → m.total_conns.ups ≡ m.total_conns.downs + open_conns m + k
  pub active : m.active_conns.ups ≡ m.active_conns.downs + sum is_holder m.threads
  pub waits : m.wait_threads.ups ≡ m.wait_threads.downs + sum is_waiter m.threads
  pub bounded : m.is_shutdown ≡ false → open_conns m + k ≤ larger (2 * k) l
  pub stuck : l ≤ k → sum is_creator m.threads ≡ 0

module _ (k l i : ℕ) (a : Answer) (p : Phase) (m : Manager) (found : slot_at i m.threads ≡ some p)
    (h : IsSound k l m) where
  moved : (f : Phase → ℕ) (q : Phase) → sum f (set_slot i q m.threads) + f p ≡ sum f m.threads + f q
  moved f q = sum-set_slot f i p q m.threads found

  abbrev Moves : Phase → Type 0
  Moves q =
      (sum is_owner (set_slot i q m.threads) + is_owner p ≡ sum is_owner m.threads + is_owner q)
      × (sum is_holder (set_slot i q m.threads) + is_holder p
          ≡ sum is_holder m.threads + is_holder q)
      × (sum is_waiter (set_slot i q m.threads) + is_waiter p
          ≡ sum is_waiter m.threads + is_waiter q)
      × (sum is_creator (set_slot i q m.threads) + is_creator p
          ≡ sum is_creator m.threads + is_creator q)

  moves : (q : Phase) → Moves q
  moves q = (moved is_owner q, moved is_holder q, moved is_waiter q, moved is_creator q)

  -- What is known of the pool and of the thread's phase.
  abbrev Known : Phase → Type 0
  Known q =
      (m.is_shutdown ≡ false → m.total_conns.ups ≡ m.total_conns.downs + open_conns m + k)
      × (m.active_conns.ups ≡ m.active_conns.downs + sum is_holder m.threads)
      × (m.wait_threads.ups ≡ m.wait_threads.downs + sum is_waiter m.threads)
      × (m.is_shutdown ≡ false → open_conns m + k ≤ larger (2 * k) l)
      × (l ≤ k → sum is_creator m.threads ≡ 0)
      × (m.max_size ≡ l)
      × (is_owner p ≡ is_owner q)
      × (is_holder p ≡ is_holder q)
      × (is_waiter p ≡ is_waiter q)
      × (is_creator p ≡ is_creator q)

  known : {q : Phase} → p ≡ q → Known q
  known ph = (
    h.counted,
    h.active,
    h.waits,
    h.bounded,
    h.stuck,
    h.fixed,
    ap is_owner ph,
    ap is_holder ph,
    ap is_waiter ph,
    ap is_creator ph,
  )

  take-IsSound :
      (pool : List ℕ)
      → m.pool ≡ pool
      → p ≡ acquiring
      → m.is_shutdown ≡ false
      → IsSound k l (take i a pool m)
  take-IsSound [] e ph up = ground (arith, known ph, ap length e, moves creating, moves waiting)
  take-IsSound (conn ∷ rest) e ph up =
      ground (arith, known ph, ap length e, moves (validating conn))

  acquire-IsSound :
      (b : Bool)
      → m.is_shutdown ≡ b
      → p ≡ acquiring
      → IsSound k l (if b then set i outside m else take i a m.pool m)
  acquire-IsSound true e ph = ground (arith, known ph, moves outside)
  acquire-IsSound false e ph = take-IsSound m.pool refl ph e

  validated-IsSound :
      (b : Bool) (conn : ℕ) → p ≡ validating conn → IsSound k l (validated i b conn m)
  validated-IsSound true conn ph = ground (arith, known ph, moves (holding conn))
  validated-IsSound false conn ph = ground (arith, known ph, moves acquiring)

  created-IsSound : (made : Option ℕ) → p ≡ creating → IsSound k l (created i made m)
  created-IsSound (some conn) ph = ground (arith, known ph, moves (holding conn))
  created-IsSound none ph = ground (arith, known ph, moves waiting)

  woken-IsSound : (b : Bool) (pool : List ℕ) → p ≡ waiting → IsSound k l (woken i b pool m)
  woken-IsSound b [] ph = ground (arith, known ph, moves outside)
  woken-IsSound b (conn ∷ rest) ph = ground (arith, known ph, moves outside, moves acquiring)

  release-IsSound : (conn : ℕ) → p ≡ holding conn → IsSound k l (release i conn m)
  release-IsSound conn ph = ground (arith, known ph, moves outside, moves (returning conn))

  give_back-IsSound : (conn : ℕ) → p ≡ returning conn → IsSound k l (give_back i conn m)
  give_back-IsSound conn ph = ground (arith, known ph, length-snoc m.pool conn, moves outside)

  call-IsSound : p ≡ outside → IsSound k l (if m.is_shutdown then m else set i acquiring m)
  call-IsSound ph = ground (arith, known ph, moves acquiring)

  advance-IsSound : (q : Phase) → p ≡ q → IsSound k l (advance i a q m)
  advance-IsSound outside e = call-IsSound e
  advance-IsSound acquiring e = acquire-IsSound m.is_shutdown refl e
  advance-IsSound (validating conn) e = validated-IsSound a.is_valid conn e
  advance-IsSound creating e = created-IsSound a.made e
  advance-IsSound waiting e = woken-IsSound a.is_late m.pool e
  advance-IsSound (holding conn) e = release-IsSound conn e
  advance-IsSound (returning conn) e = give_back-IsSound conn e

advance_at-IsSound :
    (k l i : ℕ) (a : Answer) (found : Option Phase) (m : Manager)
    → slot_at i m.threads ≡ found
    → IsSound k l m
    → IsSound k l (advance_at i a found m)
advance_at-IsSound k l i a none m e h = h
advance_at-IsSound k l i a (some p) m e h = advance-IsSound k l i a p m e h p refl

drain-IsSound :
    (k l : ℕ) (pool : List ℕ) (m : Manager)
    → m.is_shutdown ≡ true
    → IsSound k l m
    → IsSound k l (drain pool m)
drain-IsSound k l [] m e h =
    ground (arith, e, h.counted, h.active, h.waits, h.bounded, h.stuck, h.fixed)
drain-IsSound k l (conn ∷ rest) m e h =
    drain-IsSound k l rest (record m { total_conns = down (down m.total_conns) }) e
      (ground (arith, e, h.counted, h.active, h.waits, h.bounded, h.stuck, h.fixed))

shut_down-IsSound :
    (k l : ℕ) (b : Bool) (m : Manager)
    → IsSound k l m
    → IsSound k l (if b then m else drain m.pool (record m { is_shutdown = true }))
shut_down-IsSound k l true m h = h
shut_down-IsSound k l false m h =
    drain-IsSound k l m.pool (record m { is_shutdown = true }) refl
      (ground (arith, h.counted, h.active, h.waits, h.bounded, h.stuck, h.fixed))

pub step-IsSound : (k l : ℕ) (e : Event) (m : Manager) → IsSound k l m → IsSound k l (step e m)
unfolding step shut_down
step-IsSound k l (turn i a) m h = advance_at-IsSound k l i a (slot_at i m.threads) m refl h
step-IsSound k l shutdown m h = shut_down-IsSound k l m.is_shutdown m h

pub run-IsSound : (k l : ℕ) (es : List Event) (m : Manager) → IsSound k l m → IsSound k l (run es m)
unfolding run
run-IsSound k l [] m h = h
run-IsSound k l (e ∷ es) m h = run-IsSound k l es (step e m) (step-IsSound k l e m h)
