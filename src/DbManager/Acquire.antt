-- ===== src/DbManager/Acquire.antt =====
-- One call of `acquireConnection` of src/db/DBManager.cpp, when no other thread gets in.
use stream_gate.Base.{
  ℕ, ◌+◌, ◌*◌, ◌≤◌, ◌<◌, ◌≡◌, refl, sym, ap, ◌∙◌, Bool, true, false, ◌&&◌, Option, none, some, List,
  [], ◌∷◌, All, length, arith, if◌then◌else◌,
}
use stream_gate.Base.Slots.{slot_at, set_slot, slot_at-set_slot}
use stream_gate.DbManager.{
  Phase, outside, acquiring, creating, waiting, validating, holding, returning, Manager, Answer,
  set, take, validated, created, woken, advance, advance_at,
}
use stream_gate.DbManager.Counters.{below}

-- The call has returned, with a connection or without.
abbrev pub has_returned : Option Phase → Bool
has_returned none = true
has_returned (some outside) = true
has_returned (some (holding conn)) = true
has_returned (some (returning conn)) = true
has_returned (some acquiring) = false
has_returned (some creating) = false
has_returned (some waiting) = false
has_returned (some (validating conn)) = false

-- The loop, by what the thread meets in its steps.
unfoldable pub acquire_connection : ℕ → List Answer → Manager → Manager
acquire_connection i [] m = m
acquire_connection i (a ∷ rest) m =
    let next = acquire_connection i rest (advance_at i a (slot_at i m.threads) m) in
    if has_returned (slot_at i m.threads) then m else next

-- How many steps are left, at most.
abbrev pub steps_left : Phase → List ℕ → ℕ
steps_left acquiring pool = 2 * length pool + 3
steps_left (validating conn) pool = 2 * length pool + 4
steps_left creating pool = 2
steps_left waiting pool = 1
steps_left outside pool = 0
steps_left (holding conn) pool = 0
steps_left (returning conn) pool = 0

-- A thread makes a connection or waits only while the pool is empty.
abbrev pub IsAlone : Phase → List ℕ → Type 0
IsAlone creating pool = length pool ≡ 0
IsAlone waiting pool = length pool ≡ 0
IsAlone outside pool = Unit {0}
IsAlone acquiring pool = Unit {0}
IsAlone (validating conn) pool = Unit {0}
IsAlone (holding conn) pool = Unit {0}
IsAlone (returning conn) pool = Unit {0}

abbrev pub IsLate : Answer → Type 0
IsLate a = a.is_late ≡ true

module _ (i : ℕ) where
  -- The thread is in a phase from which fewer steps than `n` are left.
  abbrev IsNearer : ℕ → Manager → Type 0
  IsNearer n m =
      (p : Phase) × (slot_at i m.threads ≡ some p) × (steps_left p m.pool < n) × IsAlone p m.pool

  module _ (a : Answer) (p : Phase) (m : Manager) (found : slot_at i m.threads ≡ some p) where
    moved : (q : Phase) → slot_at i (set_slot i q m.threads) ≡ some q
    moved q = slot_at-set_slot i p q m.threads found

    empty-IsNearer :
        (b : Bool)
        → (below m.total_conns m.max_size && a.exchanged) ≡ b
        → length m.pool ≡ 0
        → IsNearer 3 (take i a [] m)
    empty-IsNearer true e none_idle = rw e (creating, moved creating, omega arith, none_idle)
    empty-IsNearer false e none_idle = rw e (waiting, moved waiting, omega arith, none_idle)

    take-IsNearer :
        (pool : List ℕ) → m.pool ≡ pool → IsNearer (2 * length pool + 3) (take i a pool m)
    take-IsNearer [] e =
        empty-IsNearer (below m.total_conns m.max_size && a.exchanged) refl (ap length e)
    take-IsNearer (conn ∷ rest) e = (validating conn, moved (validating conn), omega arith, tt)

    acquire-IsNearer :
        (b : Bool)
        → m.is_shutdown ≡ b
        → IsNearer (2 * length m.pool + 3) (if b then set i outside m else take i a m.pool m)
    acquire-IsNearer true e = (outside, moved outside, omega arith, tt)
    acquire-IsNearer false e = take-IsNearer m.pool refl

    validated-IsNearer :
        (b : Bool) (conn : ℕ) → IsNearer (2 * length m.pool + 4) (validated i b conn m)
    validated-IsNearer true conn = (holding conn, moved (holding conn), omega arith, tt)
    validated-IsNearer false conn = (acquiring, moved acquiring, omega arith, tt)

    created-IsNearer : (made : Option ℕ) → length m.pool ≡ 0 → IsNearer 2 (created i made m)
    created-IsNearer (some conn) none_idle = (holding conn, moved (holding conn), omega arith, tt)
    created-IsNearer none none_idle = (waiting, moved waiting, omega arith, none_idle)

    woken_alone :
        (b : Bool) (pool : List ℕ)
        → m.is_shutdown ≡ b
        → length pool ≡ 0
        → IsNearer 1 (woken i true pool m)
    woken_alone true [] e none_idle = rw e (outside, moved outside, omega arith, tt)
    woken_alone false [] e none_idle = rw e (outside, moved outside, omega arith, tt)
    woken_alone b (conn ∷ rest) e none_idle = absurd (omega (arith, none_idle))

    advance-IsNearer :
        (q : Phase)
        → p ≡ q
        → has_returned (some q) ≡ false
        → IsAlone q m.pool
        → IsLate a
        → IsNearer (steps_left q m.pool) (advance i a q m)
    advance-IsNearer outside e going alone late = cc
    advance-IsNearer acquiring e going alone late = acquire-IsNearer m.is_shutdown refl
    advance-IsNearer (validating conn) e going alone late = validated-IsNearer a.is_valid conn
    advance-IsNearer creating e going alone late = created-IsNearer a.made alone
    advance-IsNearer waiting e going alone late =
        rw late (woken_alone m.is_shutdown m.pool refl alone)
    advance-IsNearer (holding conn) e going alone late = cc
    advance-IsNearer (returning conn) e going alone late = cc

  going_on :
      (b : Bool) (stays next : Manager)
      → (b ≡ true → has_returned (slot_at i stays.threads) ≡ true)
      → (b ≡ false → has_returned (slot_at i next.threads) ≡ true)
      → has_returned (slot_at i (if b then stays else next).threads) ≡ true
  going_on true stays next h k = h refl
  going_on false stays next h k = k refl

  left_none : (p : Phase) (pool : List ℕ) → steps_left p pool ≤ 0 → has_returned (some p) ≡ true
  left_none outside pool h = refl
  left_none acquiring pool h = absurd (omega (arith, h))
  left_none creating pool h = absurd (omega (arith, h))
  left_none waiting pool h = absurd (omega (arith, h))
  left_none (validating conn) pool h = absurd (omega (arith, h))
  left_none (holding conn) pool h = refl
  left_none (returning conn) pool h = refl

  -- A call of `acquireConnection` that no other thread disturbs, and whose deadline is over when it
  -- waits, returns after at most two steps for each idle connection and three more, whatever the
  -- driver does: the loop takes a connection out of the pool in each of its first rounds, and only a
  -- round that finds none makes one or waits.
  pub acquire_connection-has_returned :
      (answers : List Answer) (p : Phase) (m : Manager)
      → slot_at i m.threads ≡ some p
      → IsAlone p m.pool
      → All IsLate answers
      → steps_left p m.pool ≤ length answers
      → has_returned (slot_at i (acquire_connection i answers m).threads) ≡ true
  unfolding acquire_connection
  acquire_connection-has_returned [] p m found alone late enough =
      rw found (left_none p m.pool enough)
  acquire_connection-has_returned (a ∷ rest) p m found alone (late, others) enough =
      let m' = advance_at i a (slot_at i m.threads) m in
      going_on (has_returned (slot_at i m.threads)) m (acquire_connection i rest m') (λ h. h)
        (λ going.
          let near : IsNearer (steps_left p m.pool) (advance i a p m) =
            advance-IsNearer a p m found p refl (ap has_returned (sym found) ∙ going) alone late in
          let near' : IsNearer (steps_left p m.pool) m' = rw found near in
          let (q, found', fewer, alone') = near' in
          acquire_connection-has_returned rest q m' found' alone' others
            (omega (arith, fewer, enough)))
