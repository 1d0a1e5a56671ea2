-- ===== src/DbManager/Measures.antt =====
-- How many threads of the database pool stand where.
use stream_gate.Base.{ℕ, ◌+◌, ◌≤◌, List, [], ◌∷◌, length, arith, leb, if◌then◌else◌}
use stream_gate.Base.Slots.{sum}
use stream_gate.DbManager.{
  Phase, outside, acquiring, creating, waiting, validating, holding, returning, Manager,
}

-- The connections, or the promises of one, that are out of the pool by a thread.
abbrev pub is_owner : Phase → ℕ
is_owner outside = 0
is_owner acquiring = 0
is_owner creating = 1
is_owner waiting = 0
is_owner (validating conn) = 1
is_owner (holding conn) = 1
is_owner (returning conn) = 1

abbrev pub is_holder : Phase → ℕ
is_holder (holding conn) = 1
is_holder outside = 0
is_holder acquiring = 0
is_holder creating = 0
is_holder waiting = 0
is_holder (validating conn) = 0
is_holder (returning conn) = 0

abbrev pub is_waiter : Phase → ℕ
is_waiter waiting = 1
is_waiter outside = 0
is_waiter acquiring = 0
is_waiter creating = 0
is_waiter (validating conn) = 0
is_waiter (holding conn) = 0
is_waiter (returning conn) = 0

abbrev pub is_creator : Phase → ℕ
is_creator creating = 1
is_creator outside = 0
is_creator acquiring = 0
is_creator waiting = 0
is_creator (validating conn) = 0
is_creator (holding conn) = 0
is_creator (returning conn) = 0

holder_le : (p : Phase) → is_holder p ≤ is_owner p
holder_le outside = omega arith
holder_le acquiring = omega arith
holder_le creating = omega arith
holder_le waiting = omega arith
holder_le (validating conn) = omega arith
holder_le (holding conn) = omega arith
holder_le (returning conn) = omega arith

pub holders_le : (ps : List Phase) → sum is_holder ps ≤ sum is_owner ps
holders_le [] = omega arith
holders_le (p ∷ ps) = omega (arith, holder_le p, holders_le ps)

-- The connections that there are, and those that are being made.
abbrev pub open_conns : Manager → ℕ
open_conns m = length m.pool + sum is_owner m.threads

abbrev pub larger : ℕ → ℕ → ℕ
larger a b = if leb a b then b else a
