-- ===== src/DbManager/Guard.antt =====
-- The class ConnectionGuard, which gives a connection back when its object ends.
use stream_gate.Base.{ℕ, ◌≡◌, refl, Bool, true, false, Option, none, some, if◌then◌else◌}
use stream_gate.DbManager.{Manager, release, give_back}

-- `manager`: the pointer to the manager is not null.
pub record ConnectionGuard : Type 0 where
  pub manager : Bool
  pub conn : Option ℕ

-- The constructor, on what `acquireConnection` returned.
abbrev pub guard_of : Option ℕ → ConnectionGuard
guard_of conn = record { manager = true; conn = conn }

-- `releaseConnection` by thread `i`, when no other thread gets in.
abbrev pub release_connection : ℕ → Option ℕ → Manager → Manager
release_connection i none m = m
release_connection i (some conn) m =
    if m.is_shutdown then release i conn m else give_back i conn (release i conn m)

unfoldable pub destroy : ℕ → ConnectionGuard → Manager → Manager
destroy i g m = if g.manager then release_connection i g.conn m else m

-- The new object, and what is left of the other one.
unfoldable pub move_construct : ConnectionGuard → ConnectionGuard × ConnectionGuard
move_construct other = (other, record { manager = false; conn = none })

-- An assignment to another object: what that one held before is not looked at.
unfoldable pub move_assign : ConnectionGuard → ConnectionGuard → ConnectionGuard × ConnectionGuard
move_assign target other = (
  record target { manager = other.manager; conn = other.conn },
  record { manager = false; conn = none },
)

unfoldable pub is_open : ConnectionGuard → Bool
is_open g = elim g.conn [ none ↦ false | some _ ↦ true ]

-- A connection moves with its guard: when both objects of a move end, in any order, it is given back
-- once. In an assignment this holds of the connection of the right side; the one that the left side
-- held is not given back to the manager, whatever it was.
pub destroy-move :
    (i : ℕ) (target other : ConnectionGuard) (m : Manager)
    → (destroy i (move_construct other).0 (destroy i (move_construct other).1 m)
        ≡ destroy i other m)
      × (destroy i (move_construct other).1 (destroy i (move_construct other).0 m)
          ≡ destroy i other m)
      × (destroy i (move_assign target other).1 (destroy i (move_assign target other).0 m)
          ≡ destroy i other m)
unfolding destroy move_construct move_assign
destroy-move i target other m = (refl, refl, refl)
