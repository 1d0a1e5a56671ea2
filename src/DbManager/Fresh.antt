-- ===== src/DbManager/Fresh.antt =====
-- What the constructor of the database pool leaves.
use stream_gate.Base.{
  ℕ, zero, suc, ◌*◌, ◌≡◌, refl, Bool, true, false, ◌||◌, Option, none, some, length, arith,
  if◌then◌else◌,
}
use stream_gate.Base.Int.{ℤ, pos, pos_part, ltb_ℤ}
use stream_gate.Base.Slots.{sum, sum-replicate, length-snoc}
use stream_gate.DbManager.{outside, Manager, add_initial, prefill, empty_manager, new}
use stream_gate.DbManager.Measures.{is_owner, is_holder, is_waiter, is_creator}
use stream_gate.DbManager.Invariant.{IsSound}

-- How many of the first n rounds of the constructor's loop give a connection.
abbrev add_made : Option ℕ → ℕ → ℕ
add_made none k = k
add_made (some conn) k = suc k

abbrev pub count_made : ℕ → (ℕ → Option ℕ) → ℕ
count_made zero driver = 0
count_made (suc n) driver = add_made (driver n) (count_made n driver)

-- What the constructor's loop leaves, by how many connections it made.
record IsFresh (k l : ℕ) (m : Manager) : Type 0 where
  running : m.is_shutdown ≡ false
  same_limit : m.max_size ≡ l
  total : (m.total_conns.ups ≡ 2 * k) × (m.total_conns.downs ≡ 0)
  none_active : m.active_conns.ups ≡ m.active_conns.downs
  none_waits : m.wait_threads.ups ≡ m.wait_threads.downs
  idle : length m.pool ≡ k
  no_owner : sum is_owner m.threads ≡ 0
  no_holder : sum is_holder m.threads ≡ 0
  no_waiter : sum is_waiter m.threads ≡ 0
  no_creator : sum is_creator m.threads ≡ 0

empty-IsFresh : (max_size callers : ℕ) → IsFresh 0 max_size (empty_manager max_size callers)
empty-IsFresh max_size callers = record {
  running = refl;
  same_limit = refl;
  total = (refl, refl);
  none_active = refl;
  none_waits = refl;
  idle = refl;
  no_owner = sum-replicate is_owner callers outside refl;
  no_holder = sum-replicate is_holder callers outside refl;
  no_waiter = sum-replicate is_waiter callers outside refl;
  no_creator = sum-replicate is_creator callers outside refl;
}

add_initial-IsFresh :
    (k l : ℕ) (made : Option ℕ) (m : Manager)
    → IsFresh k l m
    → IsFresh (add_made made k) l (add_initial made m)
add_initial-IsFresh k l none m h = h
add_initial-IsFresh k l (some conn) m h = record {
  running = h.running;
  same_limit = h.same_limit;
  total = omega (arith, h.total);
  none_active = h.none_active;
  none_waits = h.none_waits;
  idle = omega (arith, length-snoc m.pool conn, h.idle);
  no_owner = h.no_owner;
  no_holder = h.no_holder;
  no_waiter = h.no_waiter;
  no_creator = h.no_creator;
}

prefill-IsFresh :
    (l n : ℕ) (driver : ℕ → Option ℕ) (m : Manager)
    → IsFresh 0 l m
    → IsFresh (count_made n driver) l (prefill n driver m)
prefill-IsFresh l zero driver m h = h
prefill-IsFresh l (suc n) driver m h =
    add_initial-IsFresh (count_made n driver) l (driver n) (prefill n driver m)
      (prefill-IsFresh l n driver m h)

fresh-IsSound : (k l : ℕ) (m : Manager) → IsFresh k l m → IsSound k l m
fresh-IsSound k l m h = ground (
  arith, h.running, h.same_limit, h.total, h.none_active, h.none_waits, h.idle, h.no_owner,
  h.no_holder, h.no_waiter, h.no_creator,
)

new_from : (b : Bool) (q m : Manager) → (if b then none else some q) ≡ some m → q ≡ m
new_from true q m e = cc
new_from false q m e = cc

pub new-IsSound :
    (min_size max_size : ℤ) (callers : ℕ) (driver : ℕ → Option ℕ) (m : Manager)
    → new min_size max_size callers driver ≡ some m
    → IsSound (count_made (pos_part min_size) driver) (pos_part max_size) m
unfolding new
new-IsSound min_size max_size callers driver m e =
    let n = pos_part min_size in
    let q = prefill n driver (empty_manager (pos_part max_size) callers) in
    let same = new_from (ltb_ℤ min_size (pos 0) || ltb_ℤ max_size min_size) q m e in
    rw (← same) (
      fresh-IsSound (count_made n driver) (pos_part max_size) q (
        prefill-IsFresh (pos_part max_size) n driver (empty_manager (pos_part max_size) callers)
          (empty-IsFresh (pos_part max_size) callers)))
