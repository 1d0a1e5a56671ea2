-- ===== src/DbManager/Owners.antt =====
-- Who has which connection.
use stream_gate.Base.{
  ◌≢◌, ℕ, ◌+◌, ◌≤◌, ◌≡◌, refl, ap, Bool, true, false, Option, none, some, List, [], ◌∷◌, arith, eqb,
  if◌then◌else◌,
}
use stream_gate.Base.Slots.{sum-two, sum-at, slot_at, set_slot, sum, sum-set_slot, sum-snoc}
use stream_gate.DbManager.{
  Phase, outside, acquiring, creating, waiting, validating, holding, returning, Manager, Answer,
  Event, turn, shutdown, take, validated, created, woken, advance, advance_at, drain, shut_down,
  step, run,
}
use stream_gate.DbManager.Counters.{down}

module _ (conn : ℕ) where
  abbrev pub same : ℕ → ℕ
  same c = if eqb conn c then 1 else 0

  -- How often a thread has the connection: at most once.
  abbrev pub has : Phase → ℕ
  has outside = 0
  has acquiring = 0
  has creating = 0
  has waiting = 0
  has (validating c) = same c
  has (holding c) = same c
  has (returning c) = same c

  -- How often the connection is in the pool or with a thread.
  abbrev pub copies : Manager → ℕ
  copies m = sum same m.pool + sum has m.threads

  abbrev pub given : Option ℕ → ℕ
  given none = 0
  given (some c) = same c

  -- How often the driver gave it to the threads, at most.
  abbrev pub given_in : List Event → ℕ
  given_in [] = 0
  given_in (turn i a ∷ es) = given a.made + given_in es
  given_in (shutdown ∷ es) = given_in es

  module _ (i : ℕ) (a : Answer) (p : Phase) (m : Manager)
      (found : slot_at i m.threads ≡ some p) where
    moved : (q : Phase) → sum has (set_slot i q m.threads) + has p ≡ sum has m.threads + has q
    moved q = sum-set_slot has i p q m.threads found

    copies-take :
        (pool : List ℕ) → m.pool ≡ pool → p ≡ acquiring → copies (take i a pool m) ≤ copies m
    copies-take [] e ph = ground (arith, ap (sum same) e, ap has ph, moved creating, moved waiting)
    copies-take (c ∷ rest) e ph = ground (arith, ap (sum same) e, ap has ph, moved (validating c))

    copies-validated : (b : Bool) (c : ℕ) → p ≡ validating c → copies (validated i b c m) ≤ copies m
    copies-validated true c ph = ground (arith, ap has ph, moved (holding c))
    copies-validated false c ph = ground (arith, ap has ph, moved acquiring)

    copies-created :
        (made : Option ℕ) → p ≡ creating → copies (created i made m) ≤ copies m + given made
    copies-created none ph = ground (arith, ap has ph, moved waiting)
    copies-created (some c) ph = ground (arith, ap has ph, moved (holding c))

    copies-woken : (b : Bool) (pool : List ℕ) → p ≡ waiting → copies (woken i b pool m) ≤ copies m
    copies-woken b [] ph = ground (arith, ap has ph, moved outside)
    copies-woken b (c ∷ rest) ph = ground (arith, ap has ph, moved outside, moved acquiring)

    copies-advance : (q : Phase) → p ≡ q → copies (advance i a q m) ≤ copies m + given a.made
    copies-advance outside e = ground (arith, ap has e, moved acquiring)
    copies-advance acquiring e = ground (arith, ap has e, copies-take m.pool refl e, moved outside)
    copies-advance (validating c) e = omega (arith, copies-validated a.is_valid c e)
    copies-advance creating e = copies-created a.made e
    copies-advance waiting e = omega (arith, copies-woken a.is_late m.pool e)
    copies-advance (holding c) e = ground (arith, ap has e, moved outside, moved (returning c))
    copies-advance (returning c) e = ground (arith, ap has e, moved outside, sum-snoc same m.pool c)

  copies-advance_at :
      (i : ℕ) (a : Answer) (found : Option Phase) (m : Manager)
      → slot_at i m.threads ≡ found
      → copies (advance_at i a found m) ≤ copies m + given a.made
  copies-advance_at i a none m e = omega arith
  copies-advance_at i a (some p) m e = copies-advance i a p m e p refl

  copies-drain : (pool : List ℕ) (m : Manager) → copies (drain pool m) ≤ copies m
  copies-drain [] m = omega arith
  copies-drain (c ∷ rest) m =
      copies-drain rest (record m { total_conns = down (down m.total_conns) })

  copies-shut_down :
      (b : Bool) (m : Manager)
      → copies (if b then m else drain m.pool (record m { is_shutdown = true })) ≤ copies m
  copies-shut_down true m = omega arith
  copies-shut_down false m = copies-drain m.pool (record m { is_shutdown = true })

  -- Whatever happens, a connection is never at more places, in the pool and with threads, than it was
  -- at first and the driver gave it since; so if the driver gives each connection once, no two threads
  -- ever have the same one, and none that is in the pool.
  pub copies-run : (es : List Event) (m : Manager) → copies (run es m) ≤ copies m + given_in es
  unfolding run step shut_down
  copies-run [] m = omega arith
  copies-run (turn i a ∷ es) m =
      let m' = advance_at i a (slot_at i m.threads) m in
      omega (arith, copies-advance_at i a (slot_at i m.threads) m refl, copies-run es m')
  copies-run (shutdown ∷ es) m =
      omega (arith, copies-shut_down m.is_shutdown m, copies-run es (shut_down m))

  same_self : same conn ≡ 1
  same_self = ground arith

  one_owner :
      (i j : ℕ) (m : Manager)
      → copies m ≤ 1
      → i ≢ j
      → slot_at i m.threads ≡ some (holding conn)
      → (slot_at j m.threads ≢ some (holding conn)) × (sum same m.pool ≡ 0)
  one_owner i j m few different mine = (
    λ yours. absurd (
        omega (
          arith,
          same_self,
          few,
          sum-two has i j (holding conn) (holding conn) m.threads different mine yours,
        )),
    omega (arith, same_self, few, sum-at has i (holding conn) m.threads mine),
  )

  -- Let a connection be in the pool or with a thread, or given by the driver since, at most once in
  -- all. Then whatever happens, while a thread holds it no other thread does, and it is not in the
  -- pool.
  pub run-exclusive :
      (es : List Event) (m : Manager) (i j : ℕ)
      → copies m + given_in es ≤ 1
      → i ≢ j
      → slot_at i (run es m).threads ≡ some (holding conn)
      → (slot_at j (run es m).threads ≢ some (holding conn)) × (sum same (run es m).pool ≡ 0)
  run-exclusive es m i j once different mine =
      one_owner i j (run es m) (omega (arith, once, copies-run es m)) different mine
