-- ===== src/Metrics/Registry.antt =====
-- src/metrics/ServerMetricsProvider.cpp, ThreadLocalRegistry: the slots of the workers and the bits
-- that say which are taken. `release_slot` and `aggregate` run alone; a slot is then at rest, so that
-- `read` gives its numbers at once. In `acquire_slot` other workers run between the accesses of the
-- masks.
pub mod Words
pub mod Acquire
pub mod Conserved
pub mod Release
use stream_gate.Base.{
  ℕ, zero, suc, ◌+◌, ◌*◌, ◌/◌, ◌%◌, ◌^◌, Bool, true, false, not, Option, none, some, eqb, leb,
  if◌then◌else◌,
}
use stream_gate.Metrics.Slot.{Counts, WorkerStatsSlot, fresh_slot, counts_of, update}

abbrev pub max_workers : ℕ
max_workers = 128

abbrev pub zero_counts : Counts
zero_counts = record { total = 0; success = 0; failed = 0 }

-- Addition in 64 bits, of each number.
unfoldable pub add : Counts → Counts → Counts
add a b = record {
  total = (a.total + b.total) % 2 ^ 64;
  success = (a.success + b.success) % 2 ^ 64;
  failed = (a.failed + b.failed) % 2 ^ 64;
}

-- An array is a function of the index.
abbrev pub put_at {ℓ} : {A : Type ℓ} → ℕ → A → (ℕ → A) → ℕ → A
put_at i a f j = if eqb j i then a else f j

-- A mask of 64 bits, by the place of the bit.
abbrev pub Word : Type 0
Word = ℕ → Bool

pub record ThreadLocalRegistry : Type 0 where
  pub slots : ℕ → WorkerStatsSlot
  pub active_mask : ℕ → Word
  pub historical_stats : WorkerStatsSlot

unfoldable pub new_registry : ThreadLocalRegistry
new_registry = record {
  slots = λ id. fresh_slot;
  active_mask = λ m i. false;
  historical_stats = fresh_slot;
}

-- The lowest set bit among the places i, i + 1, ..., i + n - 1.
unfoldable pub first_set : ℕ → ℕ → Word → Option ℕ
first_set zero i w = none
first_set (suc n) i w = let rest = first_set n (suc i) w in if w i then some i else rest

-- `__builtin_ctzll`; `none` for the mask 0, where the source does not call it.
unfoldable pub ctz : Word → Option ℕ
unfolding first_set
ctz w = first_set 64 0 w

abbrev pub set_bit : ℕ → ℕ → Bool → ThreadLocalRegistry → ThreadLocalRegistry
set_bit m i b r = record r { active_mask = put_at m (put_at i b (r.active_mask m)) r.active_mask }

-- The slot is taken and cleared.
abbrev pub taken : ℕ → ℕ → ThreadLocalRegistry → ThreadLocalRegistry
taken m i r = record (set_bit m i true r) {
  slots = put_at (m * 64 + i) (update zero_counts (r.slots (m * 64 + i))) r.slots;
}

-- What other workers do to the registry during a call: before the load of a mask in each of the two
-- turns, before the `fetch_or` of a bit, and before the mask is read again.
pub record Among : Type 0 where
  pub at_load : ℕ → ThreadLocalRegistry → ThreadLocalRegistry
  pub at_fetch : ℕ → ℕ → ThreadLocalRegistry → ThreadLocalRegistry
  pub at_reload : ℕ → ℕ → ThreadLocalRegistry → ThreadLocalRegistry

abbrev pub undisturbed : Among
undisturbed = record { at_load = λ m r. r; at_fetch = λ m i r. r; at_reload = λ m i r. r }

-- The n places from i on in the mask m, by the copy `mask` of a mask; the copy is read again where
-- the bit turns out to be set.
unfoldable pub acquire_from :
    Among → ℕ → ℕ → ℕ → Word → ThreadLocalRegistry → Option ℕ × ThreadLocalRegistry
unfolding update
acquire_from o zero i m mask r = (none, r)
acquire_from o (suc n) i m mask r =
    let tried = if mask i then r else o.at_fetch m i r in
    let read_again = if mask i then r else o.at_reload m i tried in
    let next =
      acquire_from o n (suc i) m (if mask i then mask else read_again.active_mask m) read_again in
    if mask i
    then next
    else if tried.active_mask m i
    then next
    else (some (m * 64 + i), taken m i tried)

abbrev pub or_next :
    Option ℕ × ThreadLocalRegistry
    → (ThreadLocalRegistry → Option ℕ × ThreadLocalRegistry)
    → Option ℕ × ThreadLocalRegistry
or_next (none, r) next = next r
or_next (some id, r) next = (some id, r)

-- Both turns start from a copy of the first mask, as the source does.
abbrev pub acquire_turn : Among → ℕ → ThreadLocalRegistry → Option ℕ × ThreadLocalRegistry
acquire_turn o m r = let r' = o.at_load m r in acquire_from o 64 0 m (r'.active_mask 0) r'

unfoldable pub acquire_slot : Among → ThreadLocalRegistry → Option ℕ × ThreadLocalRegistry
unfolding acquire_from
acquire_slot o r = or_next (acquire_turn o 0 r) (acquire_turn o 1)

-- The slot is cleared, its numbers go to the history, and then the bit is cleared.
unfoldable pub released : ℕ → ThreadLocalRegistry → ThreadLocalRegistry
unfolding update add
released id r =
    let c = counts_of (r.slots id) in
    set_bit (id / 64) (id % 64) false (record r {
      slots = put_at id (update zero_counts (r.slots id)) r.slots;
      historical_stats = update (add (counts_of r.historical_stats) c) r.historical_stats;
    })

unfoldable pub release_slot : ℕ → ThreadLocalRegistry → ThreadLocalRegistry
unfolding released
release_slot id r = if leb max_workers id then r else released id r

-- The loop over the set bits of a mask; 64 turns are enough.
unfoldable pub aggregate_from : ℕ → ℕ → Word → (ℕ → WorkerStatsSlot) → Counts → Counts
unfolding ctz add
aggregate_from zero m mask slots acc = acc
aggregate_from (suc n) m mask slots acc = elim (ctz mask) [
  | none ↦ acc
  | some i ↦
      aggregate_from n m (put_at i false mask) slots (add acc (counts_of (slots (m * 64 + i))))
]

unfoldable pub aggregate : ThreadLocalRegistry → Counts
unfolding aggregate_from
aggregate r =
    aggregate_from 64 1 (r.active_mask 1) r.slots
      (aggregate_from 64 0 (r.active_mask 0) r.slots (counts_of r.historical_stats))
