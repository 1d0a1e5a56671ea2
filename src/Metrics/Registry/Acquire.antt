-- ===== src/Metrics/Registry/Acquire.antt =====
-- src/metrics/ServerMetricsProvider.cpp, ThreadLocalRegistry: which slot `acquireSlot` gives.
use stream_gate.Base.{
  ℕ, zero, suc, ◌+◌, ◌*◌, ◌≤◌, ◌<◌, ◌≡◌, refl, ap, ◌∙◌, true, not, Option, none, some, arith,
  Bool-cases, Option-cases, inl, inr,
}
use stream_gate.Metrics.Registry.{
  Word, first_set, ctz, ThreadLocalRegistry, taken, Among, undisturbed, acquire_from, acquire_turn,
  or_next, acquire_slot,
}
use stream_gate.Metrics.Registry.Words.{first_set-none}

-- The places of a mask whose bit is clear.
abbrev pub free : Word → Word
free w i = not (w i)

abbrev pub given : ThreadLocalRegistry → Option ℕ → Option ℕ × ThreadLocalRegistry
given r none = (none, r)
given r (some i) = (some i, taken 0 i r)

acquire_from-first_set :
    (n i : ℕ) (r : ThreadLocalRegistry)
    → acquire_from undisturbed n i 0 (r.active_mask 0) r
      ≡ given r (first_set n i (free (r.active_mask 0)))
unfolding acquire_from first_set
acquire_from-first_set zero i r = refl
acquire_from-first_set (suc n) i r = elim (Bool-cases (r.active_mask 0 i)) [
  | inl set ↦ rw set (acquire_from-first_set n (suc i) r)
  | inr clear ↦
      let same : 0 * 64 + i ≡ i = omega arith in
      rw clear (rw clear (ap (λ k. (some k, taken 0 i r)) same))
]

pub acquire_from-full :
    (o : Among) (n i m : ℕ) (mask : Word) (r : ThreadLocalRegistry)
    → ((j : ℕ) → i ≤ j → j < i + n → mask j ≡ true)
    → acquire_from o n i m mask r ≡ (none, r)
unfolding acquire_from
acquire_from-full o zero i m mask r full = refl
acquire_from-full o (suc n) i m mask r full =
    let set : mask i ≡ true = full i (omega arith) (omega arith) in
    let rest =
      acquire_from-full o n (suc i) m mask r (λ j le lt. full j (omega arith) (omega arith)) in
    rw set rest

-- A call of `acquireSlot` during which no other worker changes the masks gives the lowest slot of the
-- first 64 that is free, which is cleared and marked, and none if those are taken, whether or not
-- one of the other 64 is free.
pub acquire_slot-ctz :
    (r : ThreadLocalRegistry) → acquire_slot undisturbed r ≡ given r (ctz (free (r.active_mask 0)))
unfolding acquire_slot ctz
acquire_slot-ctz r =
    let low = acquire_from-first_set 64 0 r in
    let mask = r.active_mask 0 in
    let second = acquire_turn undisturbed 1 in
    elim (Option-cases (first_set 64 0 (free mask))) [
      | inl full ↦
          let set : (j : ℕ) → 0 ≤ j → j < 0 + 64 → mask j ≡ true =
            λ j le lt. ground (arith, first_set-none 64 0 (free mask) full j le lt) in
          let high = acquire_from-full undisturbed 64 0 1 mask r set in
          ap (λ o. or_next o second) low ∙ rw full high
      | inr (i, found) ↦ ap (λ o. or_next o second) low ∙ rw found refl
    ]
