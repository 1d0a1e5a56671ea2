-- ===== src/Metrics/Registry/Release.antt =====
-- src/metrics/ServerMetricsProvider.cpp, ThreadLocalRegistry: `releaseSlot` loses no count.
use mathlib.Core.Path.{subst}
use native.Mathlib.Decide.{ℕ_discrete}
use stream_gate.Base.{
  ℕ, zero, suc, ◌+◌, ◌*◌, ◌/◌, ◌%◌, ◌<◌, ◌≡◌, ◌≢◌, refl, sym, ap, ◌∙◌, true, false, arith,
}
use stream_gate.Metrics.Slot.{Counts, WorkerStatsSlot, counts_of, update}
use stream_gate.Metrics.Registry.{
  add, put_at, Word, aggregate, ThreadLocalRegistry, released, release_slot, max_workers,
}
use stream_gate.Metrics.Registry.Words.{
  active_sum, active_sum-clear, add_assoc, add_comm, add_right_comm, put_at_other, put_at_self,
}
use stream_gate.Metrics.Registry.Conserved.{IsWide, add-IsWide, aggregate-active_sum}

-- A slot whose bit is not set does not count.
active_sum-put_at :
    (n m id : ℕ) (v : WorkerStatsSlot) (w : Word) (slots : ℕ → WorkerStatsSlot)
    → ((i : ℕ) → i < n → m * 64 + i ≡ id → w i ≡ false)
    → active_sum n m w (put_at id v slots) ≡ active_sum n m w slots
unfolding active_sum
active_sum-put_at zero m id v w slots off = refl
active_sum-put_at (suc n) m id v w slots off =
    let rest = active_sum-put_at n m id v w slots (λ i lt e. off i (omega arith) e) in
    elim (ℕ_discrete (m * 64 + n) id) [
      | yes same ↦ let clear : w n ≡ false = off n (omega arith) same in rw (clear, rest) refl
      | no other ↦
          let kept : put_at id v slots (m * 64 + n) ≡ slots (m * 64 + n) =
            put_at_other id (m * 64 + n) v slots other in
          rw (kept, rest) refl
    ]

module _ (r : ThreadLocalRegistry) (id : ℕ) (v : WorkerStatsSlot) where
  -- The slots of another mask keep their sum.
  other_sum :
      (m : ℕ)
      → m ≢ id / 64
      → active_sum 64 m (r.active_mask m) (put_at id v r.slots)
        ≡ active_sum 64 m (r.active_mask m) r.slots
  other_sum m d =
      active_sum-put_at 64 m id v (r.active_mask m) r.slots (λ i lt e. absurd (d (omega arith)))

  -- The slots of its own mask lose what the slot held.
  own_sum :
      (m : ℕ)
      → m ≡ id / 64
      → r.active_mask m (id % 64) ≡ true
      → active_sum 64 m (r.active_mask m) r.slots
        ≡ add
            (active_sum 64 m (put_at (id % 64) false (r.active_mask m)) (put_at id v r.slots))
            (counts_of (r.slots id))
  own_sum m e set =
      let mask = put_at (id % 64) false (r.active_mask m) in
      let same : m * 64 + id % 64 ≡ id = omega arith in
      let rest = active_sum-put_at 64 m id v mask r.slots (λ i lt at. ground arith) in
      active_sum-clear 64 m (id % 64) (r.active_mask m) r.slots (omega arith) set
      ∙ ap (λ k. add (active_sum 64 m mask r.slots) (counts_of (r.slots k))) same
      ∙ ap (λ s. add s (counts_of (r.slots id))) (sym rest)

  mask_own :
      (m : ℕ)
      → m ≡ id / 64
      → (released id r).active_mask m ≡ put_at (id % 64) false (r.active_mask m)
  unfolding released
  mask_own m e = rw e (put_at_self (id / 64) _ r.active_mask)

  mask_other : (m : ℕ) → m ≢ id / 64 → (released id r).active_mask m ≡ r.active_mask m
  unfolding released
  mask_other m d = put_at_other (id / 64) m _ r.active_mask d

-- Where the counts of the released worker are found again.
regroup_low : (h a b c : Counts) → add (add (add h c) a) b ≡ add (add h (add a c)) b
regroup_low h a b c = ap (λ s. add s b) (add_assoc h c a ∙ ap (add h) (add_comm c a))

regroup_high : (h a b c : Counts) → add (add (add h c) a) b ≡ add (add h a) (add b c)
regroup_high h a b c =
    ap (λ s. add s b) (add_right_comm h c a)
    ∙ add_assoc (add h a) c b
    ∙ ap (add (add h a)) (add_comm c b)

module _ (r : ThreadLocalRegistry) (id : ℕ) where
  -- What `aggregate` gives after the release.
  aggregate-released :
      aggregate (released id r)
      ≡ add
          (add
            (add (counts_of r.historical_stats) (counts_of (r.slots id)))
            (active_sum 64 0 ((released id r).active_mask 0) (released id r).slots))
          (active_sum 64 1 ((released id r).active_mask 1) (released id r).slots)
  aggregate-released =
      let h = counts_of r.historical_stats in
      let c = counts_of (r.slots id) in
      let history : counts_of (released id r).historical_stats ≡ add h c =
        unfold released update in refl in
      rw (sym history)
        (aggregate-active_sum (released id r) (subst IsWide (sym history) (add-IsWide h c)))

  released-sum_own :
      (m : ℕ)
      → m ≡ id / 64
      → r.active_mask m (id % 64) ≡ true
      → active_sum 64 m (r.active_mask m) r.slots
        ≡ add
            (active_sum 64 m ((released id r).active_mask m) (released id r).slots)
            (counts_of (r.slots id))
  released-sum_own m e set =
      rw (mask_own r id (r.slots id) m e) (unfold released in own_sum r id _ m e set)

  released-sum_other :
      (m : ℕ)
      → m ≢ id / 64
      → active_sum 64 m ((released id r).active_mask m) (released id r).slots
        ≡ active_sum 64 m (r.active_mask m) r.slots
  released-sum_other m d =
      rw (mask_other r id (r.slots id) m d) (unfold released in other_sum r id _ m d)

-- A worker that is released leaves the sum of all counts as it was: what its slot held is added to
-- the history, in 64 bits.
pub aggregate-release_slot :
    (r : ThreadLocalRegistry) (id : ℕ)
    → id < max_workers
    → r.active_mask (id / 64) (id % 64) ≡ true
    → IsWide (counts_of r.historical_stats)
    → aggregate (release_slot id r) ≡ aggregate r
aggregate-release_slot r id lt set wide =
    let h = counts_of r.historical_stats in
    let c = counts_of (r.slots id) in
    let q = released id r in
    let low = active_sum 64 0 (q.active_mask 0) q.slots in
    let high = active_sum 64 1 (q.active_mask 1) q.slots in
    let taken : release_slot id r ≡ q = unfold release_slot in ground arith in
    ap aggregate taken
    ∙ aggregate-released r id
    ∙ elim (ℕ_discrete (id / 64) 0) [
      | yes e ↦
          regroup_low h low high c
          ∙ ap (λ s. add (add h s) high) (sym (released-sum_own r id 0 (sym e) (rw (sym e) set)))
          ∙ ap (add (add h (active_sum 64 0 (r.active_mask 0) r.slots)))
              (released-sum_other r id 1 (λ d. omega arith))
      | no d ↦
          let e : 1 ≡ id / 64 = omega arith in
          regroup_high h low high c
          ∙ ap (λ s. add (add h s) (add high c)) (released-sum_other r id 0 (λ e. d (sym e)))
          ∙ ap (add (add h (active_sum 64 0 (r.active_mask 0) r.slots)))
              (sym (released-sum_own r id 1 e (rw e set)))
    ]
    ∙ sym (aggregate-active_sum r wide)
