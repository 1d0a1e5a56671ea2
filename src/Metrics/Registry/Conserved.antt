-- ===== src/Metrics/Registry/Conserved.antt =====
-- src/metrics/ServerMetricsProvider.cpp, ThreadLocalRegistry: the loop of `aggregate` is the sum of
-- the slots that are taken, and what `releaseSlot` does to it.
use mathlib.Core.Path.{subst}
use native.Mathlib.Decide.{ℕ_discrete}
use stream_gate.Base.{
  ℕ, zero, suc, ◌+◌, ◌*◌, ◌^◌, ◌≤◌, ◌<◌, ◌≡◌, refl, sym, ap, ◌∙◌, true, false, none, some, arith,
  Option-cases, inl, inr,
}
use stream_gate.Metrics.Slot.{Counts, WorkerStatsSlot, counts_of}
use stream_gate.Metrics.Registry.{
  add, zero_counts, put_at, Word, ctz, aggregate_from, aggregate, ThreadLocalRegistry,
}
use stream_gate.Metrics.Registry.Words.{
  first_set-some, first_set-none, active_sum, active_sum-clear, population, population-le,
  population-clear, add_assoc, add_comm,
}

-- The numbers are of 64 bits.
abbrev pub IsWide : Counts → Type 0
IsWide c = (c.total < 2 ^ 64) × (c.success < 2 ^ 64) × (c.failed < 2 ^ 64)

pub add-IsWide : (a b : Counts) → IsWide (add a b)
unfolding add
add-IsWide a b = (omega arith, omega arith, omega arith)

add-zero_counts : (a : Counts) → IsWide a → add a zero_counts ≡ a
unfolding add
add-zero_counts a h = ground arith

active_sum-none :
    (n m : ℕ) (w : Word) (slots : ℕ → WorkerStatsSlot)
    → ((j : ℕ) → j < n → w j ≡ false)
    → active_sum n m w slots ≡ zero_counts
unfolding active_sum
active_sum-none zero m w slots clear = refl
active_sum-none (suc n) m w slots clear =
    rw (clear n (omega arith)) (active_sum-none n m w slots (λ j lt. clear j (omega arith)))

ctz-none : (w : Word) → ctz w ≡ none → (j : ℕ) → j < 64 → w j ≡ false
unfolding ctz
ctz-none w h j lt = first_set-none 64 0 w h j (omega arith) (omega arith)

ctz-some : (w : Word) (i : ℕ) → ctz w ≡ some i → (w i ≡ true) × (i < 64)
unfolding ctz
ctz-some w i h = first_set-some 64 0 i w h

population-zero : (n : ℕ) (w : Word) → population n w ≡ 0 → (j : ℕ) → j < n → w j ≡ false
unfolding population
population-zero zero w h j lt = absurd (omega arith)
population-zero (suc n) w h j lt = elim (ℕ_discrete n j) [
  | yes same ↦ ap w (sym same) ∙ ground arith
  | no other ↦ population-zero n w (omega arith) j (omega arith)
]

module _ (n m : ℕ) (w : Word) (slots : ℕ → WorkerStatsSlot) (acc : Counts) where
  aggregate_from-empty : ctz w ≡ none → aggregate_from (suc n) m w slots acc ≡ acc
  unfolding aggregate_from
  aggregate_from-empty h = ground arith

  aggregate_from-found :
      (i : ℕ)
      → ctz w ≡ some i
      → aggregate_from (suc n) m w slots acc
        ≡ aggregate_from n m (put_at i false w) slots (add acc (counts_of (slots (m * 64 + i))))
  unfolding aggregate_from
  aggregate_from-found i h = ground arith

-- Enough turns of the loop add up the slots whose bit is set.
aggregate_from-active_sum :
    (n m : ℕ) (w : Word) (slots : ℕ → WorkerStatsSlot) (acc : Counts)
    → IsWide acc
    → population 64 w ≤ n
    → aggregate_from n m w slots acc ≡ add acc (active_sum 64 m w slots)
aggregate_from-active_sum zero m w slots acc wide le =
    let empty = active_sum-none 64 m w slots (population-zero 64 w (omega arith)) in
    unfold aggregate_from in (sym (add-zero_counts acc wide) ∙ ap (add acc) (sym empty))
aggregate_from-active_sum (suc n) m w slots acc wide le = elim (Option-cases (ctz w)) [
  | inl empty ↦
      aggregate_from-empty n m w slots acc empty
      ∙ sym (add-zero_counts acc wide)
      ∙ ap (add acc) (sym (active_sum-none 64 m w slots (ctz-none w empty)))
  | inr (i, found) ↦
      let (set, lt) = ctz-some w i found in
      let c = counts_of (slots (m * 64 + i)) in
      let less = active_sum 64 m (put_at i false w) slots in
      let rest =
        aggregate_from-active_sum n m (put_at i false w) slots (add acc c) (add-IsWide acc c)
          (omega (arith, population-clear 64 i w lt set)) in
      aggregate_from-found n m w slots acc i found
      ∙ rest
      ∙ add_assoc acc c less
      ∙ ap (add acc) (add_comm c less ∙ sym (active_sum-clear 64 m i w slots lt set))
]

-- `aggregate` is the sum of the history and of the slots that are taken, in 64 bits.
pub aggregate-active_sum :
    (r : ThreadLocalRegistry)
    → IsWide (counts_of r.historical_stats)
    → aggregate r
      ≡ add
          (add (counts_of r.historical_stats) (active_sum 64 0 (r.active_mask 0) r.slots))
          (active_sum 64 1 (r.active_mask 1) r.slots)
unfolding aggregate
aggregate-active_sum r wide =
    let h = counts_of r.historical_stats in
    let first = active_sum 64 0 (r.active_mask 0) r.slots in
    let low =
      aggregate_from-active_sum 64 0 (r.active_mask 0) r.slots h wide (population-le 64 _) in
    ap (aggregate_from 64 1 (r.active_mask 1) r.slots) low
    ∙ aggregate_from-active_sum 64 1 (r.active_mask 1) r.slots (add h first) (add-IsWide h first)
        (population-le 64 _)

pub aggregate-IsWide :
    (r : ThreadLocalRegistry) → IsWide (counts_of r.historical_stats) → IsWide (aggregate r)
aggregate-IsWide r wide = subst IsWide (sym (aggregate-active_sum r wide)) (add-IsWide _ _)
