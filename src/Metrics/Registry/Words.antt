-- ===== src/Metrics/Registry/Words.antt =====
-- src/metrics/ServerMetricsProvider.cpp, ThreadLocalRegistry: the bits of a mask, and the sum of the
-- slots whose bit is set.
use native.Mathlib.Decide.{ℕ_discrete}
use stream_gate.Base.{
  ℕ, zero, suc, ◌+◌, ◌*◌, ◌≤◌, ◌<◌, ◌≡◌, refl, sym, ap, ◌∙◌, Bool, true, false, none, some, arith,
  if◌then◌else◌, Bool-cases, inl, inr,
}
use stream_gate.Metrics.Slot.{Counts, WorkerStatsSlot, counts_of}
use stream_gate.Metrics.Registry.{add, zero_counts, put_at, Word, first_set}

-- The search finds a set bit, or there is none.
pub first_set-some : (n i k : ℕ) (w : Word) → first_set n i w ≡ some k → (w k ≡ true) × (k < i + n)
unfolding first_set
first_set-some zero i k w h = cc
first_set-some (suc n) i k w h = elim (Bool-cases (w i)) [
  | inl set ↦ let same : i ≡ k = ground arith in (ap w (sym same) ∙ set, omega arith)
  | inr clear ↦ let (set, lt) = first_set-some n (suc i) k w (ground arith) in (set, omega arith)
]

pub first_set-none :
    (n i : ℕ) (w : Word) → first_set n i w ≡ none → (j : ℕ) → i ≤ j → j < i + n → w j ≡ false
unfolding first_set
first_set-none zero i w h j le lt = absurd (omega arith)
first_set-none (suc n) i w h j le lt = elim (Bool-cases (w i)) [
  | inl set ↦ cc
  | inr clear ↦ elim (ℕ_discrete i j) [
    | yes same ↦ ap w (sym same) ∙ clear
    | no other ↦ first_set-none n (suc i) w (ground arith) j (omega arith) (omega arith)
  ]
]

-- The numbers of the slots below the place n whose bit is set, added up.
unfoldable pub active_sum : ℕ → ℕ → Word → (ℕ → WorkerStatsSlot) → Counts
active_sum zero m w slots = zero_counts
active_sum (suc n) m w slots =
    if w n
    then add (active_sum n m w slots) (counts_of (slots (m * 64 + n)))
    else active_sum n m w slots

unfoldable pub population : ℕ → Word → ℕ
population zero w = 0
population (suc n) w = population n w + (if w n then 1 else 0)

pub population-le : (n : ℕ) (w : Word) → population n w ≤ n
unfolding population
population-le zero w = omega arith
population-le (suc n) w = ground (arith, population-le n w)

pub add_assoc : (a b c : Counts) → add (add a b) c ≡ add a (add b c)
unfolding add
add_assoc a b c = ground arith

pub add_comm : (a b : Counts) → add a b ≡ add b a
unfolding add
add_comm a b = ground arith

pub put_at_other {ℓ} :
    {A : Type ℓ} (i j : ℕ) (a : A) (f : ℕ → A) → (j ≡ i → ⊥) → put_at i a f j ≡ f j
put_at_other i j a f d = ground (arith, d)

pub put_at_self {ℓ} : {A : Type ℓ} (i : ℕ) (a : A) (f : ℕ → A) → put_at i a f i ≡ a
put_at_self i a f = ground arith

-- A bit above the place n does not count.
active_sum-above :
    (n m i : ℕ) (b : Bool) (w : Word) (slots : ℕ → WorkerStatsSlot)
    → n ≤ i
    → active_sum n m (put_at i b w) slots ≡ active_sum n m w slots
unfolding active_sum
active_sum-above zero m i b w slots le = refl
active_sum-above (suc n) m i b w slots le =
    let same : put_at i b w n ≡ w n = put_at_other i n b w (λ e. omega arith) in
    rw (same, active_sum-above n m i b w slots (omega arith)) refl

population-above :
    (n i : ℕ) (b : Bool) (w : Word) → n ≤ i → population n (put_at i b w) ≡ population n w
unfolding population
population-above zero i b w le = refl
population-above (suc n) i b w le =
    let same : put_at i b w n ≡ w n = put_at_other i n b w (λ e. omega arith) in
    rw (same, population-above n i b w (omega arith)) refl

pub add_right_comm : (a b c : Counts) → add (add a b) c ≡ add (add a c) b
add_right_comm a b c = add_assoc a b c ∙ ap (add a) (add_comm b c) ∙ sym (add_assoc a c b)

-- One set bit is cleared.
pub active_sum-clear :
    (n m i : ℕ) (w : Word) (slots : ℕ → WorkerStatsSlot)
    → i < n
    → w i ≡ true
    → active_sum n m w slots
      ≡ add (active_sum n m (put_at i false w) slots) (counts_of (slots (m * 64 + i)))
unfolding active_sum
active_sum-clear zero m i w slots lt set = absurd (omega arith)
active_sum-clear (suc n) m i w slots lt set = elim (ℕ_discrete n i) [
  | yes same ↦
      let here : put_at i false w n ≡ false = ground arith in
      let there : w n ≡ true = ap w same ∙ set in
      rw (here, there, same, active_sum-above i m i false w slots (omega arith)) refl
  | no other ↦
      let here : put_at i false w n ≡ w n = put_at_other i n false w other in
      let rest = active_sum-clear n m i w slots (omega arith) set in
      let c = counts_of (slots (m * 64 + n)) in
      let d = counts_of (slots (m * 64 + i)) in
      let less = active_sum n m (put_at i false w) slots in ground (arith, add_right_comm less d c)
]

pub population-clear :
    (n i : ℕ) (w : Word)
    → i < n
    → w i ≡ true
    → population n w ≡ suc (population n (put_at i false w))
unfolding population
population-clear zero i w lt set = absurd (omega arith)
population-clear (suc n) i w lt set = elim (ℕ_discrete n i) [
  | yes same ↦
      let here : put_at i false w n ≡ false = ground arith in
      let there : w n ≡ true = ap w same ∙ set in
      let below : population n (put_at i false w) ≡ population n w =
        population-above n i false w (omega arith) in
      rw (here, there, below) (omega arith)
  | no other ↦
      let here : put_at i false w n ≡ w n = put_at_other i n false w other in
      rw (here, population-clear n i w (omega arith) set) (omega arith)
]
