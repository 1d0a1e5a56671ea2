-- ===== src/Base/Slots.antt =====
-- Lists whose elements are updated in place, such as the threads of a program.
use Prim.Native.Nat.{ℕ, zero, suc, ◌+◌, ◌≤◌}
use mathlib.Core.Path.{◌≡◌, refl, ap}
use mathlib.Core.Logic.{◌≢◌}
use mathlib.Core.List.{List, [], ◌∷◌}
use mathlib.Core.Option.{Option, none, some}
use native.Mathlib.Omega.{arith}
use stream_gate.Base.Lists.{length}

abbrev pub replicate {ℓ} : {A : Type ℓ} → ℕ → A → List A
replicate zero a = []
replicate (suc n) a = a ∷ replicate n a

-- `emplace` at the back of a queue.
abbrev pub snoc {ℓ} : {A : Type ℓ} → List A → A → List A
snoc [] a = a ∷ []
snoc (x ∷ xs) a = x ∷ snoc xs a

abbrev pub slot_at {ℓ} : {A : Type ℓ} → ℕ → List A → Option A
slot_at i [] = none
slot_at zero (w ∷ ws) = some w
slot_at (suc i) (w ∷ ws) = slot_at i ws

abbrev pub set_slot {ℓ} : {A : Type ℓ} → ℕ → A → List A → List A
set_slot i w [] = []
set_slot zero w (v ∷ ws) = w ∷ ws
set_slot (suc i) w (v ∷ ws) = v ∷ set_slot i w ws

-- The sum of a measure over the elements.
abbrev pub sum {ℓ} : {A : Type ℓ} → (A → ℕ) → List A → ℕ
sum f [] = 0
sum f (w ∷ ws) = f w + sum f ws

module _ {A : Type 0} where
  pub sum-set_slot :
      (f : A → ℕ) (i : ℕ) (w v : A) (ws : List A)
      → slot_at i ws ≡ some w
      → sum f (set_slot i v ws) + f w ≡ sum f ws + f v
  sum-set_slot f i w v [] h = cc
  sum-set_slot f zero w v (u ∷ ws) h = let same : u ≡ w = cc in rw same (omega arith)
  sum-set_slot f (suc i) w v (u ∷ ws) h = omega (arith, sum-set_slot f i w v ws h)

  pub sum-at : (f : A → ℕ) (i : ℕ) (w : A) (ws : List A) → slot_at i ws ≡ some w → f w ≤ sum f ws
  sum-at f i w [] h = cc
  sum-at f zero w (u ∷ ws) h = let same : u ≡ w = cc in rw same (omega arith)
  sum-at f (suc i) w (u ∷ ws) h = omega (arith, sum-at f i w ws h)

  pub sum-replicate : (f : A → ℕ) (n : ℕ) (w : A) → f w ≡ 0 → sum f (replicate n w) ≡ 0
  sum-replicate f zero w h = refl
  sum-replicate f (suc n) w h = omega (arith, h, sum-replicate f n w h)

  pub sum-snoc : (f : A → ℕ) (xs : List A) (a : A) → sum f (snoc xs a) ≡ sum f xs + f a
  sum-snoc f [] a = omega arith
  sum-snoc f (x ∷ xs) a = omega (arith, sum-snoc f xs a)

  pub length-set_slot : (i : ℕ) (v : A) (ws : List A) → length (set_slot i v ws) ≡ length ws
  length-set_slot i v [] = refl
  length-set_slot zero v (u ∷ ws) = refl
  length-set_slot (suc i) v (u ∷ ws) = omega (arith, length-set_slot i v ws)

  pub length-snoc : (xs : List A) (a : A) → length (snoc xs a) ≡ suc (length xs)
  length-snoc [] a = refl
  length-snoc (x ∷ xs) a = omega (arith, length-snoc xs a)

  pub slot_at-set_slot :
      (i : ℕ) (w v : A) (ws : List A) → slot_at i ws ≡ some w → slot_at i (set_slot i v ws) ≡ some v
  slot_at-set_slot i w v [] h = cc
  slot_at-set_slot zero w v (u ∷ ws) h = refl
  slot_at-set_slot (suc i) w v (u ∷ ws) h = slot_at-set_slot i w v ws h

  -- Two different places count separately.
  pub sum-two :
      (f : A → ℕ) (i j : ℕ) (u v : A) (ws : List A)
      → i ≢ j
      → slot_at i ws ≡ some u
      → slot_at j ws ≡ some v
      → f u + f v ≤ sum f ws
  sum-two f i j u v [] d hi hj = cc
  sum-two f zero zero u v (w ∷ ws) d hi hj = absurd (d refl)
  sum-two f zero (suc j) u v (w ∷ ws) d hi hj =
      let same : w ≡ u = cc in rw same (omega (arith, sum-at f j v ws hj))
  sum-two f (suc i) zero u v (w ∷ ws) d hi hj =
      let same : w ≡ v = cc in rw same (omega (arith, sum-at f i u ws hi))
  sum-two f (suc i) (suc j) u v (w ∷ ws) d hi hj =
      omega (arith, sum-two f i j u v ws (λ e. d (ap suc e)) hi hj)
