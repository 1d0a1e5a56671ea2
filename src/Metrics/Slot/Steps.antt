-- ===== src/Metrics/Slot/Steps.antt =====
-- src/metrics/ServerMetricsProvider.cpp, WorkerStatsSlot: what its two threads keep, access by access.
use mathlib.Core.Path.{subst}
use stream_gate.Base.{ℕ, suc, ◌+◌, ◌%◌, ◌^◌, ◌≤◌, ◌<◌, ◌≡◌, refl, List, [], ◌∷◌, length, arith}
use stream_gate.Metrics.Slot.{
  Counts, WorkerStatsSlot, fetch_add, Writer, resting, entered, set_total, set_success, set_failed,
  Reader, outside, read_seq, read_total, read_success, read_failed, returned, Machine, Event, begin,
  write, look, enter, update_step, read_step, step, run,
}

-- The number is even exactly between two updates.
abbrev pub HasParity : Writer → ℕ → Type 0
HasParity resting n = (n < 2 ^ 64) × (n % 2 ≡ 0)
HasParity _ n = (n < 2 ^ 64) × (n % 2 ≡ 1)

-- The number has grown at most n times since it was s, and if it has not and s is even, P.
abbrev pub Since : ℕ → ℕ → ℕ → Type 0 → Type 0
Since n now s P =
    (s < 2 ^ 64) × (k : ℕ) × (k ≤ n) × (now ≡ (s + k) % 2 ^ 64) × (k ≡ 0 → s % 2 ≡ 0 → P)

-- What the reader has so far is what the slot still holds.
abbrev pub Agrees : ℕ → WorkerStatsSlot → Reader → Type 0
Agrees n w outside = Unit
Agrees n w (returned c) = Unit
Agrees n w (read_seq s) = Since n w.seq s Unit
Agrees n w (read_total s t) = Since n w.seq s (t ≡ w.total_requests)
Agrees n w (read_success s t u) =
    Since n w.seq s ((t ≡ w.total_requests) × (u ≡ w.success_requests))
Agrees n w (read_failed s c) = Since n w.seq s (
    (c.total ≡ w.total_requests)
    × (c.success ≡ w.success_requests)
    × (c.failed ≡ w.failed_requests))

-- The number grows: nothing is promised any more.
Since-grown : (n now s : ℕ) (P Q : Type 0) → Since n now s P → Since (suc n) (fetch_add now) s Q
Since-grown n now s P Q (small, k, few, now_is, _) =
    (small, suc k, omega arith, omega arith, λ none_grown. absurd (omega arith))

-- An odd number promises nothing either.
Since-odd :
    (n now next s : ℕ) (P Q : Type 0)
    → next ≡ now
    → now % 2 ≡ 1
    → Since n now s P
    → Since (suc n) next s Q
Since-odd n now next s P Q same odd (small, k, few, now_is, _) =
    (small, k, omega arith, omega arith, λ none_grown even. absurd (omega arith))

Since-later : (n now s : ℕ) (P Q : Type 0) → (P → Q) → Since n now s P → Since (suc n) now s Q
Since-later n now s P Q f (small, k, few, now_is, kept) =
    (small, k, omega arith, now_is, λ none_grown even. f (kept none_grown even))

-- A step by the writer that makes the number grow.
Agrees-grown :
    (n : ℕ) (w : WorkerStatsSlot) (r : Reader)
    → Agrees n w r
    → Agrees (suc n) (record w { seq = fetch_add w.seq }) r
Agrees-grown n w outside h = tt
Agrees-grown n w (returned c) h = tt
Agrees-grown n w (read_seq s) h = Since-grown n w.seq s _ _ h
Agrees-grown n w (read_total s t) h = Since-grown n w.seq s _ _ h
Agrees-grown n w (read_success s t u) h = Since-grown n w.seq s _ _ h
Agrees-grown n w (read_failed s c) h = Since-grown n w.seq s _ _ h

-- A step by the writer inside `update`, which changes one of the numbers.
Agrees-odd :
    (n : ℕ) (w v : WorkerStatsSlot) (r : Reader)
    → v.seq ≡ w.seq
    → w.seq % 2 ≡ 1
    → Agrees n w r
    → Agrees (suc n) v r
Agrees-odd n w v outside e odd h = tt
Agrees-odd n w v (returned c) e odd h = tt
Agrees-odd n w v (read_seq s) e odd h = Since-odd n w.seq v.seq s _ _ e odd h
Agrees-odd n w v (read_total s t) e odd h = Since-odd n w.seq v.seq s _ _ e odd h
Agrees-odd n w v (read_success s t u) e odd h = Since-odd n w.seq v.seq s _ _ e odd h
Agrees-odd n w v (read_failed s c) e odd h = Since-odd n w.seq v.seq s _ _ e odd h

-- A step by the reader.
Agrees-read_step :
    (n : ℕ) (w : WorkerStatsSlot) (r : Reader)
    → w.seq < 2 ^ 64
    → Agrees n w r
    → Agrees (suc n) w (read_step r w)
unfolding read_step
Agrees-read_step n w outside small h = (small, 0, omega arith, omega arith, λ none_grown even. tt)
Agrees-read_step n w (returned c) small h =
    (small, 0, omega arith, omega arith, λ none_grown even. tt)
Agrees-read_step n w (read_seq s) small h = Since-later n w.seq s Unit _ (λ _. refl) h
Agrees-read_step n w (read_total s t) small h = Since-later n w.seq s _ _ (λ e. (e, refl)) h
Agrees-read_step n w (read_success s t u) small h =
    Since-later n w.seq s _ _ (λ e. (e.0, e.1, refl)) h
Agrees-read_step n w (read_failed s c) small h = ground arith

-- The slot and its threads, n steps after some start.
abbrev pub IsSound : ℕ → Machine → Type 0
IsSound n m = HasParity m.writer m.slot.seq × Agrees n m.slot m.reader

pub HasParity-lt : (r : Writer) (n : ℕ) → HasParity r n → n < 2 ^ 64
HasParity-lt resting n h = h.0
HasParity-lt (entered c) n h = h.0
HasParity-lt (set_total c) n h = h.0
HasParity-lt (set_success c) n h = h.0
HasParity-lt (set_failed c) n h = h.0

-- A slot with its writer, and the reader.
abbrev Pair : ℕ → Reader → WorkerStatsSlot × Writer → Type 0
Pair n q (w, r) = HasParity r w.seq × Agrees n w q

module _ (n : ℕ) (q : Reader) (w : WorkerStatsSlot) (agree : Agrees n w q) where
  enter-Pair : (r : Writer) (c : Counts) → HasParity r w.seq → Pair (suc n) q (enter r c w)
  unfolding enter
  enter-Pair resting c h = ((omega arith, omega arith), Agrees-grown n w q agree)
  enter-Pair (entered d) c h = (h, Agrees-odd n w w q refl h.1 agree)
  enter-Pair (set_total d) c h = (h, Agrees-odd n w w q refl h.1 agree)
  enter-Pair (set_success d) c h = (h, Agrees-odd n w w q refl h.1 agree)
  enter-Pair (set_failed d) c h = (h, Agrees-odd n w w q refl h.1 agree)

  update_step-Pair :
      (r : Writer) → Agrees (suc n) w q → HasParity r w.seq → Pair (suc n) q (update_step r w)
  unfolding update_step
  update_step-Pair resting idle h = (h, idle)
  update_step-Pair (entered d) idle h = (h, Agrees-odd n w _ q refl h.1 agree)
  update_step-Pair (set_total d) idle h = (h, Agrees-odd n w _ q refl h.1 agree)
  update_step-Pair (set_success d) idle h = (h, Agrees-odd n w _ q refl h.1 agree)
  update_step-Pair (set_failed d) idle h = ((omega arith, omega arith), Agrees-grown n w q agree)

Agrees-suc : (n : ℕ) (w : WorkerStatsSlot) (q : Reader) → Agrees n w q → Agrees (suc n) w q
Agrees-suc n w outside h = tt
Agrees-suc n w (returned c) h = tt
Agrees-suc n w (read_seq s) h = Since-later n w.seq s _ _ (λ e. e) h
Agrees-suc n w (read_total s t) h = Since-later n w.seq s _ _ (λ e. e) h
Agrees-suc n w (read_success s t u) h = Since-later n w.seq s _ _ (λ e. e) h
Agrees-suc n w (read_failed s c) h = Since-later n w.seq s _ _ (λ e. e) h

step-IsSound : (n : ℕ) (e : Event) (m : Machine) → IsSound n m → IsSound (suc n) (step e m)
unfolding step
step-IsSound n (begin c) m h = enter-Pair n m.reader m.slot h.1 m.writer c h.0
step-IsSound n write m h =
    update_step-Pair n m.reader m.slot h.1 m.writer (Agrees-suc n m.slot m.reader h.1) h.0
step-IsSound n look m h =
    (h.0, Agrees-read_step n m.slot m.reader (HasParity-lt m.writer m.slot.seq h.0) h.1)

pub run-IsSound :
    (es : List Event) (n : ℕ) (m : Machine) → IsSound n m → IsSound (n + length es) (run es m)
unfolding run
run-IsSound [] n m h =
    let same : n ≡ n + 0 = omega arith in subst (λ k. IsSound k (run [] m)) same h
run-IsSound (e ∷ es) n m h =
    let same : suc n + length es ≡ n + suc (length es) = omega arith in
    subst (λ k. IsSound k (run es (step e m))) same
      (run-IsSound es (suc n) (step e m) (step-IsSound n e m h))
