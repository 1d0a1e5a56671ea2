-- ===== src/Metrics/Slot/Reading.antt =====
-- src/metrics/ServerMetricsProvider.cpp, WorkerStatsSlot: what `read` returns while another thread
-- is in `update`.
use stream_gate.Base.{ℕ, ◌+◌, ◌%◌, ◌^◌, ◌<◌, ◌≡◌, refl, sym, ap, ◌∙◌, List, length, arith}
use stream_gate.Metrics.Slot.{
  Counts, WorkerStatsSlot, Writer, resting, entered, set_total, set_success, set_failed, Reader,
  outside, read_seq, read_total, read_success, read_failed, returned, machine_of, Event, read_step,
  run, counts_of, IsResting,
}
use stream_gate.Metrics.Slot.Steps.{HasParity, Agrees, IsSound, run-IsSound}
use stream_gate.Metrics.Slot.Latest.{latest, Written, run-Written}

passed :
    (s : ℕ) (d c : Counts) (w : WorkerStatsSlot)
    → read_step (read_failed s d) w ≡ returned c
    → (s % 2 ≡ 0) × (s ≡ w.seq) × (d ≡ c)
unfolding read_step
passed s d c w e = ground arith

HasParity-resting : (r : Writer) (n : ℕ) → HasParity r n → n % 2 ≡ 0 → r ≡ resting
HasParity-resting resting n h even = refl
HasParity-resting (entered c) n h even = absurd (omega arith)
HasParity-resting (set_total c) n h even = absurd (omega arith)
HasParity-resting (set_success c) n h even = absurd (omega arith)
HasParity-resting (set_failed c) n h even = absurd (omega arith)

not_grown : (s k now : ℕ) → s < 2 ^ 64 → k < 2 ^ 64 → now ≡ (s + k) % 2 ^ 64 → s ≡ now → k ≡ 0
not_grown s k now small few now_is same = omega arith

-- A read that returns has seen no update under way.
returned_lem :
    (n : ℕ) (r : Writer) (w : WorkerStatsSlot) (q : Reader) (c : Counts)
    → n < 2 ^ 64
    → HasParity r w.seq
    → Agrees n w q
    → read_step q w ≡ returned c
    → (r ≡ resting)
      × (c.total ≡ w.total_requests)
      × (c.success ≡ w.success_requests)
      × (c.failed ≡ w.failed_requests)
returned_lem n r w (read_failed s d) c few h (small, k, le, now_is, kept) e =
    let (even, same, is) = passed s d c w e in
    let none_grown : k ≡ 0 = not_grown s k w.seq small (omega arith) now_is same in
    let (t, u, f) = kept none_grown even in
    (
      HasParity-resting r w.seq h (omega arith),
      ap (λ x. x.total) (sym is) ∙ t,
      ap (λ x. x.success) (sym is) ∙ u,
      ap (λ x. x.failed) (sym is) ∙ f,
    )
returned_lem n r w outside c few h agree e = absurd (unfold read_step in cc)
returned_lem n r w (returned d) c few h agree e = absurd (unfold read_step in cc)
returned_lem n r w (read_seq s) c few h agree e = absurd (unfold read_step in cc)
returned_lem n r w (read_total s t) c few h agree e = absurd (unfold read_step in cc)
returned_lem n r w (read_success s t u) c few h agree e = absurd (unfold read_step in cc)

Written-resting :
    (c : Counts) (r : Writer) (w : WorkerStatsSlot) → Written c r w → r ≡ resting → c ≡ counts_of w
Written-resting c resting w h e = ground arith
Written-resting c (entered d) w h e = cc
Written-resting c (set_total d) w h e = cc
Written-resting c (set_success d) w h e = cc
Written-resting c (set_failed d) w h e = cc

-- Whatever the accesses of `update` and `read` that come between, fewer than 2^64 in all: when
-- `read` returns, no update is under way, and the three numbers are those of the last update that
-- was begun, or of the slot at first when there was none; they never mix two updates.
pub read_step-latest :
    (w : WorkerStatsSlot) (es : List Event) (c : Counts)
    → IsResting w
    → length es < 2 ^ 64
    → read_step (run es (machine_of w)).reader (run es (machine_of w)).slot ≡ returned c
    → ((run es (machine_of w)).writer ≡ resting)
      × (c ≡ latest es (machine_of w) (counts_of w))
      × (c ≡ counts_of (run es (machine_of w)).slot)
read_step-latest w es c even few e =
    let m = run es (machine_of w) in
    let sound : IsSound (0 + length es) m = run-IsSound es 0 (machine_of w) (even, tt) in
    let (rests, t, u, f) =
      returned_lem (0 + length es) m.writer m.slot m.reader c (omega arith) sound.0 sound.1 e in
    let is : c ≡ counts_of m.slot = ground arith in
    let last =
      Written-resting (latest es (machine_of w) (counts_of w)) m.writer m.slot
        (run-Written es (machine_of w) (counts_of w) (refl, refl, refl)) rests in
    (rests, is ∙ sym last, is)
