-- ===== src/Metrics/Slot/Latest.antt =====
-- src/metrics/ServerMetricsProvider.cpp, WorkerStatsSlot: which update it holds.
use stream_gate.Base.{◌≡◌, refl, sym, ap, List, [], ◌∷◌}
use stream_gate.Metrics.Slot.{
  Counts, WorkerStatsSlot, Writer, resting, entered, set_total, set_success, set_failed, Machine,
  Event, begin, write, look, enter, update_step, step, run,
}

-- What the last update that was begun wrote, or is writing: `c` at first.
unfoldable pub latest : List Event → Machine → Counts → Counts
latest [] m c = c
latest (begin d ∷ es) m c = latest es (step (begin d) m) (elim m.writer [ resting ↦ d | _ ↦ c ])
latest (write ∷ es) m c = latest es (step write m) c
latest (look ∷ es) m c = latest es (step look m) c

-- What the writer has written of it.
abbrev pub Written : Counts → Writer → WorkerStatsSlot → Type 0
Written c resting w =
    (c.total ≡ w.total_requests) × (c.success ≡ w.success_requests) × (c.failed ≡ w.failed_requests)
Written c (entered d) w = d ≡ c
Written c (set_total d) w = (d ≡ c) × (c.total ≡ w.total_requests)
Written c (set_success d) w =
    (d ≡ c) × (c.total ≡ w.total_requests) × (c.success ≡ w.success_requests)
Written c (set_failed d) w =
    (d ≡ c)
    × (c.total ≡ w.total_requests)
    × (c.success ≡ w.success_requests)
    × (c.failed ≡ w.failed_requests)

abbrev WrittenPair : Counts → WorkerStatsSlot × Writer → Type 0
WrittenPair c (w, r) = Written c r w

enter-Written :
    (c d : Counts) (r : Writer) (w : WorkerStatsSlot)
    → Written c r w
    → WrittenPair (elim r [ resting ↦ d | _ ↦ c ]) (enter r d w)
unfolding enter
enter-Written c d resting w h = refl
enter-Written c d (entered e) w h = h
enter-Written c d (set_total e) w h = h
enter-Written c d (set_success e) w h = h
enter-Written c d (set_failed e) w h = h

update_step-Written :
    (c : Counts) (r : Writer) (w : WorkerStatsSlot)
    → Written c r w
    → WrittenPair c (update_step r w)
unfolding update_step
update_step-Written c resting w h = h
update_step-Written c (entered e) w h = (h, ap (λ d. d.total) (sym h))
update_step-Written c (set_total e) w h = (h.0, h.1, ap (λ d. d.success) (sym h.0))
update_step-Written c (set_success e) w h = (h.0, h.1, h.2, ap (λ d. d.failed) (sym h.0))
update_step-Written c (set_failed e) w h = (h.1, h.2, h.3)

pub run-Written :
    (es : List Event) (m : Machine) (c : Counts)
    → Written c m.writer m.slot
    → Written (latest es m c) (run es m).writer (run es m).slot
unfolding run latest step
run-Written [] m c h = h
run-Written (begin d ∷ es) m c h =
    run-Written es (step (begin d) m) _ (enter-Written c d m.writer m.slot h)
run-Written (write ∷ es) m c h =
    run-Written es (step write m) c (update_step-Written c m.writer m.slot h)
run-Written (look ∷ es) m c h = run-Written es (step look m) c h
