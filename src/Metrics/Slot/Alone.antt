-- ===== src/Metrics/Slot/Alone.antt =====
-- src/metrics/ServerMetricsProvider.cpp, WorkerStatsSlot: `update` and `read` of one thread alone.
use stream_gate.Base.{◌≡◌, refl, [], ◌∷◌, arith}
use stream_gate.Metrics.Slot.{
  Counts, WorkerStatsSlot, returned, machine_of, begin, write, look, run, counts_of, IsResting,
  update,
}

-- The five accesses of `update`.
pub run-update :
    (c : Counts) (w : WorkerStatsSlot)
    → run (begin c ∷ write ∷ write ∷ write ∷ write ∷ []) (machine_of w) ≡ machine_of (update c w)
unfolding run update
run-update c w = refl

pub update-IsResting : (c : Counts) (w : WorkerStatsSlot) → IsResting w → IsResting (update c w)
unfolding update
update-IsResting c w h = (omega arith, omega arith)

-- The five accesses of `read`, on a slot at rest.
pub run-read :
    (w : WorkerStatsSlot)
    → IsResting w
    → run (look ∷ look ∷ look ∷ look ∷ look ∷ []) (machine_of w)
      ≡ record (machine_of w) { reader = returned (counts_of w) }
unfolding run
run-read w h = ground arith
