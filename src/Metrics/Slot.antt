-- ===== src/Metrics/Slot.antt =====
-- src/metrics/ServerMetricsProvider.cpp, WorkerStatsSlot: counters under a sequence number. One
-- thread writes and another reads; each access of the memory is one step, and the fences of the
-- source are taken at their word, so that the steps are seen in their order.
mod Steps
pub mod Latest
pub mod Reading
pub mod Alone
use stream_gate.Base.{
  ℕ, ◌+◌, ◌%◌, ◌^◌, ◌<◌, ◌≡◌, Bool, ◌||◌, not, List, [], ◌∷◌, eqb, if◌then◌else◌,
}

-- The three numbers that `update` takes and `read` gives.
pub record Counts : Type 0 where
  pub total : ℕ
  pub success : ℕ
  pub failed : ℕ

pub record WorkerStatsSlot : Type 0 where
  pub seq : ℕ
  pub total_requests : ℕ
  pub success_requests : ℕ
  pub failed_requests : ℕ

abbrev pub fresh_slot : WorkerStatsSlot
fresh_slot = record { seq = 0; total_requests = 0; success_requests = 0; failed_requests = 0 }

-- The three numbers as the source reads them.
abbrev pub counts_of : WorkerStatsSlot → Counts
counts_of w = record {
  total = w.total_requests;
  success = w.success_requests;
  failed = w.failed_requests;
}

-- `seq.fetch_add(1)`
abbrev pub fetch_add : ℕ → ℕ
fetch_add n = (n + 1) % 2 ^ 64

abbrev pub is_odd : ℕ → Bool
is_odd n = not (eqb (n % 2) 0)

-- Where the writing thread is in `update`: between two updates, or after its n-th access.
pub data Writer : Type 0 where
  resting : Writer
  entered set_total set_success set_failed : Counts → Writer

-- Where the reading thread is in `read`: what it has read in this turn of the loop.
pub data Reader : Type 0 where
  outside : Reader
  read_seq : ℕ → Reader
  read_total : ℕ → ℕ → Reader
  read_success : ℕ → ℕ → ℕ → Reader
  read_failed : ℕ → Counts → Reader
  returned : Counts → Reader

pub record Machine : Type 0 where
  pub slot : WorkerStatsSlot
  pub writer : Writer
  pub reader : Reader

abbrev pub machine_of : WorkerStatsSlot → Machine
machine_of w = record { slot = w; writer = resting; reader = outside }

-- `begin`: the writer calls `update`. `write` and `look`: the next access of the writer and of the
-- reader. A reader that is outside, or has returned, reads again.
pub data Event : Type 0 where
  begin : Counts → Event
  write look : Event

-- The first access of `update`, if the thread is not in it already.
unfoldable pub enter : Writer → Counts → WorkerStatsSlot → WorkerStatsSlot × Writer
enter resting c w = (record w { seq = fetch_add w.seq }, entered c)
enter r c w = (w, r)

-- The accesses of `update` after the first.
unfoldable pub update_step : Writer → WorkerStatsSlot → WorkerStatsSlot × Writer
update_step resting w = (w, resting)
update_step (entered c) w = (record w { total_requests = c.total }, set_total c)
update_step (set_total c) w = (record w { success_requests = c.success }, set_success c)
update_step (set_success c) w = (record w { failed_requests = c.failed }, set_failed c)
update_step (set_failed c) w = (record w { seq = fetch_add w.seq }, resting)

abbrev pub write_back : Machine → WorkerStatsSlot × Writer → Machine
write_back m (w, r) = record m { slot = w; writer = r }

-- The accesses of `read`; the last one ends the loop or starts it again.
unfoldable pub read_step : Reader → WorkerStatsSlot → Reader
read_step outside w = read_seq w.seq
read_step (returned c) w = read_seq w.seq
read_step (read_seq s1) w = read_total s1 w.total_requests
read_step (read_total s1 t) w = read_success s1 t w.success_requests
read_step (read_success s1 t s) w =
    read_failed s1 (record { total = t; success = s; failed = w.failed_requests })
read_step (read_failed s1 c) w = if is_odd s1 || not (eqb s1 w.seq) then outside else returned c

unfoldable pub step : Event → Machine → Machine
unfolding enter update_step read_step
step (begin c) m = write_back m (enter m.writer c m.slot)
step write m = write_back m (update_step m.writer m.slot)
step look m = record m { reader = read_step m.reader m.slot }

unfoldable pub run : List Event → Machine → Machine
unfolding step
run [] m = m
run (e ∷ es) m = run es (step e m)

-- The slot is at rest, as it is between two updates.
abbrev pub IsResting : WorkerStatsSlot → Type 0
IsResting w = (w.seq < 2 ^ 64) × (w.seq % 2 ≡ 0)

-- `update` when no other thread comes in between.
unfoldable pub update : Counts → WorkerStatsSlot → WorkerStatsSlot
update c w = record {
  seq = fetch_add (fetch_add w.seq);
  total_requests = c.total;
  success_requests = c.success;
  failed_requests = c.failed;
}
