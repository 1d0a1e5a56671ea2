-- ===== src/Tests/Counts.antt =====
-- The theorems on the metrics and the log.
use stream_gate.Base.{
  if◌then◌else◌, ◌∙◌, ap, String, some, false, ◌+◌, ◌<◌, ◌≡◌, refl, true, none, List, [], ◌∷◌,
  arith, eqb,
}
use stream_gate.Base.Int.{pos}
use stream_gate.Base.Text.{size}
use stream_gate.Logger.{error, Config, default_config, new_logger, log_base, set_config, log_entry}
use stream_gate.Logger.Written.{writes_of, log_base-set_config}
use stream_gate.Metrics.Slot.{
  Counts, fresh_slot, counts_of, resting, machine_of, Event, begin, write, look, read_step, run,
}
use stream_gate.Metrics.Slot.Latest.{latest}
use stream_gate.Metrics.Slot.Reading.{read_step-latest}
use stream_gate.DbManager.{empty_manager, still}
use stream_gate.Json.{JsonLib}
use stream_gate.Metrics.Collector.{Providers}
use stream_gate.Metrics.Collector.Reported.{shown}
use stream_gate.Metrics.Provider.{Parts, of_cache, of_database, snapshot}
use stream_gate.Scheduler.{fresh_counters}
use stream_gate.Metrics.Registry.{
  ThreadLocalRegistry, aggregate, release_slot, acquire_slot, ctz, Among, undisturbed, acquire_from,
  acquire_turn, or_next, released,
}
use stream_gate.Metrics.Registry.Acquire.{acquire_slot-ctz, acquire_from-full}
use stream_gate.Metrics.Registry.Release.{aggregate-release_slot}
use stream_gate.Metrics.Report.{buffer_size, server_refresh}
use stream_gate.Metrics.Report.Room.{report_lines, server_refresh-line}

abbrev seven : Counts
seven = record { total = 7; success = 5; failed = 2 }

-- The first turn of the reader comes upon the update and is repeated.
abbrev overlapped : List Event
overlapped =
    look
    ∷ look
    ∷ begin seven
    ∷ write
    ∷ look
    ∷ write
    ∷ look
    ∷ write
    ∷ write
    ∷ look
    ∷ look
    ∷ look
    ∷ look
    ∷ look
    ∷ []

latest_example :
    ((run overlapped (machine_of fresh_slot)).writer ≡ resting)
    × (seven ≡ latest overlapped (machine_of fresh_slot) (counts_of fresh_slot))
    × (seven ≡ counts_of (run overlapped (machine_of fresh_slot)).slot)
unfolding run read_step
latest_example = read_step-latest fresh_slot overlapped seven (omega arith, refl) (omega arith) refl

-- Every worker of the first 64 is there.
abbrev crowded : ThreadLocalRegistry
crowded = record {
  slots =
      λ id. record { seq = 2; total_requests = 7 + id; success_requests = 5; failed_requests = 2 };
  active_mask = λ m i. eqb m 0;
  historical_stats = fresh_slot;
}

worker_example : acquire_slot undisturbed crowded ≡ (none, crowded)
unfolding ctz
worker_example = acquire_slot-ctz crowded

-- Another worker gives back slot 5 between the two turns.
abbrev giving_back : Among
giving_back = record {
  at_load = λ m r. if eqb m 1 then release_slot 5 r else r;
  at_fetch = λ m i r. r;
  at_reload = λ m i r. r;
}

-- Then slot 69 is given, by the bit of the first mask.
second_mask : (acquire_slot giving_back crowded).0 ≡ some 69
unfolding acquire_slot acquire_from release_slot released
second_mask =
    let all_taken = acquire_from-full giving_back 64 0 0 (crowded.active_mask 0) crowded in
    ap (λ x. (or_next x (acquire_turn giving_back 1)).0) (all_taken (λ j le lt. refl)) ∙ refl

release_example : aggregate (release_slot 63 crowded) ≡ aggregate crowded
release_example =
    aggregate-release_slot crowded 63 (omega arith) refl (omega arith, omega arith, omega arith)

report_example :
    (server_refresh crowded ≡ report_lines (aggregate crowded))
    × (size (server_refresh crowded) < buffer_size)
report_example = server_refresh-line crowded (omega arith, omega arith, omega arith)

abbrev to_file_too : Config
to_file_too = record default_config { log_to_file = true; log_file_path = "s.log" }

log_example :
    log_base
      (λ ms. "12:00")
      error
      "down"
      none
      (pos 0)
      (set_config (λ path. true) to_file_too new_logger).0
    ≡ writes_of (λ path. true) to_file_too error (log_entry "12:00" error "down" none (pos 0))
log_example =
    log_base-set_config (λ path. true) to_file_too new_logger (λ ms. "12:00") error "down" none
      (pos 0)

-- A JSON library that keeps a text and forgets the rest.
abbrev texts : JsonLib
texts = record {
  Json = String;
  parse = λ t. some t;
  dump = λ j. some j;
  object = λ fs. elim fs [ [] ↦ "{}" | f ∷ rest ↦ f.1 ];
  of_string = λ t. t;
  of_bool = λ b. "b";
  of_int = λ z. "n";
  of_map = λ m. "m";
  value_string = λ k d j. none;
  value_bool = λ k d j. none;
  value_uint = λ k d j. none;
  has_object = λ k j. false;
  get_map = λ k j. none;
  find = λ k j. none;
  as_string = λ j. some j;
  items = λ j. [];
}

-- The cache does not answer, and the database pool is empty.
abbrev parts : Parts
parts = record {
  registry = crowded;
  counters = fresh_counters;
  manager = still (empty_manager 2 1);
  ping = some false;
  rtt_ms = 3;
}

abbrev two_providers : Providers texts
two_providers =
    record { source = of_cache true; metrics_cache = none }
    ∷ record { source = of_database true; metrics_cache = none }
    ∷ []

disconnected : String
disconnected = "disconnected"

turn_shown : shown texts parts "cache_metrics" two_providers ≡ some disconnected
unfolding snapshot disconnected
turn_shown = refl
