-- ===== src/Task/Fields/RoundTrip.antt =====
-- What is read back from the hash of a task.
use stream_gate.Base.{
  ℕ, ◌*◌, ◌-◌, ◌^◌, ◌≤◌, String, ◌≡◌, refl, Bool, true, false, Option, none, some, ◌||◌, arith,
  value_or,
}
use stream_gate.Base.Decimal.{stoll-to_string, stoi-to_string_ℤ}
use stream_gate.Base.Fields.{lookup, or_else}
use stream_gate.Base.Int.{pos, negsuc, leb_ℤ}
use stream_gate.Base.Text.{◌==◌}
use stream_gate.Task.{StreamTask, publisher, player, StreamType, type_to_string}
use stream_gate.Task.Names.{
  parse_protocol-protocol_to_string, parse_state-state_to_string, parse_type-type_to_string,
}
use stream_gate.Task.Fields.{
  min_reasonable_ms, max_reasonable_ms, ns_per_ms, to_ms, serialize_task, reasonable, non_empty,
  flag, deserialize_task,
}

-- The time stamps lie between the bounds, and the port is an int.
pub record IsStorable (t : StreamTask) : Type 0 where
  pub start_low : min_reasonable_ms ≤ to_ms t.start_time
  pub start_high : to_ms t.start_time ≤ max_reasonable_ms
  pub last_low : min_reasonable_ms ≤ to_ms t.last_active_time
  pub last_high : to_ms t.last_active_time ≤ max_reasonable_ms
  pub port_low : leb_ℤ (negsuc (2 ^ 31 - 1)) t.server_port ≡ true
  pub port_high : leb_ℤ t.server_port (pos (2 ^ 31 - 1)) ≡ true

-- What the hash keeps of a task: not its number nor its counters, its times to the millisecond,
-- and a region only if it is not empty.
abbrev pub stored : StreamTask → StreamTask
stored t = record t {
  task_id = 0;
  start_time = to_ms t.start_time * ns_per_ms;
  last_active_time = to_ms t.last_active_time * ns_per_ms;
  region = non_empty t.region;
  bandwidth_kbps = none;
  player_count = none;
}

type_known :
    (t : StreamType) → (type_to_string t == "publisher" || type_to_string t == "player") ≡ true
unfolding type_to_string
type_known publisher = refl
type_known player = refl

reasonable_pos :
    (ms : ℕ)
    → min_reasonable_ms ≤ ms
    → ms ≤ max_reasonable_ms
    → reasonable (pos ms) ≡ some (ms * ns_per_ms)
unfolding reasonable
reasonable_pos ms l h = ground arith

flag_lem : (b : Bool) → (flag b == "1") ≡ b
flag_lem true = refl
flag_lem false = refl

region_lem : (r : Option String) → non_empty (some (value_or r "")) ≡ non_empty r
region_lem none = refl
region_lem (some s) = refl

-- A task whose times are reasonable and whose port is an int reads back from its hash as what the
-- hash keeps of it, whatever fields the hash had before.
pub deserialize_task-serialize_task :
    (t : StreamTask) (old : String → Option String)
    → IsStorable t
    → deserialize_task (λ f. or_else (lookup f (serialize_task t)) (old f)) ≡ some (stored t)
unfolding deserialize_task serialize_task
deserialize_task-serialize_task t old h = rw (
  type_known t.type,
  stoll-to_string (to_ms t.start_time) (omega arith),
  stoll-to_string (to_ms t.last_active_time) (omega arith),
  reasonable_pos (to_ms t.start_time) h.start_low h.start_high,
  reasonable_pos (to_ms t.last_active_time) h.last_low h.last_high,
  parse_type-type_to_string t.type,
  parse_state-state_to_string t.state,
  parse_protocol-protocol_to_string t.protocol,
  stoi-to_string_ℤ t.server_port h.port_low h.port_high,
  region_lem t.region,
  flag_lem t.need_transcode,
  flag_lem t.need_record,
)

pub deserialize_task_missing :
    (find : String → Option String) → find "stream_name" ≡ none → deserialize_task find ≡ none
unfolding deserialize_task
deserialize_task_missing find e = rw e
