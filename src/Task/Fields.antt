-- ===== src/Task/Fields.antt =====
-- `serializeTask` and `deserializeTask` of src/repository/RedisStreamStateManager.cpp: the Redis
-- hash of a task.
pub mod RoundTrip
use stream_gate.Base.{
  ℕ, ◌*◌, ◌/◌, ◌^◌, String, ◌||◌, ◌&&◌, Bool, true, false, not, Option, none, some, [], ◌∷◌, leb,
  is_some, value_or, if◌then◌else◌,
}
use stream_gate.Base.Decimal.{to_string, to_string_ℤ, stoi, stoll}
use stream_gate.Base.Fields.{Fields, lookup}
use stream_gate.Base.Int.{ℤ, pos, negsuc}
use stream_gate.Base.Maybe.{◌>>=◌, ◌>>◌, guard}
use stream_gate.Base.Text.{◌==◌, is_empty}
use stream_gate.Task.{
  StreamTask, StreamType, StreamState, initializing, StreamProtocol, unknown, protocol_to_string,
  parse_protocol, state_to_string, parse_state, type_to_string, parse_type,
}

-- 2020-01-01 and 2038-01-01, in milliseconds.
abbrev pub min_reasonable_ms : ℕ
min_reasonable_ms = 1577836800000

abbrev pub max_reasonable_ms : ℕ
max_reasonable_ms = 2145916800000

abbrev pub ns_per_ms : ℕ
ns_per_ms = 1000000

-- `duration_cast<milliseconds>`
abbrev pub to_ms : ℕ → ℕ
to_ms t = t / ns_per_ms

abbrev flag : Bool → String
flag b = if b then "1" else "0"

unfoldable pub serialize_task : StreamTask → Fields
serialize_task task =
    ("stream_name", task.stream_name)
    ∷ ("client_id", task.client_id)
    ∷ ("active", "1")
    ∷ ("type", type_to_string task.type)
    ∷ ("state", state_to_string task.state)
    ∷ ("protocol", protocol_to_string task.protocol)
    ∷ ("server_ip", task.server_ip)
    ∷ ("server_port", to_string_ℤ task.server_port)
    ∷ ("start_time_ms", to_string (to_ms task.start_time))
    ∷ ("last_active_time_ms", to_string (to_ms task.last_active_time))
    ∷ ("user_id", task.user_id)
    ∷ ("auth_token", task.auth_token)
    ∷ ("region", value_or task.region "")
    ∷ ("need_transcode", flag task.need_transcode)
    ∷ ("need_record", flag task.need_record)
    ∷ ("transcoding_profile", task.transcoding_profile)
    ∷ []

-- A time stamp between the two bounds, as a time point.
unfoldable pub reasonable : ℤ → Option ℕ
reasonable (negsuc n) = none
reasonable (pos ms) =
    if leb min_reasonable_ms ms && leb ms max_reasonable_ms then some (ms * ns_per_ms) else none

abbrev non_empty : Option String → Option String
non_empty none = none
non_empty (some s) = if is_empty s then none else some s

abbrev is_one : Option String → Bool
is_one none = false
is_one (some s) = s == "1"

abbrev read_state : Option String → StreamState
read_state none = initializing
read_state (some s) = parse_state s

abbrev read_protocol : Option String → StreamProtocol
read_protocol none = unknown
read_protocol (some s) = parse_protocol s

-- A port that std::stoi refuses is 0.
abbrev read_port : Option String → ℤ
read_port none = pos 0
read_port (some s) = value_or (stoi s) (pos 0)

-- The map is read by key only, so it is given by its `find`. The five binds at the head are the
-- loop over the required keys; an exception of std::stoll gives nothing.
unfoldable pub deserialize_task : (String → Option String) → Option StreamTask
unfolding reasonable
deserialize_task find = do
  stream_name ← find "stream_name"
  client_id ← find "client_id"
  type_str ← find "type"
  start_str ← find "start_time_ms"
  last_str ← find "last_active_time_ms"
  guard (type_str == "publisher" || type_str == "player")
  start_ms ← stoll start_str
  last_ms ← stoll last_str
  start_time ← reasonable start_ms
  last_active_time ← reasonable last_ms
  some (record {
    task_id = 0;
    stream_name = stream_name;
    client_id = client_id;
    type = parse_type type_str;
    state = read_state (find "state");
    protocol = read_protocol (find "protocol");
    server_ip = value_or (find "server_ip") "";
    server_port = read_port (find "server_port");
    start_time = start_time;
    last_active_time = last_active_time;
    user_id = value_or (find "user_id") "";
    auth_token = value_or (find "auth_token") "";
    region = non_empty (find "region");
    bandwidth_kbps = none;
    player_count = none;
    need_transcode = is_one (find "need_transcode");
    need_record = is_one (find "need_record");
    transcoding_profile = value_or (find "transcoding_profile") "";
  })
