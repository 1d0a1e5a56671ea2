-- ===== src/Tests.antt =====
-- A server in memory with one stream that is published and played, and the theorems at it.
mod Streams
mod Hooks
mod Access
mod Pools
mod Server
mod Settings
mod Counts
mod Life
mod Stopping
use stream_gate.Base.{
  ℕ, ◌*◌, String, ◌≡◌, ◌≢◌, refl, Bool, true, false, ◌||◌, Option, none, some, List, [], ◌∷◌, arith,
  if◌then◌else◌,
}
use stream_gate.Base.Int.{ℤ, pos, negsuc}
use stream_gate.Base.Fields.{Fields}
use stream_gate.Base.Text.{◌==◌, eq_iff}
use stream_gate.Base.Decimal.{stoll, to_string, stoi, to_string_ℤ}
use stream_gate.Task.{
  StreamTask, StreamType, publisher, player, rtmp, initializing, type_to_string, parse_type,
  parse_state, parse_protocol, state_to_string, protocol_to_string,
}
use stream_gate.Task.Fields.{serialize_task, deserialize_task, reasonable}
use stream_gate.Redis.Sample.{Memory, sample, sample_lawful, empty}
use stream_gate.Scheduler.{Request, Clock}
use stream_gate.Scheduler.Nodes.{NodeConfig}
use stream_gate.State.View.{task_at, publisher_at}

-- 2023-11-14, in milliseconds.
abbrev pub noon : ℕ
noon = 1700000000000

abbrev pub clock : Clock
clock = record { created = 1700000000000000000; registered = 1700000000000 }

abbrev pub no_nodes : NodeConfig
no_nodes = record { rtmp_srt = []; http_hls = []; webrtc = [] }

abbrev pub request : String → Request
request client_id = record {
  stream_name = "live";
  client_id = client_id;
  auth_token = "t";
  protocol = rtmp;
}

-- The task of a client of the stream "live", as it is read back.
abbrev pub task_of : StreamType → String → StreamTask
task_of type client_id = record {
  task_id = 0;
  stream_name = "live";
  client_id = client_id;
  type = type;
  state = initializing;
  protocol = rtmp;
  server_ip = "127.0.0.1";
  server_port = pos 1935;
  start_time = 1700000000000000000;
  last_active_time = 1700000000000000000;
  user_id = "";
  auth_token = "t";
  region = none;
  bandwidth_kbps = none;
  player_count = none;
  need_transcode = false;
  need_record = false;
  transcoding_profile = "";
}

-- "anna" publishes, "bert" plays.
abbrev pub busy : Memory
busy = record {
  hashes = λ k.
      if k == "task:live:anna" || k == "pub:live"
      then serialize_task (task_of publisher "anna")
      else if k == "task:live:bert"
      then serialize_task (task_of player "bert")
      else if k == "global_players"
      then ("total", "1") ∷ []
      else [];
  live = λ k.
      k == "task:live:anna" || k == "pub:live" || k == "task:live:bert" || k == "global_players";
  sets = λ k.
      if k == "stream:members:live"
      then "anna" ∷ "bert" ∷ []
      else if k == "active_pubs"
      then "live" ∷ []
      else [];
  scores = λ k.
      if k == "task_timestamps"
      then ("task:live:anna", 1700000000000) ∷ ("task:live:bert", 1700000000000) ∷ []
      else [];
  texts = λ k. none;
}

pub anna_found : task_at (sample_lawful.view busy) "live" "anna" ≡ some (task_of publisher "anna")
unfolding serialize_task deserialize_task type_to_string stoll to_string parse_type parse_state
    parse_protocol stoi state_to_string protocol_to_string to_string_ℤ
anna_found = refl

pub anna_holds : publisher_at (sample_lawful.view busy) "live" ≡ some (task_of publisher "anna")
unfolding serialize_task deserialize_task type_to_string stoll to_string parse_type parse_state
    parse_protocol stoi state_to_string protocol_to_string to_string_ℤ
anna_holds = refl

pub bert_found : task_at (sample_lawful.view busy) "live" "bert" ≡ some (task_of player "bert")
unfolding serialize_task deserialize_task type_to_string stoll to_string parse_type parse_state
    parse_protocol stoi state_to_string protocol_to_string to_string_ℤ
bert_found = refl

pub anna_not_carl : ◌≢◌ {A = String} "anna" "carl"
anna_not_carl e = let h : false ≡ true = (eq_iff "anna" "carl").1 e in cc
