-- ===== src/Tests/Access.antt =====
-- The theorems on who is let in, at the servers of the parent.
use stream_gate.Base.{◌≡◌, refl, true, false, none, some, [], ◌∷◌}
use stream_gate.Base.Int.{pos}
use stream_gate.Base.Decimal.{stoll, to_string, stoi, to_string_ℤ}
use stream_gate.Base.Text.{to_lower}
use stream_gate.Cache.{
  hash_get_all, key_exists, hash_set, key_expire, key_del, hash_incr_by, set_add, zset_add,
  run_pipeline,
}
use stream_gate.Task.{
  type_to_string, parse_type, parse_state, parse_protocol, state_to_string, protocol_to_string,
}
use stream_gate.Task.Fields.{serialize_task, deserialize_task, reasonable}
use stream_gate.State.Query.{get_publisher_task, get_task, get_task_by_key}
use stream_gate.State.Deregister.{deregister_task, deregister_tasks_batch}
use stream_gate.Task.{rtmp}
use stream_gate.Redis.Sample.{Memory, sample, empty}
use stream_gate.State.Register.{
  register_task, clear_old, clear_by_type, store_task, expire_task, index_task, index_by_type,
  register_player_indices, stamp_task, register_publisher_indices, clear_publisher,
}
use stream_gate.Scheduler.Nodes.{select_best_node}
use stream_gate.Scheduler.{
  fresh_counters, on_publish, on_play, publish_authorized, play_authorized, validate_request,
}
use stream_gate.Scheduler.Granted.{is_granted, IsBound, on_play-is_granted, task_to_publish}
use stream_gate.Hook.{get_token, to_response, ZlmHookRequest, publish}
use stream_gate.Hook.Answers.{is_success, route_hook-publish}
use stream_gate.Base.Text.{is_empty}
use stream_gate.Hook.Route.{map_result, process_publish, request_of, route_hook}
use stream_gate.Auth.{StreamAuthData}
use stream_gate.Auth.Checked.{IsOf, perform_auth_logic-IsOf}
use stream_gate.Auth.Cached.{get_auth_data_by_key, get_string}
use stream_gate.Json.{JsonLib}
use stream_gate.Auth.Manager.{perform_auth_logic}
use stream_gate.Auth.Repository.{
  Answer, row, AuthRequest, reset_stats, query_database, get_auth_data,
}
use stream_gate.Tests.{clock, no_nodes, request, busy}

-- A library that reads nothing and writes nothing.
abbrev mute : JsonLib
mute = record {
  Json = Unit {0};
  parse = λ t. none;
  dump = λ j. none;
  object = λ fs. tt;
  of_string = λ t. tt;
  of_bool = λ b. tt;
  of_int = λ z. tt;
  of_map = λ m. tt;
  value_string = λ k d j. none;
  value_bool = λ k d j. none;
  value_uint = λ k d j. none;
  has_object = λ k j. false;
  get_map = λ k j. none;
  find = λ k j. none;
  as_string = λ j. none;
  items = λ j. [];
}

abbrev asked : AuthRequest
asked = record { stream_key = "live"; client_id = "anna"; auth_token = "t" }

abbrev database : AuthRequest → Answer
database q = row "anna" true

abbrev refused_before : Memory
refused_before = record empty { texts = λ k. some "__EMPTY__" }

abbrev hook : ZlmHookRequest
hook = record {
  action = publish;
  protocol = rtmp;
  app = "live";
  stream = "a";
  vhost = "v";
  client_id = "anna";
  ip = "";
  params = ("token", "t") ∷ [];
}

allowed : (perform_auth_logic sample mute database asked reset_stats empty).0 ≡ pos 0
unfolding perform_auth_logic get_auth_data get_auth_data_by_key get_string query_database
allowed = refl

auth_example :
    (d : StreamAuthData) × ((get_auth_data sample mute database asked reset_stats empty).0 ≡ some d)
    × (d.is_authorized ≡ true)
    × IsOf asked d
auth_example = perform_auth_logic-IsOf sample mute database asked reset_stats empty allowed

bert_plays :
    is_granted (on_play sample no_nodes clock (request "bert") (some (pos 0)) fresh_counters busy).0
    ≡ true
unfolding on_play play_authorized get_publisher_task hash_get_all serialize_task deserialize_task
    type_to_string stoll to_string register_task clear_old clear_by_type key_exists store_task
    hash_set expire_task key_expire key_del index_task index_by_type register_player_indices
    stamp_task stoi to_string_ℤ to_lower hash_incr_by set_add zset_add run_pipeline parse_type
    parse_state parse_protocol state_to_string protocol_to_string reasonable deregister_task
    get_task get_task_by_key deregister_tasks_batch register_publisher_indices clear_publisher
    select_best_node
bert_plays = refl

node_example :
    (validate_request (request "bert") ≡ true)
    × (some (pos 0) ≡ some (pos 0))
    × IsBound sample no_nodes clock
        (request "bert")
        fresh_counters
        busy
        (on_play sample no_nodes clock (request "bert") (some (pos 0)) fresh_counters busy).0
node_example =
    on_play-is_granted sample no_nodes clock (request "bert") fresh_counters busy (some (pos 0))
      bert_plays

anna_answered :
    is_success (route_hook sample no_nodes clock hook (some (pos 0)) fresh_counters empty).0 ≡ true
unfolding route_hook process_publish on_publish publish_authorized map_result to_response
    get_publisher_task hash_get_all serialize_task deserialize_task type_to_string stoll to_string
    register_task clear_old clear_by_type key_exists store_task hash_set expire_task key_expire
    key_del index_task index_by_type register_player_indices stamp_task stoi to_string_ℤ to_lower
    hash_incr_by set_add zset_add run_pipeline parse_type parse_state parse_protocol state_to_string
    protocol_to_string reasonable deregister_task get_task get_task_by_key deregister_tasks_batch
    register_publisher_indices clear_publisher select_best_node
anna_answered = refl

publish_example :
    (is_empty hook.client_id ≡ false)
    × (is_empty (get_token hook) ≡ false)
    × (some (pos 0) ≡ some (pos 0))
    × ((register_task sample 1700000000000
          (task_to_publish sample no_nodes clock (request_of hook) fresh_counters empty)
          empty).0
        ≡ true)
publish_example =
    route_hook-publish sample no_nodes clock fresh_counters empty hook (some (pos 0)) refl
      anna_answered
