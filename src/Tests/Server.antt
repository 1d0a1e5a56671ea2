-- ===== src/Tests/Server.antt =====
-- The theorems on the HTTP server.
use stream_gate.Base.{◌≡◌, refl, true, false, none, some, List, [], ◌∷◌, if◌then◌else◌}
use stream_gate.Base.Decimal.{stoll, to_string, stoi, to_string_ℤ}
use stream_gate.Base.Int.{pos}
use stream_gate.Base.Text.{◌==◌, to_lower}
use stream_gate.Cache.{
  hash_get_all, key_exists, hash_set, key_expire, key_del, hash_incr_by, set_add, zset_add,
  run_pipeline,
}
use stream_gate.Hook.{to_response, ZlmHookRequest, publish, success, parse_schema}
use stream_gate.Hook.Decode.{from_json}
use stream_gate.Hook.Params.{parse_url_params, parse_from}
use stream_gate.Hook.Route.{map_result, process_publish, route_hook}
use stream_gate.HookServer.{
  HttpRequest, post, forward, handle_request, handle_post, map_path_to_action, answer_of,
  send_response,
}
use stream_gate.HookServer.Served.{serve, grants, Accepted, serve-grants}
use stream_gate.HookServer.Session as Session
use stream_gate.HookServer.Session.{HookSession, new_session, pending, read, written}
use stream_gate.Json.{JsonLib}
use stream_gate.Redis.Sample.{sample, empty}
use stream_gate.Scheduler.{fresh_counters, on_publish, publish_authorized}
use stream_gate.Scheduler.Nodes.{select_best_node}
use stream_gate.State.Deregister.{deregister_task, deregister_tasks_batch}
use stream_gate.State.Query.{get_publisher_task, get_task, get_task_by_key}
use stream_gate.State.Register.{
  register_task, clear_old, clear_by_type, store_task, expire_task, index_task, index_by_type,
  register_player_indices, stamp_task, register_publisher_indices, clear_publisher,
}
use stream_gate.Task.{
  type_to_string, parse_type, parse_state, parse_protocol, state_to_string, protocol_to_string,
}
use stream_gate.Task.Fields.{serialize_task, deserialize_task, reasonable}
use stream_gate.Tests.{clock, no_nodes}

-- A library that reads "{}" as an object of a client and a token.
abbrev one_object : JsonLib
one_object = record {
  Json = Unit {0};
  parse = λ t. if t == "{}" then some tt else none;
  dump = λ j. none;
  object = λ fs. tt;
  of_string = λ t. tt;
  of_bool = λ b. tt;
  of_int = λ z. tt;
  of_map = λ m. tt;
  value_string = λ k d j. some (if k == "id" then "anna" else if k == "stream" then "a" else d);
  value_bool = λ k d j. none;
  value_uint = λ k d j. none;
  has_object = λ k j. false;
  get_map = λ k j. none;
  find = λ k j. if k == "params" then some tt else none;
  as_string = λ j. some "token=t";
  items = λ j. [];
}

abbrev publishes : HttpRequest
publishes = record {
  verb = post;
  target = "/index/hook/on_publish?from=here";
  keep_alive = true;
  body = "{}";
}

abbrev the_hook : ZlmHookRequest
the_hook = record {
  action = publish;
  protocol = parse_schema "rtmp";
  app = "live";
  stream = "a";
  vhost = "__defaultVhost__";
  client_id = "anna";
  ip = "";
  params = ("token", "t") ∷ [];
}

forwarded : handle_request one_object publishes ≡ forward the_hook
unfolding handle_request handle_post map_path_to_action from_json parse_url_params parse_from
forwarded = refl

anna_granted :
    grants (serve one_object sample no_nodes clock publishes (some (pos 0)) fresh_counters empty).0
    ≡ true
unfolding serve handle_request handle_post map_path_to_action from_json parse_url_params parse_from
    answer_of send_response parse_schema route_hook process_publish on_publish publish_authorized
    map_result to_response get_publisher_task hash_get_all serialize_task deserialize_task
    type_to_string stoll to_string register_task clear_old clear_by_type key_exists store_task
    hash_set expire_task key_expire key_del index_task index_by_type register_player_indices
    stamp_task stoi to_string_ℤ to_lower hash_incr_by set_add zset_add run_pipeline parse_type
    parse_state parse_protocol state_to_string protocol_to_string reasonable deregister_task
    get_task get_task_by_key deregister_tasks_batch register_publisher_indices clear_publisher
    select_best_node
anna_granted = refl

path_known : map_path_to_action "/index/hook/on_publish" ≡ publish
unfolding map_path_to_action
path_known = refl

grant_example :
    Accepted one_object sample no_nodes clock publishes
      (some (pos 0))
      fresh_counters
      empty
      path_known
grant_example =
    serve-grants one_object sample no_nodes clock publishes (some (pos 0)) fresh_counters empty
      path_known anna_granted

-- Two requests on one connection, of which the second is a hook again.
abbrev first_done : List Session.Event
first_done =
    Session.read publishes
    ∷ Session.answered (record { code = success; message = "success" })
    ∷ Session.written
    ∷ Session.read publishes
    ∷ []

abbrev second : HookSession
second = (Session.run one_object first_done new_session).0

abbrev late : List Session.Event
late = Session.answered (record { code = success; message = "success" }) ∷ Session.written ∷ []
