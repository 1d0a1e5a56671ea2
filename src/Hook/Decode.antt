-- ===== src/Hook/Decode.antt =====
-- `ZlmHookRequest::from_json` of src/util/ZlmHookCommon.cpp.
use stream_gate.Base.{String, Option, none, some, List, [], ◌∷◌, if◌then◌else◌}
use stream_gate.Base.Fields.{Fields, insert}
use stream_gate.Base.Maybe.{◌>>=◌}
use stream_gate.Base.Text.{is_empty}
use stream_gate.Json.{JsonLib}
use stream_gate.Hook.{ZlmHookRequest, HookAction, unknown_action, parse_action, parse_schema}
use stream_gate.Hook.Params.{parse_url_params}

module _ (lib : JsonLib) where
  open lib use {Json}

  -- No "action" is allowed; one that is not a text is not.
  abbrev read_action : Option Json → Option HookAction
  read_action none = some unknown_action
  read_action (some j) = (lib.as_string j >>= λ s. some (parse_action s))

  abbrev keep_string : String → Option String → Fields → Fields
  keep_string key none params = params
  keep_string key (some value) params = insert key value params

  -- The items of the parsed parameters that are texts.
  abbrev pub add_items : List (String × Json) → Fields → Fields
  add_items [] params = params
  add_items ((key, value) ∷ rest) params =
      add_items rest (keep_string key (lib.as_string value) params)

  abbrev pub read_params : Option Json → String → Fields
  read_params none text = parse_url_params text []
  read_params (some j) text = add_items (lib.items j) []

  abbrev params_text : String → Fields
  params_text text = if is_empty text then [] else read_params (lib.parse text) text

  abbrev text_params : Option String → Fields
  text_params none = []
  text_params (some text) = params_text text

  abbrev pub params_of : Option Json → Fields
  params_of none = []
  params_of (some j) = text_params (lib.as_string j)

  -- `none`: std::nullopt, after a json::exception.
  unfoldable pub from_json : Json → Option ZlmHookRequest
  from_json j = do
    action ← read_action (lib.find "action" j)
    protocol ← lib.value_string "protocol" "rtmp" j
    schema ← lib.value_string "schema" protocol j
    app ← lib.value_string "app" "live" j
    stream ← lib.value_string "stream" "" j
    vhost ← lib.value_string "vhost" "__defaultVhost__" j
    id ← lib.value_string "id" "" j
    ip ← lib.value_string "ip" "" j
    some (record {
      action = action;
      protocol = parse_schema schema;
      app = app;
      stream = stream;
      vhost = vhost;
      client_id = id;
      ip = ip;
      params = params_of (lib.find "params" j);
    })
