-- ===== src/HookServer.antt =====
-- src/main/HookServer.cpp and include/HookServer.h: the HTTP server that takes the hooks in.
pub mod Requests
pub mod Session
pub mod Answers
pub mod Served
pub mod Life
use stream_gate.Base.{
  ℕ, String, Bool, true, false, Option, none, some, [], ◌∷◌, if◌then◌else◌, value_or,
}
use stream_gate.Base.Int.{pos}
use stream_gate.Base.Maybe.{◌>>=◌}
use stream_gate.Base.Text.{◌==◌}
use stream_gate.Json.{JsonLib}
use stream_gate.Hook.{
  HookAction, publish, publish_done, play, play_done, stream_none_reader, stream_not_found,
  unknown_action, ZlmHookRequest, ZlmHookResult, success, auth_denied, invalid_format,
  unsupported_action, internal_error, timeout, resource_not_ready, ZlmHookResponse,
}
use stream_gate.Hook.Decode.{from_json}
use stream_gate.Hook.Params.{split_at}

pub data Verb : Type 0 where
  get post other_verb : Verb

pub record HttpRequest : Type 0 where
  pub verb : Verb
  pub target : String
  pub keep_alive : Bool
  pub body : String

-- What is dumped into the body: what the two reports show is not modelled.
pub data Body : Type 0 where
  metrics_report health_report : Body
  business : ℕ → String → Body

pub record HttpResponse : Type 0 where
  pub status : ℕ
  pub keep_alive : Bool
  pub body : Body

-- Either a response, or a hook for the controller.
pub data Handled : Type 0 where
  reply : HttpResponse → Handled
  forward : ZlmHookRequest → Handled

unfoldable pub map_path_to_action : String → HookAction
map_path_to_action path =
    if path == "/index/hook/on_publish"
    then publish
    else if path == "/index/hook/on_play"
    then play
    else if path == "/index/hook/on_publish_done"
    then publish_done
    else if path == "/index/hook/on_play_done"
    then play_done
    else if path == "/index/hook/on_stream_none_reader"
    then stream_none_reader
    else if path == "/index/hook/on_stream_not_found"
    then stream_not_found
    else unknown_action

abbrev pub map_to_http : ZlmHookResult → ℕ × ℕ
map_to_http success = (200, 0)
map_to_http auth_denied = (200, 1)
map_to_http invalid_format = (400, 2)
map_to_http unsupported_action = (400, 3)
map_to_http internal_error = (200, 4)
map_to_http timeout = (504, 5)
map_to_http resource_not_ready = (503, 6)

-- `target.substr(0, target.find('?'))`
abbrev pub path_of : String → String
path_of target = elim (split_at "?" target) [ none ↦ target | some (path, query) ↦ path ]

abbrev pub respond : HttpRequest → ℕ → Body → HttpResponse
respond req status body = record { status = status; keep_alive = req.keep_alive; body = body }

-- `send_response` up to the write.
unfoldable pub send_response : HttpRequest → ℕ → ℕ → String → HttpResponse
send_response req status code message = respond req status (business code message)

abbrev pub is_unknown : HookAction → Bool
is_unknown action = elim action [ unknown_action ↦ true | _ ↦ false ]

unfoldable pub handle_get : HttpRequest → String → HttpResponse
unfolding send_response
handle_get req path =
    if path == "/metrics"
    then respond req 200 metrics_report
    else if path == "/health"
    then respond req 200 health_report
    else send_response req 404 999 "Not found"

-- The callback that the controller is given.
unfoldable pub answer_of : HttpRequest → ZlmHookResponse → HttpResponse
unfolding send_response
answer_of req response =
    let (status, code) = map_to_http response.code in send_response req status code response.message

-- What is sent when the controller throws.
unfoldable pub controller_threw : HttpRequest → HttpResponse
unfolding send_response
controller_threw req =
    let (status, code) = map_to_http internal_error in
    send_response req status code "Internal service error"

module _ (lib : JsonLib) where
  open lib use {Json}

  -- The text of a body: one that cannot be dumped is replaced.
  unfoldable pub render : ℕ → String → String
  render code message =
      value_or
        (lib.dump
          (lib.object (("code", lib.of_int (pos code)) ∷ ("msg", lib.of_string message) ∷ [])))
        "{\"code\":500,\"msg\":\"internal error\"}"

  abbrev pub hand_over : HttpRequest → HookAction → Option ZlmHookRequest → Handled
  hand_over req action none = reply (send_response req 400 2 "Invalid hook format")
  hand_over req action (some hook) = forward (record hook { action = action })

  abbrev pub decode : HttpRequest → HookAction → Option Json → Handled
  decode req action none = reply (send_response req 400 2 "Protocol format error")
  decode req action (some j) = hand_over req action (from_json lib j)

  unfoldable pub handle_post : HttpRequest → HookAction → Handled
  handle_post req action =
      if is_unknown action
      then reply (send_response req 404 999 "Not found")
      else decode req action (lib.parse req.body)

  abbrev pub handle_verb : HttpRequest → String → Verb → Handled
  handle_verb req path get = reply (handle_get req path)
  handle_verb req path post = handle_post req (map_path_to_action path)
  handle_verb req path other_verb = reply (send_response req 405 999 "Method not allowed")

  unfoldable pub handle_request : HttpRequest → Handled
  handle_request req = handle_verb req (path_of req.target) req.verb
