-- ===== src/Hook.antt =====
-- src/util/ZlmHookCommon.cpp and include/ZlmHookCommon.h: the hooks that the media server calls.
pub mod Params
pub mod Decode
pub mod Query
pub mod Route
pub mod Answers
use stream_gate.Base.{
  String, Bool, true, false, ◌||◌, Option, none, some, List, [], ◌∷◌, value_or, if◌then◌else◌,
}
use stream_gate.Base.Fields.{Fields, lookup}
use stream_gate.Base.Text.{◌==◌, ◌++◌, occurs}
use stream_gate.Task.{StreamProtocol, rtmp, http_flv, hls, rtsp, webrtc, unknown}

pub data HookAction : Type 0 where
  publish publish_done play play_done stream_none_reader stream_not_found unknown_action :
      HookAction

pub data ZlmHookResult : Type 0 where
  success auth_denied invalid_format unsupported_action internal_error timeout resource_not_ready :
      ZlmHookResult

-- `params` is a std::map; its newest entries stand first.
pub record ZlmHookRequest : Type 0 where
  pub action : HookAction
  pub protocol : StreamProtocol
  pub app : String
  pub stream : String
  pub vhost : String
  pub client_id : String
  pub ip : String
  pub params : Fields

pub record ZlmHookResponse : Type 0 where
  pub code : ZlmHookResult
  pub message : String

pub data Outcome : Type 0 where
  allow deny defer : Outcome

pub record HookDecision : Type 0 where
  pub outcome : Outcome
  pub reason : String

abbrev pub stream_key : ZlmHookRequest → String
stream_key req = req.vhost ++ "/" ++ req.app ++ "/" ++ req.stream

abbrev pub get_token : ZlmHookRequest → String
get_token req = value_or (lookup "token" req.params) ""

unfoldable pub parse_action : String → HookAction
parse_action s =
    if s == "on_publish"
    then publish
    else if s == "on_play"
    then play
    else if s == "on_publish_done"
    then publish_done
    else if s == "on_play_done"
    then play_done
    else if s == "on_stream_none_reader"
    then stream_none_reader
    else unknown_action

-- The hook's own table of protocols, which is shorter than the one of the tasks.
unfoldable pub parse_schema : String → StreamProtocol
parse_schema s =
    if s == "rtmp"
    then rtmp
    else if s == "http-flv"
    then http_flv
    else if s == "hls"
    then hls
    else if s == "rtsp"
    then rtsp
    else if s == "webrtc"
    then webrtc
    else unknown

abbrev pub allowed : HookDecision
allowed = record { outcome = allow; reason = "success" }

abbrev pub denied : String → HookDecision
denied reason = record { outcome = deny; reason = reason }

-- A reason is matched for three English words.
abbrev respond : Outcome → String → ZlmHookResponse
respond allow reason = record { code = success; message = "success" }
respond defer reason = record { code = timeout; message = "processing" }
respond deny reason =
    if occurs "auth" reason || occurs "Identity" reason || occurs "not found" reason
    then record { code = auth_denied; message = reason }
    else record { code = internal_error; message = reason }

unfoldable pub to_response : HookDecision → ZlmHookResponse
to_response d = respond d.outcome d.reason
