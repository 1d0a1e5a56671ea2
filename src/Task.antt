-- ===== src/Task.antt =====
-- include/StreamTask.h: the task of one client on one stream, and the names of its enumerations;
-- `StreamProtocol` is from include/ZlmHookCommon.h.
pub mod Names
pub mod Fields
use stream_gate.Base.{ℕ, String, Bool, Option, if◌then◌else◌}
use stream_gate.Base.Int.{ℤ}
use stream_gate.Base.Text.{◌==◌, to_lower}

pub data StreamProtocol : Type 0 where
  rtmp http_flv hls rtsp webrtc srt http_ts http_fmp4 unknown : StreamProtocol

pub data StreamType : Type 0 where
  publisher player : StreamType

pub data StreamState : Type 0 where
  initializing active inactive error closed : StreamState

-- Time points are nanoseconds since the epoch. The two shared counters are null pointers (`none`)
-- unless a caller sets them.
pub record StreamTask : Type 0 where
  pub task_id : ℕ
  pub stream_name : String
  pub client_id : String
  pub type : StreamType
  pub state : StreamState
  pub protocol : StreamProtocol
  pub server_ip : String
  pub server_port : ℤ
  pub start_time : ℕ
  pub last_active_time : ℕ
  pub user_id : String
  pub auth_token : String
  pub region : Option String
  pub bandwidth_kbps : Option ℕ
  pub player_count : Option ℕ
  pub need_transcode : Bool
  pub need_record : Bool
  pub transcoding_profile : String

unfoldable pub protocol_to_string : StreamProtocol → String
protocol_to_string rtmp = "rtmp"
protocol_to_string rtsp = "rtsp"
protocol_to_string hls = "hls"
protocol_to_string http_flv = "http-flv"
protocol_to_string http_ts = "http-ts"
protocol_to_string http_fmp4 = "http-fmp4"
protocol_to_string webrtc = "webrtc"
protocol_to_string srt = "srt"
protocol_to_string unknown = "unknown"

unfoldable pub parse_protocol : String → StreamProtocol
unfolding to_lower
parse_protocol text =
    let s = to_lower text in
    if s == "rtmp"
    then rtmp
    else if s == "rtsp"
    then rtsp
    else if s == "hls"
    then hls
    else if s == "http-flv"
    then http_flv
    else if s == "http-ts"
    then http_ts
    else if s == "http-fmp4"
    then http_fmp4
    else if s == "webrtc"
    then webrtc
    else if s == "srt"
    then srt
    else unknown

unfoldable pub state_to_string : StreamState → String
state_to_string initializing = "initializing"
state_to_string active = "active"
state_to_string inactive = "inactive"
state_to_string error = "error"
state_to_string closed = "closed"

unfoldable pub parse_state : String → StreamState
parse_state s =
    if s == "initializing"
    then initializing
    else if s == "active"
    then active
    else if s == "inactive"
    then inactive
    else if s == "error"
    then error
    else if s == "closed"
    then closed
    else initializing

unfoldable pub type_to_string : StreamType → String
type_to_string publisher = "publisher"
type_to_string player = "player"

unfoldable pub parse_type : String → StreamType
parse_type s = if s == "publisher" then publisher else player
