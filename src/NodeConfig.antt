-- ===== src/NodeConfig.antt =====
-- src/util/NodeConfig.cpp and include/NodeConfig.h: the media servers, and the turns they take.
pub mod Checked
pub mod Turns
use stream_gate.Base.{
  ℕ, ◌+◌, ◌%◌, ◌^◌, String, Bool, true, false, not, ◌&&◌, ◌||◌, Option, none, some, List, [], ◌∷◌,
  length, if◌then◌else◌,
}
use stream_gate.Base.Int.{pos, ltb_ℤ, leb_ℤ}
use stream_gate.Base.Decimal.{to_string_ℤ}
use stream_gate.Base.Maybe.{◌>>=◌, ◌>>◌, guard}
use stream_gate.Base.Text.{◌==◌, ◌++◌, is_empty, to_lower}
use stream_gate.Json.{JsonLib}
use stream_gate.Scheduler.Nodes.{NodeEndpoint, NodeConfig, nth}

unfoldable pub is_valid : NodeEndpoint → Bool
is_valid ep = not (is_empty ep.host) && ltb_ℤ (pos 0) ep.port && leb_ℤ ep.port (pos 65535)

unfoldable pub to_string : NodeEndpoint → String
to_string ep = ep.host ++ ":" ++ to_string_ℤ ep.port

pub data Category : Type 0 where
  rtmp_srt http_hls webrtc unknown : Category

pub record ValidationOptions : Type 0 where
  pub allow_empty_endpoints : Bool
  pub strict_port_rang : Bool
  pub require_valid_hosts : Bool

abbrev pub default_options : ValidationOptions
default_options = record {
  allow_empty_endpoints = false;
  strict_port_rang = true;
  require_valid_hosts = true;
}

abbrev pub get_endpoints_by_cat : NodeConfig → Category → List NodeEndpoint
get_endpoints_by_cat config rtmp_srt = config.rtmp_srt
get_endpoints_by_cat config http_hls = config.http_hls
get_endpoints_by_cat config webrtc = config.webrtc
get_endpoints_by_cat config unknown = []

-- The three atomic counters.
pub record Turn : Type 0 where
  pub rr_rtmp : ℕ
  pub rr_http : ℕ
  pub rr_webrtc : ℕ

abbrev pub first_turn : Turn
first_turn = record { rr_rtmp = 0; rr_http = 0; rr_webrtc = 0 }

abbrev pub bump : ℕ → ℕ
bump n = (n + 1) % 2 ^ 64

abbrev pub counter : Category → Turn → ℕ
counter rtmp_srt t = t.rr_rtmp
counter http_hls t = t.rr_http
counter webrtc t = t.rr_webrtc
counter unknown t = 0

abbrev advance : Category → Turn → Turn
advance rtmp_srt t = record t { rr_rtmp = bump t.rr_rtmp }
advance http_hls t = record t { rr_http = bump t.rr_http }
advance webrtc t = record t { rr_webrtc = bump t.rr_webrtc }
advance unknown t = t

abbrev pub round_robin : Category → List NodeEndpoint → Turn → Option NodeEndpoint × Turn
round_robin cat [] t = (none, t)
round_robin cat (node ∷ rest) t =
    (some (nth node rest (counter cat t % length (node ∷ rest))), advance cat t)

-- `none`: the call throws.
unfoldable pub get_round_robin_endpoint : NodeConfig → Category → Turn → Option NodeEndpoint × Turn
get_round_robin_endpoint config cat t = round_robin cat (get_endpoints_by_cat config cat) t

abbrev at_random : (ℕ → ℕ) → List NodeEndpoint → Option NodeEndpoint
at_random draw [] = none
at_random draw (node ∷ rest) = some (nth node rest (draw (length rest)))

-- `draw n` is a random number from 0 to n, by std::uniform_int_distribution.
unfoldable pub get_random_endpoint : (ℕ → ℕ) → NodeConfig → Category → Option NodeEndpoint
get_random_endpoint draw config cat = at_random draw (get_endpoints_by_cat config cat)

unfoldable pub string_to_category : String → Category
unfolding to_lower
string_to_category category =
    let norm = to_lower category in
    if norm == "rtmp" || norm == "srt" || norm == "rtmp_srt"
    then rtmp_srt
    else if norm == "http" || norm == "hls" || norm == "http_hls"
    then http_hls
    else if norm == "webrtc"
    then webrtc
    else unknown

-- One node of a group.
abbrev pub check_endpoint : ValidationOptions → NodeEndpoint → Bool
check_endpoint opts ep =
    not (opts.require_valid_hosts && (is_empty ep.host || ep.host == "0.0.0.0"))
    && not (opts.strict_port_rang && (leb_ℤ ep.port (pos 0) || ltb_ℤ (pos 65535) ep.port))

abbrev pub check_endpoints : ValidationOptions → List NodeEndpoint → Bool
check_endpoints opts [] = true
check_endpoints opts (ep ∷ rest) = check_endpoint opts ep && check_endpoints opts rest

abbrev pub has_nodes : List NodeEndpoint → Bool
has_nodes [] = false
has_nodes (ep ∷ rest) = true

-- `false`: it throws.
abbrev pub validate_group : ValidationOptions → List NodeEndpoint → Bool
validate_group opts endpoints =
    (opts.allow_empty_endpoints || has_nodes endpoints) && check_endpoints opts endpoints

-- Of the JSON library too: `is_null`, and `get_to` for a vector of nodes.
module _ (lib : JsonLib) (is_null : lib.Json → Bool)
    (get_endpoints : lib.Json → Option (List NodeEndpoint)) where
  open lib use {Json}

  abbrev fill : Option Json → List NodeEndpoint → Option (List NodeEndpoint)
  fill none target = some target
  fill (some val) target = if is_null val then some target else get_endpoints val

  abbrev pub fill_if_present : Json → String → List NodeEndpoint → Option (List NodeEndpoint)
  fill_if_present j key target = fill (lib.find key j) target

  abbrev pub from_json : ValidationOptions → Json → Option NodeConfig
  from_json opts j = do
    rtmp ← fill_if_present j "rtmp_srt" []
    http ← fill_if_present j "http_hls" []
    webrtc_nodes ← fill_if_present j "webrtc" []
    guard (validate_group opts rtmp)
    guard (validate_group opts http)
    guard (validate_group opts webrtc_nodes)
    some (record { rtmp_srt = rtmp; http_hls = http; webrtc = webrtc_nodes })

  -- The text of the file, if it can be opened; `none`: the call throws.
  unfoldable pub from_json_file : Option String → ValidationOptions → Option NodeConfig
  from_json_file file opts = ((file >>= lib.parse) >>= from_json opts)
