-- ===== src/NodeConfig/Checked.antt =====
-- What holds of a configuration of nodes that was read from a file.
use stream_gate.Base.{
  ℕ, zero, suc, ◌%◌, String, ◌≡◌, ◌≢◌, refl, Bool, true, false, Option, none, some, List, [], ◌∷◌,
  length, arith,
}
use stream_gate.Base.Maybe.{◌>>=◌, ◌>>◌, guard}
use stream_gate.Base.Text.{◌==◌}
use stream_gate.Json.{JsonLib}
use stream_gate.Scheduler.Nodes.{NodeEndpoint, NodeConfig, nth}
use stream_gate.NodeConfig.{
  is_valid, Category, rtmp_srt, http_hls, webrtc, unknown, ValidationOptions, default_options, Turn,
  counter, round_robin, get_round_robin_endpoint, check_endpoint, check_endpoints, validate_group,
  from_json, from_json_file, fill_if_present,
}

three_guards :
    (x y z : Bool) (made config : NodeConfig)
    → (guard x >> (guard y >> (guard z >> some made))) ≡ some config
    → (x ≡ true) × (y ≡ true) × (z ≡ true) × (made ≡ config)
three_guards true true true made config e = (refl, refl, refl, cc)
three_guards true true false made config e = cc
three_guards true false z made config e = cc
three_guards false y z made config e = cc

bind_some :
    {A B : Type 0} (m : Option A) (f : A → Option B) (b : B)
    → (m >>= f) ≡ some b
    → (a : A) × (m ≡ some a) × (f a ≡ some b)
bind_some none f b e = cc
bind_some (some a) f b e = (a, refl, e)

-- The three groups passed the checks.
abbrev pub IsChecked : ValidationOptions → NodeConfig → Type 0
IsChecked opts config =
    (validate_group opts config.rtmp_srt ≡ true)
    × (validate_group opts config.http_hls ≡ true)
    × (validate_group opts config.webrtc ≡ true)

module _ (lib : JsonLib) (is_null : lib.Json → Bool)
    (get_endpoints : lib.Json → Option (List NodeEndpoint)) where
  open lib use {Json}

  guards-IsChecked :
      (opts : ValidationOptions) (a b c : List NodeEndpoint) (config : NodeConfig)
      → (guard (validate_group opts a)
          >> (guard (validate_group opts b)
              >> (guard (validate_group opts c)
                  >> some (record { rtmp_srt = a; http_hls = b; webrtc = c }))))
        ≡ some config
      → IsChecked opts config
  guards-IsChecked opts a b c config e =
      let made : NodeConfig = record { rtmp_srt = a; http_hls = b; webrtc = c } in
      let (x, y, z, same) =
        three_guards (validate_group opts a) (validate_group opts b) (validate_group opts c) made
          config e in
      rw (← same) (x, y, z)

  filled-IsChecked :
      (opts : ValidationOptions) (a b c : Option (List NodeEndpoint)) (config : NodeConfig)
      → (a >>= λ rtmp. b >>= λ http. c >>= λ web.
          guard (validate_group opts rtmp)
          >> (guard (validate_group opts http)
              >> (guard (validate_group opts web)
                  >> some (record { rtmp_srt = rtmp; http_hls = http; webrtc = web }))))
        ≡ some config
      → IsChecked opts config
  filled-IsChecked opts none b c config e = cc
  filled-IsChecked opts (some x) none c config e = cc
  filled-IsChecked opts (some x) (some y) none config e = cc
  filled-IsChecked opts (some x) (some y) (some z) config e = guards-IsChecked opts x y z config e

  from_json-IsChecked :
      (opts : ValidationOptions) (j : Json) (config : NodeConfig)
      → from_json lib is_null get_endpoints opts j ≡ some config
      → IsChecked opts config
  from_json-IsChecked opts j config e =
      filled-IsChecked opts (fill_if_present lib is_null get_endpoints j "rtmp_srt" [])
        (fill_if_present lib is_null get_endpoints j "http_hls" [])
        (fill_if_present lib is_null get_endpoints j "webrtc" []) config e

  file-IsChecked :
      (file : Option String) (opts : ValidationOptions) (config : NodeConfig)
      → from_json_file lib is_null get_endpoints file opts ≡ some config
      → IsChecked opts config
  unfolding from_json_file
  file-IsChecked file opts config e =
      let (j, _, made) =
        bind_some (file >>= lib.parse) (from_json lib is_null get_endpoints opts) config e in
      from_json-IsChecked opts j config made

  nth-check :
      (opts : ValidationOptions) (node : NodeEndpoint) (rest : List NodeEndpoint) (i : ℕ)
      → check_endpoints opts (node ∷ rest) ≡ true
      → check_endpoint opts (nth node rest i) ≡ true
  nth-check opts node [] i h = ground (arith, h)
  nth-check opts node (next ∷ rest) zero h = ground (arith, h)
  nth-check opts node (next ∷ rest) (suc i) h = nth-check opts next rest i (ground (arith, h))

  abbrev IsUsable : NodeEndpoint → Type 0
  IsUsable ep = (is_valid ep ≡ true) × ((ep.host == "0.0.0.0") ≡ false)

  usable : (ep : NodeEndpoint) → check_endpoint default_options ep ≡ true → IsUsable ep
  unfolding is_valid
  usable ep h = ground (arith, h)

  group-IsUsable :
      (cat : Category) (nodes : List NodeEndpoint) (t : Turn)
      → validate_group default_options nodes ≡ true
      → (ep : NodeEndpoint) × ((round_robin cat nodes t).0 ≡ some ep) × IsUsable ep
  group-IsUsable cat [] t h = cc
  group-IsUsable cat (node ∷ rest) t h =
      let i = counter cat t % length (node ∷ rest) in
      (nth node rest i, refl, usable (nth node rest i) (nth-check default_options node rest i h))

  -- If a file of nodes was read under the default options, then for each of the three categories
  -- every call gives a node, with a host that is not empty and not 0.0.0.0 and a port from 1 to 65535.
  pub from_json_file-IsUsable :
      (file : Option String) (config : NodeConfig) (cat : Category) (t : Turn)
      → from_json_file lib is_null get_endpoints file default_options ≡ some config
      → cat ≢ unknown
      → (ep : NodeEndpoint) × ((get_round_robin_endpoint config cat t).0 ≡ some ep) × IsUsable ep
  unfolding get_round_robin_endpoint
  from_json_file-IsUsable file config rtmp_srt t e known =
      group-IsUsable rtmp_srt config.rtmp_srt t (file-IsChecked file default_options config e).0
  from_json_file-IsUsable file config http_hls t e known =
      group-IsUsable http_hls config.http_hls t (file-IsChecked file default_options config e).1
  from_json_file-IsUsable file config webrtc t e known =
      group-IsUsable webrtc config.webrtc t (file-IsChecked file default_options config e).2
  from_json_file-IsUsable file config unknown t e known = absurd (known refl)
