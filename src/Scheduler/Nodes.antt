-- ===== src/Scheduler/Nodes.antt =====
-- The choice of a node in src/scheduler/StreamTaskScheduler.cpp, and the parts of
-- include/NodeConfig.h that it reads.
use stream_gate.Base.{ℕ, zero, suc, ◌+◌, ◌%◌, ◌^◌, String, List, [], ◌∷◌, length}
use stream_gate.Base.Int.{ℤ, pos}
use stream_gate.Task.{StreamProtocol, rtmp, srt}

pub record NodeEndpoint : Type 0 where
  pub host : String
  pub port : ℤ

pub record NodeConfig : Type 0 where
  pub rtmp_srt : List NodeEndpoint
  pub http_hls : List NodeEndpoint
  pub webrtc : List NodeEndpoint

-- `(*nodes)[i]` of a vector that is not empty.
abbrev pub nth : NodeEndpoint → List NodeEndpoint → ℕ → NodeEndpoint
nth first [] i = first
nth first (node ∷ rest) zero = first
nth first (node ∷ rest) (suc i) = nth node rest i

-- The cluster by the protocol.
abbrev pub cluster : NodeConfig → StreamProtocol → List NodeEndpoint
cluster config rtmp = config.rtmp_srt
cluster config srt = config.rtmp_srt
cluster config _ = config.http_hls

abbrev pub pick : List NodeEndpoint → ℕ → (String × ℤ) × ℕ
pick [] index = (("127.0.0.1", pos 1935), index)
pick (node ∷ rest) index =
    let chosen = nth node rest (index % length (node ∷ rest)) in
    ((chosen.host, chosen.port), (index + 1) % 2 ^ 64)

unfoldable pub select_best_node : NodeConfig → StreamProtocol → ℕ → (String × ℤ) × ℕ
select_best_node config protocol index = pick (cluster config protocol) index
