-- ===== src/Task/Names.antt =====
-- The names of include/StreamTask.h read back.
use stream_gate.Base.{◌≡◌, refl}
use stream_gate.Task.{
  StreamProtocol, rtmp, StreamType, publisher, player, StreamState, initializing,
  protocol_to_string, parse_protocol, state_to_string, parse_state, type_to_string, parse_type,
}

-- The name of a protocol reads back as the protocol.
pub parse_protocol-protocol_to_string :
    (p : StreamProtocol) → parse_protocol (protocol_to_string p) ≡ p
unfolding parse_protocol protocol_to_string
parse_protocol-protocol_to_string rtmp = refl
parse_protocol-protocol_to_string _ = refl

pub parse_state-state_to_string : (s : StreamState) → parse_state (state_to_string s) ≡ s
unfolding parse_state state_to_string
parse_state-state_to_string initializing = refl
parse_state-state_to_string _ = refl

pub parse_type-type_to_string : (t : StreamType) → parse_type (type_to_string t) ≡ t
unfolding parse_type type_to_string
parse_type-type_to_string publisher = refl
parse_type-type_to_string player = refl
