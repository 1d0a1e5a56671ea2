-- ===== src/Auth/Json.antt =====
-- The conversions of include/StreamAuthData.h and of src/models/StreamAuthData.cpp.
use stream_gate.Base.{
  ℕ, ◌-◌, ◌^◌, ltb, String, false, Option, none, some, [], ◌∷◌, value_or, if◌then◌else◌,
}
use stream_gate.Base.Int.{ℤ, pos, negsuc}
use stream_gate.Base.Maybe.{◌>>=◌}
use stream_gate.Base.Text.{is_empty}
use stream_gate.Auth.{StreamAuthData}
use stream_gate.Json.{JsonLib}

-- An unsigned 64-bit number, stored in a signed one.
abbrev to_signed : ℕ → ℤ
to_signed n = if ltb n (2 ^ 63) then pos n else negsuc (2 ^ 64 - 1 - n)

module _ (lib : JsonLib) where
  open lib use {Json}

  unfoldable pub to_json : StreamAuthData → Json
  to_json d = lib.object (
      ("streamKey", lib.of_string d.stream_key)
      ∷ ("clientId", lib.of_string d.client_id)
      ∷ ("authToken", lib.of_string d.auth_token)
      ∷ ("isAuthorized", lib.of_bool d.is_authorized)
      ∷ ("metadata", lib.of_map d.metadata)
      ∷ ("expireTime", lib.of_int d.expire_time)
      ∷ [])

  unfoldable pub from_json : Json → Option StreamAuthData
  from_json j = do
    stream_key ← lib.value_string "streamKey" "" j
    client_id ← lib.value_string "clientId" "" j
    auth_token ← lib.value_string "authToken" "" j
    is_authorized ← lib.value_bool "isAuthorized" false j
    metadata ← (if lib.has_object "metadata" j then lib.get_map "metadata" j else some [])
    expire_time ← lib.value_uint "expireTime" 0 j
    some (record {
      stream_key = stream_key;
      client_id = client_id;
      auth_token = auth_token;
      is_authorized = is_authorized;
      expire_time = to_signed expire_time;
      metadata = metadata;
    })

  -- An exception gives the empty text.
  unfoldable pub serialize : StreamAuthData → String
  serialize d = value_or (lib.dump (to_json d)) ""

  abbrev with_stream : StreamAuthData → Option StreamAuthData
  with_stream d = if is_empty d.stream_key then none else some d

  unfoldable pub deserialize : String → Option StreamAuthData
  deserialize text =
      if is_empty text then none else ((lib.parse text >>= from_json) >>= with_stream)
