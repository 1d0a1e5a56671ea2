-- ===== src/Auth/Cached.antt =====
-- The texts that src/cache/CacheManager.cpp keeps for the authentication. `c` is the state of the
-- manager; what is not connected reads as missing.
use stream_gate.Base.{String, Option, none, some, value_or, if◌then◌else◌}
use stream_gate.Base.Decimal.{stoi, to_string_ℤ}
use stream_gate.Base.Int.{ℤ, pos, negsuc}
use stream_gate.Base.Maybe.{◌>>=◌}
use stream_gate.Base.Text.{◌==◌, ◌++◌}
use stream_gate.Redis.{Redis, setex}
use stream_gate.Cache.{CacheManager, cache_ttl, effective_ttl}
use stream_gate.Auth.{StreamAuthData}
use stream_gate.Json.{JsonLib}
use stream_gate.Auth.Json.{to_json, from_json}

abbrev pub cache_miss : ℤ
cache_miss = negsuc 0

abbrev pub cache_error : ℤ
cache_error = negsuc 1

abbrev pub build_key : String → String → String
build_key stream_key client_id = "auth:" ++ stream_key ++ ":" ++ client_id

module _ (r : Redis) (c : CacheManager) where
  open r use {Server}

  unfoldable pub get_string : String → Server → Option String
  get_string key s = if c.connected then value_or (r.get key s) none else none

  unfoldable pub set_string : String → String → ℤ → Server → Server
  set_string key value ttl s =
      if c.connected then (r.send (setex key (effective_ttl ttl) value) s).1 else s

  abbrev code_of : Option String → ℤ
  code_of none = cache_miss
  code_of (some val) = value_or (stoi val) cache_error

  unfoldable pub get_auth_result_by_key : String → Server → ℤ
  get_auth_result_by_key key s = if c.io_running then code_of (get_string key s) else cache_error

  unfoldable pub get_auth_result : String → String → Server → ℤ
  get_auth_result stream_key client_id s = get_auth_result_by_key (build_key stream_key client_id) s

  unfoldable pub set_auth_result_by_key : String → ℤ → Server → Server
  set_auth_result_by_key key result s =
      if c.io_running then set_string key (to_string_ℤ result) (pos cache_ttl) s else s

  unfoldable pub set_auth_result : String → String → ℤ → Server → Server
  set_auth_result stream_key client_id result s =
      set_auth_result_by_key (build_key stream_key client_id) result s

  module _ (lib : JsonLib) where
    abbrev pub read_data : Option String → Option StreamAuthData
    read_data none = none
    read_data (some text) = if text == "__EMPTY__" then none else (lib.parse text >>= from_json lib)

    unfoldable pub get_auth_data_by_key : String → Server → Option StreamAuthData
    get_auth_data_by_key key s = read_data (get_string key s)

    unfoldable pub get_auth_data_of : String → Server → Option StreamAuthData
    get_auth_data_of stream_key s = get_auth_data_by_key (build_key stream_key "data") s

    abbrev write_data : Option String → String → ℤ → Server → Server
    write_data none key ttl s = s
    write_data (some text) key ttl s = set_string key text (pos (effective_ttl ttl)) s

    unfoldable pub set_auth_data_by_key : String → StreamAuthData → ℤ → Server → Server
    set_auth_data_by_key key d ttl s = write_data (lib.dump (to_json lib d)) key ttl s

    unfoldable pub set_auth_data : StreamAuthData → ℤ → Server → Server
    set_auth_data d ttl s = set_auth_data_by_key (build_key d.stream_key "data") d ttl s

  unfoldable pub set_empty_auth_data : String → ℤ → Server → Server
  set_empty_auth_data key ttl s = set_string key "__EMPTY__" (pos (effective_ttl ttl)) s
