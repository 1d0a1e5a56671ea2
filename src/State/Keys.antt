-- ===== src/State/Keys.antt =====
-- The key builders of src/repository/RedisStreamStateManager.cpp, and the time to live.
use stream_gate.Base.{String}
use stream_gate.Base.Int.{ℤ, pos}
use stream_gate.Base.Text.{◌++◌}

abbrev pub build_task_key : String → String → String
build_task_key stream_name client_id = "task:" ++ stream_name ++ ":" ++ client_id

abbrev pub build_publisher_key : String → String
build_publisher_key stream_name = "pub:" ++ stream_name

abbrev pub build_player_set_key : String → String
build_player_set_key stream_name = "players:" ++ stream_name

abbrev pub build_stream_meta_key : String → String
build_stream_meta_key stream_name = "meta:" ++ stream_name

abbrev pub build_active_publishers_key : String
build_active_publishers_key = "active_pubs"

abbrev pub build_global_player_count_key : String
build_global_player_count_key = "global_players"

abbrev pub build_task_timestamp_zset_key : String
build_task_timestamp_zset_key = "task_timestamps"

-- Written out at each use in the source.
abbrev pub member_key : String → String
member_key stream_name = "stream:members:" ++ stream_name

abbrev pub task_ttl_sec : ℤ
task_ttl_sec = pos 60
