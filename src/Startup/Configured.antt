-- ===== src/Startup/Configured.antt =====
-- src/main/main.cpp: what is read from the configuration, with the values for keys that are not set.
use stream_gate.Base.{ℕ, zero, suc, ◌-◌, ◌^◌, String, true, false}
use stream_gate.Base.Int.{ℤ, pos, negsuc}
use stream_gate.Base.Text.{◌++◌}
use stream_gate.ConfigLoader.{ConfigLoader, get_string_or, get_int_or, get_bool_or}
use stream_gate.Logger.{LogLevel, debug, info, warning, error, fatal, other, Config}

pub record DbSettings : Type 0 where
  pub url : String
  pub user : String
  pub password : String
  pub min_size : ℤ
  pub max_size : ℤ
  pub checkout_timeout_ms : ℤ

pub record RedisSettings : Type 0 where
  pub host : String
  pub port : ℤ
  pub password : String
  pub pool_size : ℤ

pub record ServerSettings : Type 0 where
  pub address : String
  pub port : ℤ
  pub io_threads : ℤ

pub record Settings : Type 0 where
  pub log : Config
  pub db : DbSettings
  pub redis : RedisSettings
  pub pool_threads : ℕ
  pub auth_timeout_ms : ℤ
  pub task_timeout_s : ℤ
  pub server : ServerSettings

-- `static_cast<LogLevel>`
abbrev pub level_of : ℤ → LogLevel
level_of (pos zero) = debug
level_of (pos (suc zero)) = info
level_of (pos (suc (suc zero))) = warning
level_of (pos (suc (suc (suc zero)))) = error
level_of (pos (suc (suc (suc (suc zero))))) = fatal
level_of n = other n

-- An int that becomes a size_t.
abbrev pub to_size : ℤ → ℕ
to_size (pos n) = n
to_size (negsuc n) = 2 ^ 64 - suc n

-- The milliseconds are not read; they keep their default.
unfoldable pub log_cfg : ConfigLoader → Config
log_cfg l = record {
  min_level = level_of (get_int_or "LOG_LEVEL" (pos 1) l);
  log_to_console = get_bool_or "LOG_TO_CONSOLE" true l;
  log_to_file = get_bool_or "LOG_TO_FILE" false l;
  log_file_path = get_string_or "LOG_FILE_PATH" "streamgate.log" l;
  include_milliseconds = true;
}

unfoldable pub db_cfg : ConfigLoader → DbSettings
db_cfg l = record {
  url =
      "tcp://"
      ++ get_string_or "DB_HOST" "127.0.0.1" l
      ++ ":"
      ++ get_string_or "DB_PORT" "3306" l
      ++ "/"
      ++ get_string_or "DB_NAME" "streamgate_db" l;
  user = get_string_or "DB_USER" "root" l;
  password = get_string_or "DB_PASS" "" l;
  min_size = get_int_or "DB_MIN_SIZE" (pos 2) l;
  max_size = get_int_or "DB_MAX_SIZE" (pos 10) l;
  checkout_timeout_ms = get_int_or "DB_TIMEOUT_MS" (pos 5000) l;
}

unfoldable pub redis_cfg : ConfigLoader → RedisSettings
redis_cfg l = record {
  host = get_string_or "REDIS_HOST" "127.0.0.1" l;
  port = get_int_or "REDIS_PORT" (pos 6380) l;
  password = get_string_or "REDIS_PASS" "" l;
  pool_size = get_int_or "DB_POOL_SIZE" (pos 8) l;
}

unfoldable pub server_cfg : ConfigLoader → ServerSettings
server_cfg l = record {
  address = get_string_or "SERVER_ADDRESS" "0.0.0.0" l;
  port = get_int_or "SERVER_PORT" (pos 8080) l;
  io_threads = get_int_or "SERVER_IO_THREADS" (pos 2) l;
}

unfoldable pub settings_of : ConfigLoader → Settings
unfolding log_cfg db_cfg redis_cfg server_cfg
settings_of l = record {
  log = log_cfg l;
  db = db_cfg l;
  redis = redis_cfg l;
  pool_threads = to_size (get_int_or "THREAD_POOL_SIZE" (pos 4) l);
  auth_timeout_ms = get_int_or "AUTH_TIMEOUT_MS" (pos 5000) l;
  task_timeout_s = get_int_or "SCHEDULER_TIMEOUT_SEC" (pos 60) l;
  server = server_cfg l;
}
