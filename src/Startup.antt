-- ===== src/Startup.antt =====
-- src/main/main.cpp: the settings that the parts are made with, and the start of the program up to
-- the moment at which it waits for a signal.
pub mod Configured
pub mod Launched
pub mod Lifetimes
use stream_gate.Base.{
  ℕ, ◌^◌, String, Bool, true, false, Option, none, some, List, [], ◌∷◌, ltb, if◌then◌else◌,
  value_or,
}
use stream_gate.Base.Maybe.{◌>>=◌}
use stream_gate.Json.{JsonLib}
use stream_gate.ConfigLoader.{ConfigLoader, LoadOptions, load, new_loader}
use stream_gate.DbManager.{Manager}
use stream_gate.DbManager
use stream_gate.HookServer.Life.{HookServer, Given, new_server, start}
use stream_gate.Logger.{Logger, new_logger, set_config}
use stream_gate.NodeConfig.{ValidationOptions, from_json_file}
use stream_gate.Scheduler.Nodes.{NodeConfig, NodeEndpoint}
use stream_gate.ThreadPool.{Pool}
use stream_gate.ThreadPool
use Configured.{Settings, settings_of}

-- What the start meets: the files, the environment, which log file opens, the driver and the
-- connections that it gives, what `ping` answers (`none`: it throws), how many threads a pool can
-- have, whether the threads of the cleanup and of the metrics can be made after it, and what the
-- start of the server meets. `callers`: the threads that will use the database.
pub record World : Type 0 where
  pub open_file : String → Option String
  pub getenv : String → Option String
  pub opens : String → Bool
  pub has_driver : Bool
  pub driver : ℕ → Option ℕ
  pub callers : ℕ
  pub pinged : Option Bool
  pub max_threads : ℕ
  pub makes_cleanup : Bool
  pub makes_refresh : Bool
  pub given : Given

abbrev pub load_options : LoadOptions
load_options = record {
  allow_missing_ini = false;
  allow_missing_env = true;
  override_from_environment = true;
  env_keys_to_load = [];
}

abbrev pub node_options : ValidationOptions
node_options = record {
  allow_empty_endpoints = false;
  strict_port_rang = true;
  require_valid_hosts = true;
}

abbrev pub no_nodes : NodeConfig
no_nodes = record { rtmp_srt = []; http_hls = []; webrtc = [] }

-- The loader after `load`, whose answer is dropped.
unfoldable pub loaded : World → ConfigLoader
loaded w = (load w.open_file w.getenv "config/config.ini" ".env" load_options new_loader).1

-- The parts that the program waits with. `is_serving`: what the start of the server answered.
pub record Ready (J : Type 0) : Type 0 where
  pub settings : Settings
  pub logger : Logger
  pub db_manager : Manager
  pub task_pool : Pool J
  pub node_cfg : NodeConfig
  pub server : HookServer
  pub is_serving : Bool

-- `unreachable`: Redis does not answer. `thrown`: an exception reaches `main`. Both exit with
-- EXIT_FAILURE.
pub data Launch (J : Type 0) : Type 0 where
  unreachable thrown : Launch J
  ready : Ready J → Launch J

abbrev pub make_database : World → Settings → Option Manager
make_database w s =
    if w.has_driver then DbManager.new s.db.min_size s.db.max_size w.callers w.driver else none

-- What `from_json_file` takes of the JSON library.
module _ (lib : JsonLib) (is_null : lib.Json → Bool)
    (get_endpoints : lib.Json → Option (List NodeEndpoint)) {J : Type 0} where
  -- All that comes after the starts of the scheduler and of the collector.
  abbrev pub serving : World → Settings → Manager → Pool J → Launch J
  serving w s db pool =
      let nodes =
        from_json_file lib is_null get_endpoints (w.open_file "config/nodes.json") node_options in
      let started = start w.given (new_server s.server.io_threads) in
      ready (record {
        settings = s;
        logger = (set_config w.opens s.log new_logger).0;
        db_manager = db;
        task_pool = pool;
        node_cfg = value_or nodes no_nodes;
        server = started.1;
        is_serving = started.0;
      })

  -- `metricsCollector.start()`, which throws if it cannot make its thread.
  abbrev pub with_scheduler : World → Settings → Manager → Pool J → Launch J
  with_scheduler w s db pool = if w.makes_refresh then serving w s db pool else thrown

  -- `scheduler->start()`, which throws if it cannot make its thread.
  abbrev pub with_pool : World → Settings → Manager → Option (Pool J) → Launch J
  with_pool w s db none = thrown
  with_pool w s db (some pool) = if w.makes_cleanup then with_scheduler w s db pool else thrown

  -- The pool of s.pool_threads workers, with the queue of 1000 that its constructor asks for.
  abbrev pub make_pool : World → Settings → Option (Pool J)
  make_pool w s =
      if ltb w.max_threads s.pool_threads
      then none
      else ThreadPool.new (record { num_threads = s.pool_threads; max_queue_size = 1000 })

  abbrev pub with_ping : World → Settings → Manager → Option Bool → Launch J
  with_ping w s db none = thrown
  with_ping w s db (some answered) =
      if answered then with_pool w s db (make_pool w s) else unreachable

  abbrev pub with_database : World → Settings → Option Manager → Launch J
  with_database w s none = thrown
  with_database w s (some db) = with_ping w s db w.pinged

  unfoldable pub launch : World → Launch J
  unfolding loaded
  launch w = let s = settings_of (loaded w) in with_database w s (make_database w s)
