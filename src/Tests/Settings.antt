-- ===== src/Tests/Settings.antt =====
-- The theorems on the settings, the nodes and the health checks.
use stream_gate.Base.{
  ℕ, String, ◌≡◌, refl, true, false, Option, none, some, List, [], ◌∷◌, arith, if◌then◌else◌, ltb,
}
use stream_gate.Base.Fields.{Fields, lookup}
use stream_gate.Base.Int.{pos}
use stream_gate.Base.Slots.{sum}
use stream_gate.Base.Text.{◌==◌}
use stream_gate.ConfigLoader.{new_loader, default_options, next_config, load, get_int_or}
use stream_gate.ConfigLoader.Entry.{line_of, parse_line-line_of}
use stream_gate.ConfigLoader.Lines.{parse_line}
use stream_gate.ConfigLoader.Lookup.{layers, env_text, next_config-lookup}
use stream_gate.ConfigLoader.Outcome.{IsAllOrNothing, load-IsAllOrNothing}
use stream_gate.DbManager as Db
use stream_gate.DbManager.{Manager, get_pool_stats, still, prefill, empty_manager, Answer}
use stream_gate.DbManager.Measures.{is_waiter}
use stream_gate.HealthChecker.{healthy, degraded, answered, check_database}
use stream_gate.HealthChecker.Database.{is_up, check_database-run}
use stream_gate.Json.{JsonLib}
use stream_gate.Startup.{World, loaded, launch}
use stream_gate.Startup.Configured.{settings_of}
use stream_gate.Startup.Launched.{is_ready, launch-is_ready}
use stream_gate.Scheduler.Nodes.{NodeConfig, NodeEndpoint}

abbrev files : String → Option String
files name =
    if name == "a.conf"
    then some "PORT = 80\nHOST=h"
    else if name == ".env"
    then some "PORT=81"
    else none

abbrev no_environment : String → Option String
no_environment key = if key == "DB_HOST" then some "db" else none

load_example :
    IsAllOrNothing files no_environment "a.conf" ".env" default_options
      (next_config files no_environment "a.conf" ".env" default_options)
      new_loader
      (load files no_environment "a.conf" ".env" default_options new_loader)
load_example = load-IsAllOrNothing files no_environment "a.conf" ".env" default_options new_loader

lookup_example :
    (next : Fields) × (next_config files no_environment "a.conf" ".env" default_options ≡ some next)
    × ((k : String)
        → lookup k next
          ≡ layers no_environment default_options (files "a.conf") (env_text files ".env") k)
lookup_example = next_config-lookup files no_environment default_options "a.conf" ".env" refl

line_example : parse_line (line_of "PORT" "80 = x") [] ≡ ("PORT", "80 = x") ∷ []
line_example = parse_line-line_of "PORT" "80 = x" [] refl

-- A pool whose two first connections are both lost.
abbrev driver : ℕ → Option ℕ
driver n = some n

abbrev conns : Manager
conns = prefill 2 driver (empty_manager 2 1)

conns_made : Db.new (pos 2) (pos 2) 1 driver ≡ some conns
unfolding Db.new
conns_made = refl

abbrev loses : Answer
loses = record { exchanged = true; is_valid = false; made = some 9; is_late = true }

abbrev losses : List Db.Event
losses =
    Db.turn 0 loses
    ∷ Db.turn 0 loses
    ∷ Db.turn 0 loses
    ∷ Db.turn 0 loses
    ∷ Db.turn 0 loses
    ∷ Db.turn 0 loses
    ∷ Db.turn 0 loses
    ∷ []

still_running : (Db.run losses conns).is_shutdown ≡ false
unfolding Db.run Db.step
still_running = refl

nothing_left : (Db.run losses conns).pool ≡ []
unfolding Db.run Db.step
nothing_left = refl

health_example :
    (is_up
        (check_database (some (answered (get_pool_stats (still (Db.run losses conns))) 3))).status
      ≡ true)
    × ((check_database (some (answered (get_pool_stats (still (Db.run losses conns))) 3))).status
        ≡ (if ltb 0 (sum is_waiter (Db.run losses conns).threads) then degraded else healthy))
health_example =
    check_database-run (pos 2) (pos 2) 1 driver conns conns_made (omega arith) (λ i. losses) 3
      (λ i. still_running)

abbrev node : String → NodeEndpoint
node host = record { host = host; port = pos 1935 }

abbrev three_nodes : NodeConfig
three_nodes = record { rtmp_srt = node "a" ∷ node "b" ∷ node "c" ∷ []; http_hls = []; webrtc = [] }

-- A JSON library that reads nothing.
abbrev unread : JsonLib
unread = record {
  Json = Unit {0};
  parse = λ t. none;
  dump = λ j. none;
  object = λ fs. tt;
  of_string = λ t. tt;
  of_bool = λ b. tt;
  of_int = λ z. tt;
  of_map = λ m. tt;
  value_string = λ k d j. none;
  value_bool = λ k d j. none;
  value_uint = λ k d j. none;
  has_object = λ k j. false;
  get_map = λ k j. none;
  find = λ k j. none;
  as_string = λ j. none;
  items = λ j. [];
}

-- There is no file at all, and the port is taken.
abbrev bare : World
bare = record {
  open_file = λ name. none;
  getenv = λ key. none;
  opens = λ path. false;
  has_driver = true;
  driver = λ n. some n;
  callers = 1;
  pinged = some true;
  max_threads = 1000;
  makes_cleanup = true;
  makes_refresh = true;
  given = record { is_address = true; opens = false; threads = none };
}

launch_example : is_ready {J = ℕ} (launch unread (λ j. true) (λ j. none) bare) ≡ true
unfolding loaded load next_config settings_of get_int_or
launch_example = launch-is_ready unread (λ j. true) (λ j. none) ℕ bare
