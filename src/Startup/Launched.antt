-- ===== src/Startup/Launched.antt =====
-- src/main/main.cpp: when the program comes to wait for its signal.
use stream_gate.Base.{
  ◌≡◌, refl, ap, Bool, true, false, ◌&&◌, not, is_some, List, ◌∙◌, Option, none, some, eqb, ltb,
  arith,
}
use stream_gate.Base.Int.{ℤ, pos, leb_ℤ}
use stream_gate.Json.{JsonLib}
use stream_gate.Scheduler.Nodes.{NodeEndpoint}
use stream_gate.ConfigLoader.{load, next_config, new_loader}
use stream_gate.DbManager
use stream_gate.ThreadPool
use stream_gate.Startup.Configured.{Settings, settings_of}
use stream_gate.Startup.{
  World, loaded, Launch, unreachable, thrown, ready, with_pool, make_pool, with_ping, with_database,
  make_database, launch,
}

abbrev pub is_ready : {J : Type 0} → Launch J → Bool
is_ready unreachable = false
is_ready thrown = false
is_ready (ready r) = true

abbrev pub answers : Option Bool → Bool
answers none = false
answers (some b) = b

-- The sizes that the pool of connections accepts.
abbrev pub are_sizes : ℤ → ℤ → Bool
are_sizes min_size max_size = leb_ℤ (pos 0) min_size && leb_ℤ min_size max_size

-- The pool, the cleanup and the collector get their threads.
abbrev pub has_threads : World → Settings → Bool
has_threads w s =
    not (ltb w.max_threads s.pool_threads)
    && not (eqb s.pool_threads 0)
    && w.makes_cleanup
    && w.makes_refresh

module _ (lib : JsonLib) (is_null : lib.Json → Bool)
    (get_endpoints : lib.Json → Option (List NodeEndpoint)) (J : Type 0) where
  ready-pool :
      (w : World) (s : Settings) (db : DbManager.Manager)
      → is_ready {J = J}
          (with_pool lib is_null get_endpoints w s db (make_pool lib is_null get_endpoints w s))
        ≡ has_threads w s
  unfolding ThreadPool.new
  ready-pool w s db = ground arith

  ready-ping :
      (w : World) (s : Settings) (db : DbManager.Manager) (o : Option Bool)
      → is_ready {J = J} (with_ping lib is_null get_endpoints w s db o)
        ≡ (answers o && has_threads w s)
  ready-ping w s db none = refl
  ready-ping w s db (some false) = refl
  ready-ping w s db (some true) = ready-pool w s db

  ready-database :
      (w : World) (s : Settings) (o : Option DbManager.Manager)
      → is_ready {J = J} (with_database lib is_null get_endpoints w s o)
        ≡ (is_some o && answers w.pinged && has_threads w s)
  ready-database w s none = refl
  ready-database w s (some db) = ready-ping w s db w.pinged

makes :
    (w : World) (s : Settings)
    → is_some (make_database w s) ≡ (w.has_driver && are_sizes s.db.min_size s.db.max_size)
unfolding DbManager.new
makes w s = ground arith

-- The program comes to wait exactly if the sizes of the database pool are in order, there is a
-- driver, Redis answers, the thread pool has a number of threads that is not 0 and can be made, and
-- so can the threads of the cleanup and of the metrics.
-- Whether the configuration was loaded, the nodes were read and the server listens does not matter.
pub launch-is_ready :
    (lib : JsonLib) (is_null : lib.Json → Bool)
    (get_endpoints : lib.Json → Option (List NodeEndpoint)) (J : Type 0) (w : World)
    → let s = settings_of (loaded w) in
      is_ready {J = J} (launch lib is_null get_endpoints w) ≡ (
        (w.has_driver && are_sizes s.db.min_size s.db.max_size)
        && answers w.pinged
        && has_threads w s)
unfolding launch
launch-is_ready lib is_null get_endpoints J w =
    let s = settings_of (loaded w) in
    ready-database lib is_null get_endpoints J w s (make_database w s)
    ∙ ap (λ b. b && answers w.pinged && has_threads w s) (makes w s)

-- Where config/config.ini cannot be opened the settings are those of an empty configuration: neither
-- .env nor the environment counts, and the program goes on.
pub settings_of-loaded :
    (w : World)
    → w.open_file "config/config.ini" ≡ none
    → settings_of (loaded w) ≡ settings_of new_loader
unfolding loaded load next_config
settings_of-loaded w h = ground arith
