-- ===== src/Metrics/Provider.antt =====
-- include/IMetricsProvider.h, and the providers of src/metrics: each keeps a snapshot, a value of the
-- JSON library, which `refresh` replaces.
use stream_gate.Base.{ℕ, String, Bool, true, false, Option, none, some, [], ◌∷◌, if◌then◌else◌}
use stream_gate.Base.Int.{pos, negsuc, ltb_ℤ}
use stream_gate.Json.{JsonLib}
use stream_gate.DbManager.{PoolStats, Moments, get_pool_stats}
use stream_gate.Metrics.Registry.{ThreadLocalRegistry}
use stream_gate.Metrics.Report.{server_refresh}
use stream_gate.Scheduler.{Counters}
use stream_gate.Scheduler.Metrics.{get_metrics, failed_pub, failed_play}

-- What a provider is, with the part that was injected into it; `none`: none was.
pub data Source : Type 0 where
  of_server : Source
  of_scheduler of_database of_cache : Bool → Source

abbrev pub metrics_name : Source → String
metrics_name of_server = "server_metrics"
metrics_name (of_scheduler injected) = "scheduler_metrics"
metrics_name (of_database injected) = "database_metrics"
metrics_name (of_cache injected) = "cache_metrics"

-- What the parts hold when `refresh` reads them. `ping`: what the cache answers (`none`: it throws)
-- and how many milliseconds that takes.
pub record Parts : Type 0 where
  pub registry : ThreadLocalRegistry
  pub counters : Counters
  pub manager : Moments
  pub ping : Option Bool
  pub rtt_ms : ℕ

module _ (lib : JsonLib) where
  open lib use {Json}

  -- `none` is a null pointer.
  pub record IMetricsProvider : Type 0 where
    pub source : Source
    pub metrics_cache : Option Json

  unfoldable pub new_provider : Source → IMetricsProvider
  new_provider source = record { source = source; metrics_cache = some (lib.object []) }

  unfoldable pub export_metrics : IMetricsProvider → Json
  export_metrics p = elim p.metrics_cache [ none ↦ lib.object [] | some j ↦ j ]

  unfoldable pub update_snapshot : Json → IMetricsProvider → IMetricsProvider
  update_snapshot j p = record p { metrics_cache = some j }

  unfoldable pub scheduler_json : Bool → Counters → Json
  scheduler_json false c =
      lib.object (("status", lib.of_string "initializing") ∷ ("ready", lib.of_bool false) ∷ [])
  scheduler_json true c =
      let m = get_metrics c in
      lib.object (
        ("total_publish_req", lib.of_int (pos m.total_publish_req))
        ∷ ("success_pub", lib.of_int (pos m.success_pub))
        ∷ ("failed_pub", lib.of_int (pos (failed_pub m)))
        ∷ ("total_play_req", lib.of_int (pos m.total_play_req))
        ∷ ("success_play", lib.of_int (pos m.success_play))
        ∷ ("failed_play", lib.of_int (pos (failed_play m)))
        ∷ ("auth_failures", lib.of_int (pos m.auth_failures))
        ∷ ("tasks_cleaned", lib.of_int (pos m.tasks_cleaned))
        ∷ ("timestamp_ms", lib.of_int (pos m.last_update_ms))
        ∷ [])

  unfoldable pub status_of : PoolStats → String
  status_of stats =
      if stats.is_ok
      then "connected"
      else if ltb_ℤ (pos 0) stats.current_size
      then "degraded"
      else "disconnected"

  unfoldable pub database_json : Bool → Moments → Json
  unfolding status_of
  database_json false m = lib.object (("status", lib.of_string "not_initialized") ∷ [])
  database_json true m =
      let stats = get_pool_stats m in
      lib.object (
        ("status", lib.of_string (status_of stats))
        ∷ ("is_healthy", lib.of_bool stats.is_ok)
        ∷ ("pool_size", lib.of_int stats.current_size)
        ∷ (
          "pool",
          lib.object (
              ("pool_size", lib.of_int stats.current_size)
              ∷ ("active", lib.of_int stats.active_count)
              ∷ ("idle", lib.of_int stats.idle_count)
              ∷ ("waiting", lib.of_int stats.wait_count)
              ∷ []),
        )
        ∷ [])

  abbrev pub pinged_json : Bool → ℕ → Json
  pinged_json true rtt = lib.object (
      ("status", lib.of_string "connected")
      ∷ ("connected", lib.of_bool true)
      ∷ ("latency_ms", lib.of_int (pos rtt))
      ∷ ("last_check_ok", lib.of_bool true)
      ∷ [])
  pinged_json false rtt = lib.object (
      ("status", lib.of_string "disconnected")
      ∷ ("connected", lib.of_bool false)
      ∷ ("latency_ms", lib.of_int (negsuc 0))
      ∷ ("last_check_ok", lib.of_bool false)
      ∷ [])

  -- `none`: an exception of `ping`, which ends the program, since `refresh` is noexcept.
  unfoldable pub cache_json : Bool → Option Bool → ℕ → Option Json
  cache_json false o rtt = some (
      lib.object
        (("status", lib.of_string "not_initialized") ∷ ("connected", lib.of_bool false) ∷ []))
  cache_json true none rtt = none
  cache_json true (some is_connected) rtt = some (pinged_json is_connected rtt)

  -- The snapshot that `refresh` of a provider builds.
  unfoldable pub snapshot : Source → Parts → Option Json
  unfolding scheduler_json database_json cache_json
  snapshot of_server w = some (lib.of_string (server_refresh w.registry))
  snapshot (of_scheduler injected) w = some (scheduler_json injected w.counters)
  snapshot (of_database injected) w = some (database_json injected w.manager)
  snapshot (of_cache injected) w = cache_json injected w.ping w.rtt_ms

  abbrev pub refreshed : Option Json → IMetricsProvider → Option IMetricsProvider
  refreshed none p = none
  refreshed (some j) p = some (update_snapshot j p)

  unfoldable pub refresh : Parts → IMetricsProvider → Option IMetricsProvider
  unfolding snapshot update_snapshot
  refresh w p = refreshed (snapshot p.source w) p
