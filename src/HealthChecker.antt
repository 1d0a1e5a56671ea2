-- ===== src/HealthChecker.antt =====
-- src/util/HealthChecker.cpp and include/HealthChecker.h: how well the parts of the program are.
pub mod Score
pub mod Database
use stream_gate.Base.{
  ℕ, ◌+◌, ◌/◌, ◌%◌, ◌^◌, String, Bool, true, false, ◌||◌, Option, none, some, List, [], ◌∷◌, length,
  ltb, if◌then◌else◌,
}
use stream_gate.Base.Decimal.{to_string, to_string_ℤ}
use stream_gate.Base.Int.{ℤ, pos, ltb_ℤ}
use stream_gate.Base.Text.{◌++◌}
use stream_gate.Json.{JsonLib}
use stream_gate.DbManager.{PoolStats}

pub data HealthStatus : Type 0 where
  healthy degraded unhealthy : HealthStatus

pub record ComponentHealth : Type 0 where
  pub name : String
  pub status : HealthStatus
  pub details : String
  pub response_time_ms : ℕ

pub record HealthReport : Type 0 where
  pub overall_status : HealthStatus
  pub components : List ComponentHealth
  pub timestamp : String
  pub score : ℕ

abbrev pub status_to_string : HealthStatus → String
status_to_string healthy = "healthy"
status_to_string degraded = "degraded"
status_to_string unhealthy = "unhealthy"

-- What a part answers, and how many milliseconds that takes; or the text of its exception.
pub data Probe (A : Type 0) : Type 0 where
  answered : A → ℕ → Probe A
  threw : String → Probe A

abbrev redis_health : HealthStatus → String → ℕ → ComponentHealth
redis_health status details time = record {
  name = "redis";
  status = status;
  details = details;
  response_time_ms = time;
}

-- `none`: there is no cache. The probe is of its `ping`.
unfoldable pub check_redis : Option (Probe Bool) → ComponentHealth
check_redis none = redis_health unhealthy "uninitialized" 0
check_redis (some (answered connected time)) =
    if connected
    then (if ltb 50 time
        then redis_health degraded "high latency" time
        else redis_health healthy "ok" time)
    else redis_health unhealthy "redis connection lost" time
check_redis (some (threw what)) = redis_health unhealthy ("exception: " ++ what) 0

abbrev database_health : HealthStatus → String → ℕ → ComponentHealth
database_health status details time = record {
  name = "database";
  status = status;
  details = details;
  response_time_ms = time;
}

abbrev pub is_zero : ℤ → Bool
is_zero z = if ltb_ℤ z (pos 0) then false else if ltb_ℤ (pos 0) z then false else true

abbrev pub is_pressed : PoolStats → Bool
is_pressed stats = ltb_ℤ (pos 0) stats.wait_count || is_zero stats.idle_count

-- The probe is of `getPoolStats`.
unfoldable pub check_database : Option (Probe PoolStats) → ComponentHealth
check_database none = database_health unhealthy "uninitialized" 0
check_database (some (answered stats time)) =
    if stats.is_ok
    then (if is_pressed stats
        then database_health degraded
            ("pool pressure (waiting: " ++ to_string_ℤ stats.wait_count ++ ")") time
        else database_health healthy
            ("pool usage: "
              ++ to_string_ℤ stats.active_count
              ++ "/"
              ++ to_string_ℤ stats.current_size)
            time)
    else database_health unhealthy "db self-check failed" time
check_database (some (threw what)) = database_health unhealthy ("exception: " ++ what) 0

abbrev scheduler_health : HealthStatus → String → ComponentHealth
scheduler_health status details = record {
  name = "scheduler";
  status = status;
  details = details;
  response_time_ms = 0;
}

-- The probe is of `getMetrics`: the requests to publish, and those to play.
unfoldable pub check_scheduler : Option (Probe (ℕ × ℕ)) → ComponentHealth
check_scheduler none = scheduler_health unhealthy "uninitialized"
check_scheduler (some (answered (publish_req, play_req) time)) =
    scheduler_health healthy
      ("processed_requests: " ++ to_string ((publish_req + play_req) % 2 ^ 64))
check_scheduler (some (threw what)) = scheduler_health unhealthy "internal error"

-- The loop, by whether it has met a degraded part.
abbrev pub overall_from : Bool → List ComponentHealth → HealthStatus
overall_from has_degraded [] = if has_degraded then degraded else healthy
overall_from has_degraded (comp ∷ rest) = elim comp.status [
  | unhealthy ↦ unhealthy
  | degraded ↦ overall_from true rest
  | healthy ↦ overall_from has_degraded rest
]

unfoldable pub calculate_overall_status : List ComponentHealth → HealthStatus
calculate_overall_status components = overall_from false components

abbrev pub points : HealthStatus → ℕ
points healthy = 100
points degraded = 50
points unhealthy = 0

abbrev pub total_score : List ComponentHealth → ℕ
total_score [] = 0
total_score (comp ∷ rest) = points comp.status + total_score rest

unfoldable pub calculate_health_score : List ComponentHealth → ℕ
calculate_health_score [] = 0
calculate_health_score (comp ∷ rest) = total_score (comp ∷ rest) / length (comp ∷ rest)

-- `timestamp` is the time of the check, as a text.
unfoldable pub check :
    String → Option (Probe Bool) → Option (Probe PoolStats) → Option (Probe (ℕ × ℕ)) → HealthReport
unfolding calculate_overall_status calculate_health_score
check timestamp cache db scheduler =
    let components = check_redis cache ∷ check_database db ∷ check_scheduler scheduler ∷ [] in
    record {
      overall_status = calculate_overall_status components;
      components = components;
      timestamp = timestamp;
      score = calculate_health_score components;
    }

module _ (lib : JsonLib) where
  open lib use {Json}

  abbrev latency : ℕ → List (String × Json)
  latency time = if ltb 0 time then ("latency_ms", lib.of_int (pos time)) ∷ [] else []

  abbrev component_json : ComponentHealth → String × Json
  component_json comp = (
    comp.name,
    lib.object (
        ("status", lib.of_string (status_to_string comp.status))
        ∷ ("details", lib.of_string comp.details)
        ∷ latency comp.response_time_ms),
  )

  abbrev components_json : List ComponentHealth → List (String × Json)
  components_json [] = []
  components_json (comp ∷ rest) = component_json comp ∷ components_json rest

  -- The components of a report have different names.
  unfoldable pub to_json : HealthReport → Json
  to_json report = lib.object (
      ("status", lib.of_string (status_to_string report.overall_status))
      ∷ ("timestamp", lib.of_string report.timestamp)
      ∷ ("score", lib.of_int (pos report.score))
      ∷ ("components", lib.object (components_json report.components))
      ∷ [])
