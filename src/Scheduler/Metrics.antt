-- ===== src/Scheduler/Metrics.antt =====
-- `getMetrics` of src/scheduler/StreamTaskScheduler.cpp, what
-- src/metrics/SchedulerMetricsProvider.cpp derives from it, and what the counters count.
pub mod Counted
use stream_gate.Base.{
  ℕ, suc, ◌+◌, ◌-◌, ◌%◌, ◌^◌, ◌≤◌, ◌≡◌, Bool, true, false, Option, none, some, List, [], ◌∷◌,
  if◌then◌else◌,
}
use stream_gate.Base.Int.{ℤ}
use stream_gate.Redis.{Redis}
use stream_gate.Scheduler.{
  auth_failed, SchedulerResult, Counters, Request, Clock, published, played, on_publish, on_play,
}
use stream_gate.Scheduler.Granted.{is_granted}
use stream_gate.Scheduler.Nodes.{NodeConfig}

pub record Metrics : Type 0 where
  pub total_publish_req : ℕ
  pub success_pub : ℕ
  pub total_play_req : ℕ
  pub success_play : ℕ
  pub auth_failures : ℕ
  pub tasks_cleaned : ℕ
  pub last_update_ms : ℕ

-- The time of the update is left at its default.
unfoldable pub get_metrics : Counters → Metrics
get_metrics c = record {
  total_publish_req = c.total_publish_req;
  success_pub = c.success_pub;
  total_play_req = c.total_play_req;
  success_play = c.success_play;
  auth_failures = c.auth_fail;
  tasks_cleaned = c.tasks_cleaned;
  last_update_ms = 0;
}

-- A difference of two 64-bit counters.
abbrev pub minus : ℕ → ℕ → ℕ
minus a b = (a + 2 ^ 64 - b) % 2 ^ 64

-- The two counts that `refresh` adds to the metrics.
unfoldable pub failed_pub : Metrics → ℕ
failed_pub m = minus m.total_publish_req m.success_pub

unfoldable pub failed_play : Metrics → ℕ
failed_play m = minus m.total_play_req m.success_play

-- A hook, and the code that the authentication calls back with.
pub data Asked : Type 0 where
  to_publish to_play : Clock → Request → Option ℤ → Asked

abbrev pub one_if : Bool → ℕ
one_if b = if b then 1 else 0

abbrev pub was_denied : Option SchedulerResult → Bool
was_denied none = false
was_denied (some result) = elim result.error [ auth_failed ↦ true | _ ↦ false ]

-- How many of each kind there were.
pub record Tally : Type 0 where
  pub publishes : ℕ
  pub published : ℕ
  pub plays : ℕ
  pub played : ℕ
  pub denied : ℕ

abbrev pub no_tally : Tally
no_tally = record { publishes = 0; published = 0; plays = 0; played = 0; denied = 0 }

abbrev pub count_publish : Option SchedulerResult → Tally → Tally
count_publish o t = record t {
  publishes = suc t.publishes;
  published = one_if (is_granted o) + t.published;
  denied = one_if (was_denied o) + t.denied;
}

abbrev pub count_play : Option SchedulerResult → Tally → Tally
count_play o t = record t {
  plays = suc t.plays;
  played = one_if (is_granted o) + t.played;
  denied = one_if (was_denied o) + t.denied;
}

-- The counters are what was counted, modulo 2 ^ 64.
pub record IsCount (t : Tally) (c : Counters) : Type 0 where
  pub of_publishes : c.total_publish_req ≡ t.publishes % 2 ^ 64
  pub of_published : c.success_pub ≡ t.published % 2 ^ 64
  pub of_plays : c.total_play_req ≡ t.plays % 2 ^ 64
  pub of_played : c.success_play ≡ t.played % 2 ^ 64
  pub of_denied : c.auth_fail ≡ t.denied % 2 ^ 64
  pub no_more_published : t.published ≤ t.publishes
  pub no_more_played : t.played ≤ t.plays

-- The metrics that are reported are what was counted, modulo 2 ^ 64.
pub record IsReported (t : Tally) (m : Metrics) : Type 0 where
  pub all_publishes : m.total_publish_req ≡ t.publishes % 2 ^ 64
  pub granted_publishes : m.success_pub ≡ t.published % 2 ^ 64
  pub all_plays : m.total_play_req ≡ t.plays % 2 ^ 64
  pub granted_plays : m.success_play ≡ t.played % 2 ^ 64
  pub denials : m.auth_failures ≡ t.denied % 2 ^ 64

module _ (r : Redis) (nodes : NodeConfig) where
  open r use {Server}

  abbrev pub ask : Asked → Tally → Counters → Server → Tally × Counters × Server
  ask (to_publish t q code) tally c s =
      let (o, c', s') = on_publish r nodes t q code c s in (count_publish o tally, c', s')
  ask (to_play t q code) tally c s =
      let (o, c', s') = on_play r nodes t q code c s in (count_play o tally, c', s')

  unfoldable pub ask_all : List Asked → Tally → Counters → Server → Tally × Counters × Server
  ask_all [] tally c s = (tally, c, s)
  ask_all (a ∷ rest) tally c s = let (tally', c', s') = ask a tally c s in ask_all rest tally' c' s'
