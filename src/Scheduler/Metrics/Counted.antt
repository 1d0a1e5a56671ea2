-- ===== src/Scheduler/Metrics/Counted.antt =====
-- The counters of the scheduler count what its hooks were answered.
use stream_gate.Base.{
  zero, suc, ◌-◌, ◌%◌, ◌^◌, ◌≤◌, ◌<◌, ◌≡◌, refl, Bool, true, false, Option, none, some, List, [],
  ◌∷◌, arith,
}
use stream_gate.Base.Int.{ℤ, pos, negsuc}
use stream_gate.Task.{StreamTask, player}
use stream_gate.Redis.{Redis}
use stream_gate.State.Query.{get_publisher_task}
use stream_gate.State.Register.{register_task}
use stream_gate.Scheduler.{
  Counters, fresh_counters, Request, Clock, validate_request, bump, published, played,
  publisher_task, new_task, play_from, publish_authorized, play_authorized, on_publish, on_play,
}
use stream_gate.Scheduler.Nodes.{NodeConfig}
use stream_gate.Scheduler.Metrics.{
  get_metrics, failed_pub, failed_play, Asked, to_publish, to_play, Tally, no_tally, count_publish,
  count_play, IsCount, IsReported, ask, ask_all,
}

module _ (r : Redis) (nodes : NodeConfig) where
  open r use {Server}

  module _ (tally : Tally) (c : Counters) (h : IsCount tally c) where
    known :
        (c.total_publish_req ≡ tally.publishes % 2 ^ 64)
        × (c.success_pub ≡ tally.published % 2 ^ 64)
        × (c.total_play_req ≡ tally.plays % 2 ^ 64)
        × (c.success_play ≡ tally.played % 2 ^ 64)
        × (c.auth_fail ≡ tally.denied % 2 ^ 64)
        × (tally.published ≤ tally.publishes)
        × (tally.played ≤ tally.plays)
    known = (
      h.of_publishes, h.of_published, h.of_plays, h.of_played, h.of_denied, h.no_more_published,
      h.no_more_played,
    )

    published-IsCount :
        (task : StreamTask) (x : Bool × Server) (c' : Counters)
        → c'.total_publish_req ≡ bump c.total_publish_req
        → c'.success_pub ≡ c.success_pub
        → c'.total_play_req ≡ c.total_play_req
        → c'.success_play ≡ c.success_play
        → c'.auth_fail ≡ c.auth_fail
        → IsCount
            (count_publish (some (published r nodes task c' x).0) tally)
            (published r nodes task c' x).1
    published-IsCount task (true, s') c' a b d e f = ground (arith, a, b, d, e, f, known)
    published-IsCount task (false, s') c' a b d e f = ground (arith, a, b, d, e, f, known)

    played-IsCount :
        (task : StreamTask) (x : Bool × Server) (c' : Counters)
        → c'.total_publish_req ≡ c.total_publish_req
        → c'.success_pub ≡ c.success_pub
        → c'.total_play_req ≡ bump c.total_play_req
        → c'.success_play ≡ c.success_play
        → c'.auth_fail ≡ c.auth_fail
        → IsCount
            (count_play (some (played r nodes task c' x).0) tally)
            (played r nodes task c' x).1
    played-IsCount task (true, s') c' a b d e f = ground (arith, a, b, d, e, f, known)
    played-IsCount task (false, s') c' a b d e f = ground (arith, a, b, d, e, f, known)

    abbrev publish_counted : Counters
    publish_counted = record c { total_publish_req = bump c.total_publish_req }

    abbrev play_counted : Counters
    play_counted = record c { total_play_req = bump c.total_play_req }

    module _ (t : Clock) (q : Request) (s : Server) where
      publish-IsCount :
          (b : Bool) (code : Option ℤ)
          → validate_request q ≡ b
          → IsCount
              (count_publish (on_publish r nodes t q code c s).0 tally)
              (on_publish r nodes t q code c s).1
      unfolding on_publish publish_authorized
      publish-IsCount false code e = rw (e, on_publish) (ground (arith, known))
      publish-IsCount true none e = rw (e, on_publish) (ground (arith, known))
      publish-IsCount true (some (pos zero)) e =
          let (task, c') = publisher_task r nodes t q publish_counted in
          rw (e, on_publish)
            (published-IsCount task (register_task r t.registered task s) c' refl refl refl refl
              refl)
      publish-IsCount true (some (pos (suc n))) e = rw (e, on_publish) (ground (arith, known))
      publish-IsCount true (some (negsuc n)) e = rw (e, on_publish) (ground (arith, known))

      from-IsCount :
          (found : Option StreamTask)
          → IsCount
              (count_play (some (play_from r nodes t q found play_counted s).0) tally)
              (play_from r nodes t q found play_counted s).1
      from-IsCount none = ground (arith, known)
      from-IsCount (some p) =
          let task = new_task c.next_task_id t.created q player p.server_ip p.server_port in
          let c' = record play_counted { next_task_id = bump c.next_task_id } in
          played-IsCount task (register_task r t.registered task s) c' refl refl refl refl refl

      play-IsCount :
          (b : Bool) (code : Option ℤ)
          → validate_request q ≡ b
          → IsCount
              (count_play (on_play r nodes t q code c s).0 tally)
              (on_play r nodes t q code c s).1
      unfolding on_play play_authorized
      play-IsCount false code e = rw (e, on_play) (ground (arith, known))
      play-IsCount true none e = rw (e, on_play) (ground (arith, known))
      play-IsCount true (some (pos zero)) e =
          rw (e, on_play) (from-IsCount (get_publisher_task r q.stream_name s))
      play-IsCount true (some (pos (suc n))) e = rw (e, on_play) (ground (arith, known))
      play-IsCount true (some (negsuc n)) e = rw (e, on_play) (ground (arith, known))

  ask-IsCount :
      (a : Asked) (tally : Tally) (c : Counters) (s : Server)
      → IsCount tally c
      → IsCount (ask r nodes a tally c s).0 (ask r nodes a tally c s).1
  ask-IsCount (to_publish t q code) tally c s h =
      publish-IsCount tally c h t q s (validate_request q) code refl
  ask-IsCount (to_play t q code) tally c s h =
      play-IsCount tally c h t q s (validate_request q) code refl

  ask_all-IsCount :
      (as_asked : List Asked) (tally : Tally) (c : Counters) (s : Server)
      → IsCount tally c
      → IsCount (ask_all r nodes as_asked tally c s).0 (ask_all r nodes as_asked tally c s).1
  unfolding ask_all
  ask_all-IsCount [] tally c s h = h
  ask_all-IsCount (a ∷ rest) tally c s h =
      let (tally', c', s') = ask r nodes a tally c s in
      ask_all-IsCount rest tally' c' s' (ask-IsCount a tally c s h)

  fresh-IsCount : IsCount no_tally fresh_counters
  fresh-IsCount = ground arith

  failed-IsCount :
      (tally : Tally) (c : Counters)
      → IsCount tally c
      → tally.publishes < 2 ^ 64
      → tally.plays < 2 ^ 64
      → (failed_pub (get_metrics c) ≡ tally.publishes - tally.published)
        × (failed_play (get_metrics c) ≡ tally.plays - tally.played)
  unfolding failed_pub failed_play get_metrics
  failed-IsCount tally c h few_publishes few_plays =
      (omega (arith, known tally c h, few_publishes), omega (arith, known tally c h, few_plays))

  reported : (tally : Tally) (c : Counters) → IsCount tally c → IsReported tally (get_metrics c)
  unfolding get_metrics
  reported tally c h = record {
    all_publishes = h.of_publishes;
    granted_publishes = h.of_published;
    all_plays = h.of_plays;
    granted_plays = h.of_played;
    denials = h.of_denied;
  }

  -- After any hooks on a scheduler that was just made, the metrics are the numbers of the hooks to
  -- publish and to play, of those that were granted, and of those that the authentication denied, all
  -- modulo 2 ^ 64; and with fewer than 2 ^ 64 hooks of each kind the failed ones that are reported are
  -- those that were not granted.
  pub get_metrics-ask_all :
      (hooks : List Asked) (s : Server)
      → (ask_all r nodes hooks no_tally fresh_counters s).0.publishes < 2 ^ 64
      → (ask_all r nodes hooks no_tally fresh_counters s).0.plays < 2 ^ 64
      → IsReported
          (ask_all r nodes hooks no_tally fresh_counters s).0
          (get_metrics (ask_all r nodes hooks no_tally fresh_counters s).1)
        × (failed_pub (get_metrics (ask_all r nodes hooks no_tally fresh_counters s).1)
            ≡ (ask_all r nodes hooks no_tally fresh_counters s).0.publishes
              - (ask_all r nodes hooks no_tally fresh_counters s).0.published)
        × (failed_play (get_metrics (ask_all r nodes hooks no_tally fresh_counters s).1)
            ≡ (ask_all r nodes hooks no_tally fresh_counters s).0.plays
              - (ask_all r nodes hooks no_tally fresh_counters s).0.played)
  get_metrics-ask_all hooks s few_publishes few_plays =
      let counted = ask_all-IsCount hooks no_tally fresh_counters s fresh-IsCount in
      let (publishes, plays) =
        failed-IsCount (ask_all r nodes hooks no_tally fresh_counters s).0
          (ask_all r nodes hooks no_tally fresh_counters s).1 counted few_publishes few_plays in
      (
        reported (ask_all r nodes hooks no_tally fresh_counters s).0
            (ask_all r nodes hooks no_tally fresh_counters s).1 counted,
        publishes,
        plays,
      )
