-- ===== src/Scheduler/Publishing.antt =====
-- `onPublish` and `onPlay` on a server that is online.
use stream_gate.Base.{◌≡◌, ◌≢◌, refl, ◌∙◌, true, none, some}
use stream_gate.Base.Int.{pos}
use stream_gate.Task.{StreamTask}
use stream_gate.Task.Fields.RoundTrip.{IsStorable}
use stream_gate.Redis.{Redis}
use stream_gate.Redis.Lawful.{Lawful}
use stream_gate.State.Publishing.{IsClock, IsFree, register_task-publisher, register_task_conflict}
use stream_gate.State.Removal.{CanDrop}
use stream_gate.State.Stored.{IsRegistered, IsPublished}
use stream_gate.State.View.{publisher_at, get_publisher_task-publisher_at}
use stream_gate.Scheduler.{
  already_publishing, no_publisher, Counters, Request, Clock, validate_request, publisher_task,
  succeeded, failed, publish_authorized, on_publish, play_authorized, on_play, bump,
}
use stream_gate.Scheduler.Granted.{task_to_publish, counted_publish, counted_play}
use stream_gate.Scheduler.Nodes.{NodeConfig}

module _ (r : Redis) (l : Lawful r) (nodes : NodeConfig) (t : Clock) (q : Request) (c : Counters)
    (s : r.Server) (o : l.Online s) (complete : validate_request q ≡ true) where
  abbrev pub granted_counters : Counters
  granted_counters =
      let c' = (publisher_task r nodes t q (counted_publish r nodes t q c s)).1 in
      record c' { success_pub = bump c'.success_pub }

  -- An authenticated publisher of a stream that no other client holds is granted it, and the task
  -- that it is handed is registered and holds the stream.
  pub on_publish_first :
      IsClock t.registered
      → IsStorable (task_to_publish r nodes t q c s)
      → CanDrop (l.view s)
      → IsFree (task_to_publish r nodes t q c s) (l.view s)
      → (s' : r.Server) × (on_publish r nodes t q (some (pos 0)) c s
          ≡ (some (succeeded (task_to_publish r nodes t q c s) "推流授权成功"), granted_counters, s'))
        × l.Online s'
        × IsRegistered t.registered (task_to_publish r nodes t q c s) (l.view s')
        × IsPublished (task_to_publish r nodes t q c s) (l.view s')
  unfolding on_publish publish_authorized
  on_publish_first clock ok drop free =
      let (s', e, o', reg, pubd) =
        register_task-publisher r l (task_to_publish r nodes t q c s) s o t.registered refl clock ok
          drop free in
      (s', rw (complete, e), o', reg, pubd)

  -- An authenticated publisher of a stream that another client holds is told so, and the server is
  -- as before.
  pub on_publish_second :
      (existing : StreamTask)
      → publisher_at (l.view s) q.stream_name ≡ some existing
      → existing.client_id ≢ q.client_id
      → (((on_publish r nodes t q (some (pos 0)) c s).0
            ≡ some (failed already_publishing "该流已在推送中"))
          × ((on_publish r nodes t q (some (pos 0)) c s).2 ≡ s))
  unfolding on_publish publish_authorized
  on_publish_second existing held other =
      let e =
        register_task_conflict r l (task_to_publish r nodes t q c s) s o t.registered existing refl
          held other in
      (rw (complete, e), rw (complete, e))

  -- An authenticated player of a stream that nobody publishes is told so, and the server is as
  -- before.
  pub on_play_early :
      publisher_at (l.view s) q.stream_name ≡ none
      → on_play r nodes t q (some (pos 0)) c s
        ≡ (some (failed no_publisher "找不到活跃推流端"), counted_play r nodes t q c s, s)
  unfolding on_play play_authorized
  on_play_early held = rw (complete, get_publisher_task-publisher_at r l s o q.stream_name ∙ held)
