-- ===== src/Scheduler/Ending.antt =====
-- `onPublishDone` on a server that is online.
use stream_gate.Base.{
  String, ◌≡◌, refl, ◌∙◌, Bool, true, false, Option, none, some, length, if◌then◌else◌,
}
use stream_gate.Base.Int.{ℤ}
use stream_gate.Task.{StreamTask}
use stream_gate.Redis.{Redis}
use stream_gate.Redis.Lawful.{Lawful}
use stream_gate.State.Clearing.{deregister_all_members_lem}
use stream_gate.State.Deregister.{deregister_all_members}
use stream_gate.State.Keys.{member_key}
use stream_gate.State.Query.{get_stream_client_ids}
use stream_gate.State.Totals.{HasTotal}
use stream_gate.State.View.{task_at, get_task-task_at}
use stream_gate.Scheduler.{is_publisher, on_publish_done}
use stream_gate.Scheduler.Nodes.{NodeConfig}

abbrev pub publishes : Option StreamTask → Bool
publishes none = false
publishes (some task) = is_publisher task.type

module _ (r : Redis) (l : Lawful r) (nodes : NodeConfig) (s : r.Server) (o : l.Online s)
    (a c : String) where
  done_by :
      (found : Option StreamTask)
      → task_at (l.view s) a c ≡ found
      → on_publish_done r nodes a c s
        ≡ (if publishes found then deregister_all_members r a s else s)
  unfolding on_publish_done
  done_by none e = rw (get_task-task_at r l s o a c ∙ e, on_publish_done)
  done_by (some task) e = rw (get_task-task_at r l s o a c ∙ e, on_publish_done)

  -- The end of a publisher that is registered takes every member of the stream with it: none has a
  -- task any more, and the stream has no member. The counter must stay within 64 bits if every
  -- member is taken off it.
  pub on_publish_done_lem :
      (z : ℤ)
      → HasTotal (length (get_stream_client_ids r a s)) z (l.view s)
      → publishes (task_at (l.view s) a c) ≡ true
      → l.Online (on_publish_done r nodes a c s)
        × ((d : String)
            → (l.view s).set (member_key a) d ≡ true
            → task_at (l.view (on_publish_done r nodes a c s)) a d ≡ none)
        × ((d : String) → (l.view (on_publish_done r nodes a c s)).set (member_key a) d ≡ false)
  on_publish_done_lem z room p =
      let (o', gone, empty, _) = deregister_all_members_lem r l s o a z room in
      let e = done_by (task_at (l.view s) a c) refl in rw (e, p) (o', gone, empty)

  -- The end of a client that is not the registered publisher of the stream changes nothing.
  pub on_publish_done_other :
      publishes (task_at (l.view s) a c) ≡ false → on_publish_done r nodes a c s ≡ s
  on_publish_done_other p = rw (done_by (task_at (l.view s) a c) refl, p)
