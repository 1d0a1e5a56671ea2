-- ===== src/State/Removal.antt =====
-- What the removal of a task sends to a server that is online, and what it leaves.
use stream_gate.Base.{String, ◌≡◌, refl, ap, ◌∙◌, true, Option, none, some, List, [], ◌∷◌, length}
use stream_gate.Base.Int.{negsuc}
use stream_gate.Task.{StreamTask, StreamType, publisher, player}
use stream_gate.Redis.{Redis, Command, zrem}
use stream_gate.Redis.Keyspace.{Keyspace, AllFit, counts}
use stream_gate.Redis.Lawful.{Lawful}
use stream_gate.Cache.Online.{sent_all, run_pipeline-sent_all, zset_rem-sent}
use stream_gate.State.Keys.{
  build_task_key, build_global_player_count_key, build_task_timestamp_zset_key,
}
use stream_gate.State.Deregister.{
  TaskIdentifier, batch_commands, deregister_tasks_batch, deregister_task,
}
use stream_gate.State.View.{task_at, get_task-task_at}

-- The player counter can be counted down.
abbrev pub CanDrop : Keyspace → Type 0
CanDrop v = counts (v.hash build_global_player_count_key "total") (negsuc 0) ≡ true

abbrev pub identified : String → String → StreamType → TaskIdentifier
identified stream_name client_id type = record {
  stream_name = stream_name;
  client_id = client_id;
  type = type;
}

-- The commands of a removal, by the task that is found.
abbrev pub removal_commands : String → String → Option StreamTask → List Command
removal_commands a c none = zrem build_task_timestamp_zset_key (build_task_key a c) ∷ []
removal_commands a c (some task) = batch_commands (identified a c task.type ∷ [])

batch-fits :
    (a c : String) (t : StreamType) (v : Keyspace)
    → CanDrop v
    → AllFit (batch_commands (identified a c t ∷ [])) v
batch-fits a c publisher v drop = (refl, (refl, (refl, (refl, tt))))
batch-fits a c player v drop = (refl, (refl, (drop, tt)))

pub removal-fits :
    (a c : String) (found : Option StreamTask) (v : Keyspace)
    → CanDrop v
    → AllFit (removal_commands a c found) v
removal-fits a c none v drop = (refl, tt)
removal-fits a c (some task) v drop = batch-fits a c task.type v drop

module _ (r : Redis) (l : Lawful r) (s : r.Server) (o : l.Online s) where
  pub deregister_tasks_batch-sent_all :
      (task : TaskIdentifier) (tasks : List TaskIdentifier)
      → AllFit (batch_commands (task ∷ tasks)) (l.view s)
      → deregister_tasks_batch r (task ∷ tasks) s
        ≡ (length (task ∷ tasks), sent_all r l (batch_commands (task ∷ tasks)) s)
  unfolding deregister_tasks_batch
  deregister_tasks_batch-sent_all task tasks f =
      let (rs, replied) = run_pipeline-sent_all r l (batch_commands (task ∷ tasks)) s o f in
      rw (ap (λ p. p.0) replied, ap (λ p. p.1) replied, deregister_tasks_batch)

  removal_found :
      (a c : String) (found : Option StreamTask)
      → CanDrop (l.view s)
      → task_at (l.view s) a c ≡ found
      → deregister_task r a c s ≡ (true, sent_all r l (removal_commands a c found) s)
  unfolding deregister_task
  removal_found a c none drop e = rw (
    get_task-task_at r l s o a c ∙ e,
    zset_rem-sent r l s o build_task_timestamp_zset_key (build_task_key a c) refl,
    deregister_task,
  )
  removal_found a c (some task) drop e = rw (
    get_task-task_at r l s o a c ∙ e,
    deregister_tasks_batch-sent_all (identified a c task.type) []
        (batch-fits a c task.type (l.view s) drop),
    deregister_task,
  )

  pub deregister_task-sent_all :
      (a c : String)
      → CanDrop (l.view s)
      → deregister_task r a c s
        ≡ (true, sent_all r l (removal_commands a c (task_at (l.view s) a c)) s)
  deregister_task-sent_all a c drop = removal_found a c (task_at (l.view s) a c) drop refl
