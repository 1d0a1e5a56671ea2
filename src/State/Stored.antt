-- ===== src/State/Stored.antt =====
-- What a registration leaves in the keyspace, and what it leaves alone.
use stream_gate.Base.{
  ℕ, String, ◌≡◌, ap, ◌∙◌, fun_ext, Bool, true, Option, none, some, [], if◌then◌else◌,
}
use stream_gate.Base.Text.{◌++◌, eq_refl}
use stream_gate.Task.{StreamTask}
use stream_gate.Task.Fields.{serialize_task, deserialize_task}
use stream_gate.Task.Fields.RoundTrip.{IsStorable, stored, deserialize_task-serialize_task}
use stream_gate.Redis.Keyspace.{Keyspace, apply, apply_all}
use stream_gate.Redis.{hset}
use stream_gate.State.Keys.{
  build_publisher_key, build_active_publishers_key, build_task_timestamp_zset_key, member_key,
}
use stream_gate.State.Query.{is_active}
use stream_gate.State.Register.{task_key_of}
use stream_gate.State.Store.{write_commands, publisher_commands, player_commands}
use stream_gate.State.View.{load, task_at, publisher_at}

-- The task can be found under its client, the client among the members of the stream, and the
-- time of the registration in the set that the timeout scan reads.
pub record IsRegistered (now : ℕ) (task : StreamTask) (v : Keyspace) : Type 0 where
  pub found : task_at v task.stream_name task.client_id ≡ some (stored task)
  pub member : v.set (member_key task.stream_name) task.client_id ≡ true
  pub stamped : v.score build_task_timestamp_zset_key (task_key_of task) ≡ some now

-- The task holds its stream, which is among the published ones.
pub record IsPublished (task : StreamTask) (v : Keyspace) : Type 0 where
  pub holds : publisher_at v task.stream_name ≡ some (stored task)
  pub active : v.set build_active_publishers_key task.stream_name ≡ true

load_own :
    (k : String) (t : StreamTask) (v : Keyspace)
    → IsStorable t
    → load (apply (hset k (serialize_task t)) v) k ≡ some (stored t)
load_own k t v ok =
    ap deserialize_task (fun_ext λ f. rw (eq_refl k))
    ∙ deserialize_task-serialize_task t (v.hash k) ok

own_active :
    (k : String) (t : StreamTask) (v : Keyspace)
    → is_active ((apply (hset k (serialize_task t)) v).hash k "active") ≡ true
unfolding serialize_task
own_active k t v = rw (eq_refl k)

if_active : {b : Bool} {found : Option StreamTask} → b ≡ true → (if b then found else none) ≡ found
if_active e = rw e

module _ (now : ℕ) (task : StreamTask) (v : Keyspace) (ok : IsStorable task) where
  pub publisher-IsRegistered : IsRegistered now task (apply_all (publisher_commands now task) v)
  publisher-IsRegistered = record {
    found = load_own (task_key_of task) task v ok;
    member = rw (eq_refl task.stream_name, eq_refl task.client_id);
    stamped = rw (eq_refl (task.stream_name ++ ":" ++ task.client_id));
  }

  pub publisher-IsPublished : IsPublished task (apply_all (publisher_commands now task) v)
  unfolding serialize_task
  publisher-IsPublished = record {
    holds =
        if_active (own_active (build_publisher_key task.stream_name) task before)
        ∙ load_own (build_publisher_key task.stream_name) task before ok;
    active = rw (eq_refl task.stream_name);
  }
    where
      before : Keyspace
      before = apply_all (write_commands task []) v

  pub player-IsRegistered : IsRegistered now task (apply_all (player_commands now task) v)
  player-IsRegistered = record {
    found = load_own (task_key_of task) task v ok;
    member = rw (eq_refl task.stream_name, eq_refl task.client_id);
    stamped = rw (eq_refl (task.stream_name ++ ":" ++ task.client_id));
  }
