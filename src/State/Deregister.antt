-- ===== src/State/Deregister.antt =====
-- The removal of tasks in src/repository/RedisStreamStateManager.cpp.
use stream_gate.Base.{
  ℕ, String, Bool, true, Option, none, some, List, [], ◌∷◌, length, ltb, if◌then◌else◌,
}
use stream_gate.Base.Int.{ℤ, pos, negsuc, ltb_ℤ}
use stream_gate.Task.{StreamTask, StreamType, publisher, player}
use stream_gate.Redis.{Redis, Command, hincrby, srem, del}
use stream_gate.Cache.{ready, hash_set, hash_incr_by, set_rem, zset_rem, key_del, run_pipeline}
use stream_gate.State.Keys.{
  build_task_key, build_publisher_key, build_player_set_key, build_active_publishers_key,
  build_global_player_count_key, build_task_timestamp_zset_key, member_key,
}
use stream_gate.State.Query.{get_task, get_stream_client_ids}

-- include/IStreamStateManager.h
pub record TaskIdentifier : Type 0 where
  pub stream_name : String
  pub client_id : String
  pub type : StreamType

-- The branch on the type, in front of what follows.
abbrev type_commands : StreamType → String → List Command → List Command
type_commands player stream_name rest =
    hincrby build_global_player_count_key "total" (negsuc 0) ∷ rest
type_commands publisher stream_name rest =
    del (build_publisher_key stream_name) ∷ srem build_active_publishers_key stream_name ∷ rest

-- The loop that fills the pipeline.
abbrev pub batch_commands : List TaskIdentifier → List Command
batch_commands [] = []
batch_commands (task ∷ tasks) =
    del (build_task_key task.stream_name task.client_id)
    ∷ srem (member_key task.stream_name) task.client_id
    ∷ type_commands task.type task.stream_name (batch_commands tasks)

module _ (r : Redis) where
  open r use {Server}

  unfoldable pub deregister_tasks_batch : List TaskIdentifier → Server → ℕ × Server
  deregister_tasks_batch [] s = (0, s)
  deregister_tasks_batch (task ∷ tasks) s =
      let (replies, s') = run_pipeline r ready (batch_commands (task ∷ tasks)) s in
      elim replies [ none ↦ (0, s') | some _ ↦ (length (task ∷ tasks), s') ]

  unfoldable pub deregister_task : String → String → Server → Bool × Server
  deregister_task stream_name client_id s = elim (get_task r stream_name client_id s) [
    | none ↦ (
      true,
      (zset_rem r ready build_task_timestamp_zset_key (build_task_key stream_name client_id) s).1,
    )
    | some task ↦
        let (removed, s') =
          deregister_tasks_batch
            (record { stream_name = stream_name; client_id = client_id; type = task.type } ∷ [])
            s in
        (ltb 0 removed, s')
  ]

  abbrev pub cons_member :
      String → String → Option StreamTask → List TaskIdentifier → List TaskIdentifier
  cons_member stream_name cid none tasks = tasks
  cons_member stream_name cid (some task) tasks =
      record { stream_name = stream_name; client_id = cid; type = task.type } ∷ tasks

  unfoldable pub members_tasks : String → List String → Server → List TaskIdentifier
  members_tasks stream_name [] s = []
  members_tasks stream_name (cid ∷ cids) s =
      cons_member stream_name cid (get_task r stream_name cid s) (members_tasks stream_name cids s)

  unfoldable pub clear_members : String → List String → Server → Server
  unfolding members_tasks
  clear_members stream_name [] s = s
  clear_members stream_name (cid ∷ cids) s =
      (deregister_tasks_batch (members_tasks stream_name (cid ∷ cids) s) s).1

  unfoldable pub deregister_all_members : String → Server → Server
  unfolding clear_members
  deregister_all_members stream_name s =
      (key_del r ready (member_key stream_name)
        (clear_members stream_name (get_stream_client_ids r stream_name s) s)).1

  unfoldable pub deregister_publisher_indices : String → Server → Server
  deregister_publisher_indices stream_name s =
      (key_del r ready (build_publisher_key stream_name)
        (set_rem r ready build_active_publishers_key stream_name s).1).1

  abbrev reset_negative : ℤ × Server → Server
  reset_negative (total, s) =
      if ltb_ℤ total (pos 0)
      then (hash_set r ready build_global_player_count_key (("total", "0") ∷ []) s).1
      else s

  unfoldable pub deregister_player_indices : String → String → Server → Server
  deregister_player_indices stream_name client_id s =
      let (removed, s1) = set_rem r ready (build_player_set_key stream_name) client_id s in
      if removed
      then reset_negative (hash_incr_by r ready build_global_player_count_key "total" (negsuc 0) s1)
      else s1
