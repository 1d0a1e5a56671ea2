-- ===== src/State/Scan.antt =====
-- `scanTimeoutTasks` of src/repository/RedisStreamStateManager.cpp. Times and the timeout are in
-- milliseconds.
use stream_gate.Base.{ℕ, ◌+◌, String, Option, none, some, List, [], ◌∷◌, ltb, if◌then◌else◌}
use stream_gate.Base.Int.{pos, sub_ℕ}
use stream_gate.Task.{StreamTask}
use stream_gate.Task.Fields.{to_ms}
use stream_gate.Redis.{Redis}
use stream_gate.Cache.{ready, zset_add, zset_rem, zset_range_by_score}
use stream_gate.State.Keys.{build_task_timestamp_zset_key}
use stream_gate.State.Query.{get_task_by_key, cons_found}
use stream_gate.State.Deregister.{deregister_task}

module _ (r : Redis) (now timeout : ℕ) where
  open r use {Server}

  -- `now - last < timeout` in signed arithmetic: the task is alive and goes back into the set.
  abbrev pub scan_loaded : String → Option StreamTask → Server → Option StreamTask × Server
  scan_loaded task_key none s = (none, s)
  scan_loaded task_key (some task) s =
      if ltb now (to_ms task.last_active_time + timeout)
      then (
        none,
        (zset_add r ready build_task_timestamp_zset_key (to_ms task.last_active_time) task_key s).1,
      )
      else (some task, (deregister_task r task.stream_name task.client_id s).1)

  -- One round of the loop: the task that it reports, if any.
  unfoldable pub scan_one : String → Server → Option StreamTask × Server
  scan_one task_key s =
      let (removed, s') = zset_rem r ready build_task_timestamp_zset_key task_key s in
      if removed then scan_loaded task_key (get_task_by_key r task_key s') s' else (none, s')

  unfoldable pub scan_from : List String → Server → List StreamTask × Server
  scan_from [] s = ([], s)
  scan_from (task_key ∷ keys) s =
      let (found, s') = scan_one task_key s in
      let (tasks, s'') = scan_from keys s' in (cons_found found tasks, s'')

  unfoldable pub scan_timeout_tasks : Server → List StreamTask × Server
  scan_timeout_tasks s =
      scan_from
        (zset_range_by_score r ready build_task_timestamp_zset_key (pos 0) (sub_ℕ now timeout) s) s
