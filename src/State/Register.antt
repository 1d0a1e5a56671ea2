-- ===== src/State/Register.antt =====
-- `registerTask` and `touchTask` of src/repository/RedisStreamStateManager.cpp. Each step of the
-- long handler is a function, which either goes on to the next or undoes what was done. `now` is
-- what the clock shows, in milliseconds.
use stream_gate.Base.{
  ℕ, String, Bool, true, false, not, ◌||◌, Option, none, some, List, [], ◌∷◌, ltb, if◌then◌else◌,
}
use stream_gate.Base.Decimal.{to_string}
use stream_gate.Base.Int.{ℤ, pos, negsuc}
use stream_gate.Base.Text.{◌==◌}
use stream_gate.Task.{StreamTask, StreamType, publisher, player}
use stream_gate.Task.Fields.{serialize_task, min_reasonable_ms, max_reasonable_ms}
use stream_gate.Redis.{Redis, Command, hset, sadd, zadd, expire}
use stream_gate.Cache.{
  ready, hash_set, hash_incr_by, set_add, zset_add, key_expire, key_del, key_exists, run_pipeline,
  effective_ttl,
}
use stream_gate.State.Keys.{
  build_task_key, build_publisher_key, build_active_publishers_key, build_global_player_count_key,
  build_task_timestamp_zset_key, member_key, task_ttl_sec,
}
use stream_gate.State.Query.{get_task_by_key, get_publisher_task}
use stream_gate.State.Deregister.{deregister_task}

-- The stream is held by a client other than this one.
abbrev pub other_client : String → Option StreamTask → Bool
other_client client_id none = false
other_client client_id (some existing) = not (existing.client_id == client_id)

abbrev pub task_key_of : StreamTask → String
task_key_of task = build_task_key task.stream_name task.client_id

abbrev pub index_commands : StreamTask → List Command
index_commands task =
    hset (build_publisher_key task.stream_name) (serialize_task task)
    ∷ sadd (member_key task.stream_name) (task.client_id ∷ [])
    ∷ sadd build_active_publishers_key (task.stream_name ∷ [])
    ∷ []

abbrev pub touch_commands : ℕ → String → List Command
touch_commands now task_key =
    hset task_key (("last_active_time_ms", to_string now) ∷ [])
    ∷ expire task_key (effective_ttl task_ttl_sec)
    ∷ zadd build_task_timestamp_zset_key task_key now
    ∷ []

-- `results.get<bool>(1)`; `none` throws.
abbrev second_reply : List ℤ → Option Bool
second_reply (a ∷ pos n ∷ rest) = some (ltb 0 n)
second_reply (a ∷ negsuc n ∷ rest) = some false
second_reply (a ∷ []) = none
second_reply [] = none

module _ (r : Redis) where
  open r use {Server}

  unfoldable pub register_publisher_indices : StreamTask → Server → Bool × Server
  register_publisher_indices task s =
      if other_client task.client_id (get_task_by_key r (build_publisher_key task.stream_name) s)
      then (false, s)
      else (let (replies, s') = run_pipeline r ready (index_commands task) s in
          elim replies [ none ↦ (false, s') | some _ ↦ (true, s') ])

  unfoldable pub register_player_indices : StreamTask → Server → Bool × Server
  register_player_indices task s =
      let (added, s1) = set_add r ready (member_key task.stream_name) task.client_id s in
      if added
      then (true, (hash_incr_by r ready build_global_player_count_key "total" (pos 1) s1).1)
      else (false, s1)

  abbrev pub roll_back : StreamTask → Server → Bool × Server
  roll_back task s = (false, (deregister_task r task.stream_name task.client_id s).1)

  unfoldable pub stamp_task : ℕ → StreamTask → Server → Bool × Server
  stamp_task now task s =
      if ltb now min_reasonable_ms || ltb max_reasonable_ms now
      then roll_back task s
      else (let (added, s') =
            zset_add r ready build_task_timestamp_zset_key now (task_key_of task) s in
          if added then (true, s') else roll_back task s')

  unfoldable pub index_by_type : StreamType → StreamTask → Server → Bool × Server
  index_by_type publisher task s = register_publisher_indices task s
  index_by_type player task s = register_player_indices task s

  unfoldable pub index_task : ℕ → StreamTask → Server → Bool × Server
  index_task now task s =
      let (indexed, s') = index_by_type task.type task s in
      if indexed then stamp_task now task s' else roll_back task s'

  unfoldable pub expire_task : ℕ → StreamTask → Server → Bool × Server
  expire_task now task s =
      let (expires, s') = key_expire r ready (task_key_of task) task_ttl_sec s in
      if expires then index_task now task s' else (false, (key_del r ready (task_key_of task) s').1)

  -- From the write of the hash on.
  unfoldable pub store_task : ℕ → StreamTask → Server → Bool × Server
  store_task now task s =
      let (written, s') = hash_set r ready (task_key_of task) (serialize_task task) s in
      if written then expire_task now task s' else (false, s')

  unfoldable pub clear_publisher : StreamTask → Option StreamTask → Server → Option Server
  clear_publisher task none s = some s
  clear_publisher task (some existing) s =
      if existing.client_id == task.client_id
      then some (deregister_task r task.stream_name task.client_id s).1
      else none

  unfoldable pub clear_by_type : StreamType → StreamTask → Server → Option Server
  clear_by_type publisher task s = clear_publisher task (get_publisher_task r task.stream_name s) s
  clear_by_type player task s =
      if key_exists r ready (task_key_of task) s
      then some (deregister_task r task.stream_name task.client_id s).1
      else some s

  -- The old state of the same client is cleared; `none`: another client publishes the stream.
  unfoldable pub clear_old : StreamTask → Server → Option Server
  clear_old task s = clear_by_type task.type task s

  unfoldable pub register_task : ℕ → StreamTask → Server → Bool × Server
  register_task now task s = elim (clear_old task s) [
    | none ↦ (false, s)
    | some s' ↦ store_task now task s'
  ]

  unfoldable pub touch_task : ℕ → String → String → Server → Bool × Server
  touch_task now stream_name client_id s =
      let task_key = build_task_key stream_name client_id in
      let (replies, s') = run_pipeline r ready (touch_commands now task_key) s in
      elim replies [
        | none ↦ (false, s')
        | some results ↦ elim (second_reply results) [
          | none ↦ (false, s')
          | some true ↦ (true, s')
          | some false ↦ (false, (key_del r ready task_key s').1)
        ]
      ]
