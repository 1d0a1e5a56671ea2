-- ===== src/State/Query.antt =====
-- The queries of src/repository/RedisStreamStateManager.cpp.
use stream_gate.Base.{
  ℕ, String, Bool, true, false, not, ◌||◌, Option, none, some, List, [], ◌∷◌, value_or,
  if◌then◌else◌,
}
use stream_gate.Base.Decimal.{stoull}
use stream_gate.Base.Fields.{Fields, lookup}
use stream_gate.Base.Text.{◌==◌}
use stream_gate.Task.{StreamTask}
use stream_gate.Task.Fields.{deserialize_task}
use stream_gate.Redis.{Redis}
use stream_gate.Cache.{ready, hash_get_all, set_members, set_card, ping}
use stream_gate.State.Keys.{
  build_task_key, build_publisher_key, build_player_set_key, build_active_publishers_key,
  build_global_player_count_key, member_key,
}

abbrev pub no_fields : Fields → Bool
no_fields [] = true
no_fields (f ∷ fs) = false

abbrev pub is_active : Option String → Bool
is_active none = false
is_active (some v) = v == "1"

abbrev pub cons_found : Option StreamTask → List StreamTask → List StreamTask
cons_found none tasks = tasks
cons_found (some task) tasks = task ∷ tasks

-- A field that std::stoull refuses counts as 0.
abbrev pub total_of : Option String → ℕ
total_of none = 0
total_of (some t) = value_or (stoull t) 0

module _ (r : Redis) where
  open r use {Server}

  unfoldable pub get_task_by_key : String → Server → Option StreamTask
  get_task_by_key task_key s =
      let fields = hash_get_all r ready task_key s in
      if no_fields fields then none else deserialize_task (λ f. lookup f fields)

  unfoldable pub get_task : String → String → Server → Option StreamTask
  get_task stream_name client_id s = get_task_by_key (build_task_key stream_name client_id) s

  unfoldable pub get_publisher_task : String → Server → Option StreamTask
  get_publisher_task stream_name s =
      let fields = hash_get_all r ready (build_publisher_key stream_name) s in
      if no_fields fields || not (is_active (lookup "active" fields))
      then none
      else deserialize_task (λ f. lookup f fields)

  unfoldable pub get_stream_client_ids : String → Server → List String
  get_stream_client_ids stream_name s = set_members r ready (member_key stream_name) s

  tasks_of : String → List String → Server → List StreamTask
  tasks_of stream_name [] s = []
  tasks_of stream_name (id ∷ ids) s =
      cons_found (get_task stream_name id s) (tasks_of stream_name ids s)

  unfoldable pub get_player_tasks : String → Server → List StreamTask
  unfolding tasks_of
  get_player_tasks stream_name s =
      tasks_of stream_name (set_members r ready (build_player_set_key stream_name) s) s

  publishers_of : List String → Server → List StreamTask
  publishers_of [] s = []
  publishers_of (name ∷ names) s = cons_found (get_publisher_task name s) (publishers_of names s)

  unfoldable pub get_all_publisher_tasks : Server → List StreamTask
  unfolding publishers_of
  get_all_publisher_tasks s = publishers_of (set_members r ready build_active_publishers_key s) s

  unfoldable pub get_active_publisher_count : Server → ℕ
  get_active_publisher_count s = set_card r ready build_active_publishers_key s

  unfoldable pub get_active_player_count : Server → ℕ
  get_active_player_count s =
      total_of (lookup "total" (hash_get_all r ready build_global_player_count_key s))

  unfoldable pub get_player_count : String → Server → ℕ
  get_player_count stream_name s = set_card r ready (build_player_set_key stream_name) s

  unfoldable pub is_healthy : Server → Bool
  is_healthy s = value_or (ping r ready s) false
