-- ===== src/Scheduler.antt =====
-- src/scheduler/StreamTaskScheduler.cpp and include/StreamTaskScheduler.h: what the hooks do to the
-- tasks of the streams.
pub mod Nodes
pub mod Granted
pub mod Publishing
pub mod Expiry
pub mod Ending
pub mod Cleanup
pub mod Metrics
use stream_gate.Base.{
  ℕ, zero, suc, map, ◌+◌, ◌*◌, ◌%◌, ◌^◌, String, Bool, true, false, not, ◌||◌, ◌&&◌, Option, none,
  some, List, [], ◌∷◌, length, if◌then◌else◌,
}
use stream_gate.Base.Int.{ℤ, pos, negsuc}
use stream_gate.Base.Text.{◌==◌, is_empty, text_lt}
use stream_gate.Task.{StreamTask, StreamType, publisher, player, StreamProtocol, initializing}
use stream_gate.Redis.{Redis}
use stream_gate.State.Deregister.{
  TaskIdentifier, deregister_task, deregister_tasks_batch, deregister_all_members,
}
use stream_gate.State.Query.{get_task, get_publisher_task}
use stream_gate.State.Register.{register_task}
use stream_gate.State.Scan.{scan_timeout_tasks}
use Nodes.{NodeConfig, select_best_node}

pub data Error : Type 0 where
  success already_publishing no_publisher auth_failed state_store_error internal_error : Error

pub record SchedulerResult : Type 0 where
  pub error : Error
  pub task : Option StreamTask
  pub message : String

-- The atomic counters, of 64 bits each.
pub record Counters : Type 0 where
  pub node_index : ℕ
  pub next_task_id : ℕ
  pub total_publish_req : ℕ
  pub success_pub : ℕ
  pub total_play_req : ℕ
  pub success_play : ℕ
  pub auth_fail : ℕ
  pub tasks_cleaned : ℕ

abbrev pub fresh_counters : Counters
fresh_counters = record {
  node_index = 0;
  next_task_id = 1000;
  total_publish_req = 0;
  success_pub = 0;
  total_play_req = 0;
  success_play = 0;
  auth_fail = 0;
  tasks_cleaned = 0;
}

-- `fetch_add(1)`
abbrev pub bump : ℕ → ℕ
bump n = (n + 1) % 2 ^ 64

pub record Request : Type 0 where
  pub stream_name : String
  pub client_id : String
  pub auth_token : String
  pub protocol : StreamProtocol

-- The clock, read for the task (in nanoseconds) and by the registration (in milliseconds).
pub record Clock : Type 0 where
  pub created : ℕ
  pub registered : ℕ

abbrev pub validate_request : Request → Bool
validate_request q = not (is_empty q.stream_name || is_empty q.client_id || is_empty q.auth_token)

-- The task of a request; the fields that are not set keep their defaults.
abbrev pub new_task : ℕ → ℕ → Request → StreamType → String → ℤ → StreamTask
new_task id now q type ip port = record {
  task_id = id;
  stream_name = q.stream_name;
  client_id = q.client_id;
  type = type;
  state = initializing;
  protocol = q.protocol;
  server_ip = ip;
  server_port = port;
  start_time = now;
  last_active_time = now;
  user_id = "";
  auth_token = q.auth_token;
  region = none;
  bandwidth_kbps = none;
  player_count = none;
  need_transcode = false;
  need_record = false;
  transcoding_profile = "";
}

abbrev pub create_task : ℕ → Request → StreamType → String → ℤ → Counters → StreamTask × Counters
create_task now q type ip port c =
    (new_task c.next_task_id now q type ip port, record c { next_task_id = bump c.next_task_id })

abbrev pub failed : Error → String → SchedulerResult
failed e text = record { error = e; task = none; message = text }

abbrev pub succeeded : StreamTask → String → SchedulerResult
succeeded task text = record { error = success; task = some task; message = text }

-- `code == 0`
abbrev pub is_success : ℤ → Bool
is_success (pos zero) = true
is_success (pos (suc n)) = false
is_success (negsuc n) = false

abbrev pub is_publisher : StreamType → Bool
is_publisher publisher = true
is_publisher player = false

abbrev pub identifier : StreamTask → TaskIdentifier
identifier task = record {
  stream_name = task.stream_name;
  client_id = task.client_id;
  type = task.type;
}

-- `insert` into a std::set of names, in ascending order.
abbrev insert : String → List String → List String
insert name [] = name ∷ []
insert name (x ∷ xs) =
    let rest = insert name xs in
    if name == x then x ∷ xs else if text_lt name x then name ∷ x ∷ xs else x ∷ rest

module _ (r : Redis) (nodes : NodeConfig) where
  open r use {Server}

  -- The end of the callback of `onPublish`, by what `registerTask` says.
  abbrev pub published : StreamTask → Counters → Bool × Server → SchedulerResult × Counters × Server
  published task c (true, s) =
      (succeeded task "推流授权成功", record c { success_pub = bump c.success_pub }, s)
  published task c (false, s) = (failed already_publishing "该流已在推送中", c, s)

  abbrev pub publisher_task : Clock → Request → Counters → StreamTask × Counters
  publisher_task t q c =
      let ((ip, port), index) = select_best_node nodes q.protocol c.node_index in
      create_task t.created q publisher ip port (record c { node_index = index })

  -- The callback of `onPublish`, by the code of the authentication.
  unfoldable pub publish_authorized :
      Clock → Request → ℤ → Counters → Server → SchedulerResult × Counters × Server
  publish_authorized t q code c s =
      if is_success code
      then (let (task, c') = publisher_task t q c in
          published task c' (register_task r t.registered task s))
      else (failed auth_failed "鉴权拒绝", record c { auth_fail = bump c.auth_fail }, s)

  abbrev answered :
      (ℤ → SchedulerResult × Counters × Server)
      → Option ℤ
      → Counters × Server
      → Option SchedulerResult × Counters × Server
  answered run none (c, s) = (none, c, s)
  answered run (some code) rest = let (result, c, s) = run code in (some result, c, s)

  -- `code` is what the authentication calls back with; `none`: it never does. So the result is
  -- what the caller's own callback gets, if it is called.
  unfoldable pub on_publish :
      Clock → Request → Option ℤ → Counters → Server → Option SchedulerResult × Counters × Server
  unfolding publish_authorized
  on_publish t q code c s =
      let c' = record c { total_publish_req = bump c.total_publish_req } in
      if validate_request q
      then answered (λ n. publish_authorized t q n c' s) code (c', s)
      else (some (failed internal_error "参数缺失"), c', s)

  abbrev pub played : StreamTask → Counters → Bool × Server → SchedulerResult × Counters × Server
  played task c (true, s) =
      (succeeded task "播放授权成功", record c { success_play = bump c.success_play }, s)
  played task c (false, s) = (failed state_store_error "状态注册失败", c, s)

  -- From the look at the publisher on.
  abbrev pub play_from :
      Clock → Request → Option StreamTask → Counters → Server → SchedulerResult × Counters × Server
  play_from t q none c s = (failed no_publisher "找不到活跃推流端", c, s)
  play_from t q (some pub_task) c s =
      let (task, c') = create_task t.created q player pub_task.server_ip pub_task.server_port c in
      played task c' (register_task r t.registered task s)

  unfoldable pub play_authorized :
      Clock → Request → ℤ → Counters → Server → SchedulerResult × Counters × Server
  play_authorized t q code c s =
      if is_success code
      then play_from t q (get_publisher_task r q.stream_name s) c s
      else (failed auth_failed "鉴权拒绝", record c { auth_fail = bump c.auth_fail }, s)

  unfoldable pub on_play :
      Clock → Request → Option ℤ → Counters → Server → Option SchedulerResult × Counters × Server
  unfolding play_authorized
  on_play t q code c s =
      let c' = record c { total_play_req = bump c.total_play_req } in
      if validate_request q
      then answered (λ n. play_authorized t q n c' s) code (c', s)
      else (some (failed internal_error "参数缺失"), c', s)

  abbrev end_of : Option StreamTask → String → Server → Server
  end_of none stream_name s = s
  end_of (some task) stream_name s =
      if is_publisher task.type then deregister_all_members r stream_name s else s

  unfoldable pub on_publish_done : String → String → Server → Server
  on_publish_done stream_name client_id s =
      end_of (get_task r stream_name client_id s) stream_name s

  unfoldable pub on_play_done : String → String → Server → Server
  on_play_done stream_name client_id s = (deregister_task r stream_name client_id s).1

  -- A std::set of the streams whose publisher timed out, as the list that its loop goes through.
  abbrev pub died_streams : List StreamTask → List String
  died_streams [] = []
  died_streams (task ∷ tasks) =
      let rest = died_streams tasks in
      if is_publisher task.type then insert task.stream_name rest else rest

  abbrev pub clear_streams : List String → Server → Server
  clear_streams [] s = s
  clear_streams (name ∷ names) s = clear_streams names (deregister_all_members r name s)

  -- What follows the scan.
  unfoldable pub clean : List StreamTask → Counters → Server → Counters × Server
  clean [] c s = (c, s)
  clean (task ∷ tasks) c s =
      let expired = task ∷ tasks in
      (
        record c { tasks_cleaned = (c.tasks_cleaned + length expired) % 2 ^ 64 },
        clear_streams (died_streams expired)
            (deregister_tasks_batch r (map identifier expired) s).1,
      )

  -- One round of the cleanup thread at `now`; both times are in milliseconds.
  unfoldable pub cleanup_round : ℕ → ℕ → Counters → Server → Counters × Server
  cleanup_round now timeout c s =
      let (expired, s') = scan_timeout_tasks r now timeout s in clean expired c s'
