-- ===== src/Scheduler/Granted.antt =====
-- When the scheduler grants a request, whatever the server does.
use stream_gate.Base.{zero, suc, ◌≡◌, ◌≢◌, refl, Bool, true, false, Option, none, some, arith}
use stream_gate.Base.Int.{ℤ, pos, negsuc}
use stream_gate.Task.{StreamTask, player}
use stream_gate.Redis.{Redis}
use stream_gate.State.Query.{get_publisher_task}
use stream_gate.State.Register.{register_task}
use stream_gate.Scheduler.{
  success, SchedulerResult, Counters, Request, Clock, validate_request, is_success, publisher_task,
  new_task, publish_authorized, on_publish, play_from, play_authorized, on_play, bump,
}
use stream_gate.Scheduler.Nodes.{NodeConfig}

-- The caller is told that the request is granted.
abbrev pub is_granted : Option SchedulerResult → Bool
is_granted none = false
is_granted (some result) = elim result.error [ success ↦ true | _ ↦ false ]

abbrev pub task_of : Option SchedulerResult → Option StreamTask
task_of none = none
task_of (some result) = result.task

success_code : (code : ℤ) → is_success code ≡ true → code ≡ pos 0
success_code (pos zero) h = refl
success_code (pos (suc n)) h = cc
success_code (negsuc n) h = cc

module _ (r : Redis) (nodes : NodeConfig) (t : Clock) (q : Request) (c : Counters)
    (s : r.Server) where
  abbrev pub counted_publish : Counters
  counted_publish = record c { total_publish_req = bump c.total_publish_req }

  abbrev pub task_to_publish : StreamTask
  task_to_publish = (publisher_task r nodes t q counted_publish).0

  -- A publisher is granted a stream only if no argument is missing, the authentication says yes,
  -- and the task that it is handed was registered.
  pub on_publish-is_granted :
      (code : Option ℤ)
      → is_granted (on_publish r nodes t q code c s).0 ≡ true
      → (validate_request q ≡ true)
        × (code ≡ some (pos 0))
        × ((register_task r t.registered task_to_publish s).0 ≡ true)
        × (task_of (on_publish r nodes t q code c s).0 ≡ some task_to_publish)
  unfolding on_publish publish_authorized
  on_publish-is_granted none h = ground (arith, h)
  on_publish-is_granted (some (pos zero)) h = ground (arith, h)
  on_publish-is_granted (some (pos (suc n))) h = ground (arith, h)
  on_publish-is_granted (some (negsuc n)) h = ground (arith, h)

  -- Without a grant by the authentication the server is not touched, and the only answers are an
  -- error or none at all.
  pub on_publish_denied :
      (code : Option ℤ)
      → code ≢ some (pos 0)
      → (is_granted (on_publish r nodes t q code c s).0 ≡ false)
        × ((on_publish r nodes t q code c s).2 ≡ s)
  unfolding on_publish publish_authorized
  on_publish_denied none h = (ground arith, ground arith)
  on_publish_denied (some (pos zero)) h = (ground (arith, h refl), ground (arith, h refl))
  on_publish_denied (some (pos (suc n))) h = (ground arith, ground arith)
  on_publish_denied (some (negsuc n)) h = (ground arith, ground arith)

  abbrev pub task_to_play : StreamTask → StreamTask
  task_to_play pub_task =
      new_task c.next_task_id t.created q player pub_task.server_ip pub_task.server_port

  abbrev pub IsBound : Option SchedulerResult → Type 0
  IsBound result =
      (pub_task : StreamTask) × (get_publisher_task r q.stream_name s ≡ some pub_task)
      × ((register_task r t.registered (task_to_play pub_task) s).0 ≡ true)
      × (task_of result ≡ some (task_to_play pub_task))

  abbrev pub counted_play : Counters
  counted_play = record c { total_play_req = bump c.total_play_req }

  play-IsBound :
      (found : Option StreamTask)
      → get_publisher_task r q.stream_name s ≡ found
      → is_granted (some (play_from r nodes t q found counted_play s).0) ≡ true
      → IsBound (some (play_from r nodes t q found counted_play s).0)
  play-IsBound none held h = cc
  play-IsBound (some pub_task) held h = (pub_task, held, ground (arith, h), ground (arith, h))

  answer_play :
      (code : Option ℤ)
      → is_granted (on_play r nodes t q code c s).0 ≡ true
      → (validate_request q ≡ true)
        × (code ≡ some (pos 0))
        × ((on_play r nodes t q code c s).0
            ≡ some (play_from r nodes t q (get_publisher_task r q.stream_name s) counted_play s).0)
  unfolding on_play play_authorized
  answer_play none h = ground (arith, h)
  answer_play (some (pos zero)) h = ground (arith, h)
  answer_play (some (pos (suc n))) h = ground (arith, h)
  answer_play (some (negsuc n)) h = ground (arith, h)

  -- A player is granted a stream only if no argument is missing, the authentication says yes, the
  -- stream is being published, and the task was registered; and then it is sent to the very node
  -- that the publisher is on.
  pub on_play-is_granted :
      (code : Option ℤ)
      → is_granted (on_play r nodes t q code c s).0 ≡ true
      → (validate_request q ≡ true)
        × (code ≡ some (pos 0))
        × IsBound (on_play r nodes t q code c s).0
  on_play-is_granted code h =
      let (v, e, answer) = answer_play code h in
      (v, e, rw answer (play-IsBound (get_publisher_task r q.stream_name s) refl (rw (← answer) h)))
