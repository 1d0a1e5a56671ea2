-- ===== src/Hook/Answers.antt =====
-- Which responses the hooks give.
use Prim.Native.String.{[] as nil, ◌∷◌ as ◌∷ₛ◌}
use stream_gate.Base.Text.{◌++◌, is_empty}
use stream_gate.Base.{
  String, not, ◌&&◌, zero, suc, ◌≡◌, refl, sym, ap, ◌∙◌, Bool, true, false, Option, none, some,
  arith,
}
use stream_gate.Base.Int.{ℤ, pos, negsuc}
use stream_gate.Task.{StreamTask, player}
use stream_gate.Redis.{Redis}
use stream_gate.State.Register.{register_task}
use stream_gate.State.Query.{get_publisher_task}
use stream_gate.Scheduler.{
  SchedulerResult, Counters, Request, Clock, validate_request, new_task, published, played,
  publish_authorized, on_publish, play_authorized, on_play, play_from,
}
use stream_gate.Scheduler.Granted.{is_granted, on_publish-is_granted, counted_play, task_to_publish}
use stream_gate.Scheduler.Nodes.{NodeConfig}
use stream_gate.Hook.{
  HookAction, publish, play, publish_done, stream_none_reader, play_done, stream_not_found,
  unknown_action, ZlmHookRequest, ZlmHookResponse, success, auth_denied, to_response, get_token,
  stream_key,
}
use stream_gate.Hook.Route.{
  map_result, request_of, process_publish, process_play, process_publish_done, process_play_done,
  route_hook, route, respond_to,
}

append-is_empty : (s t : String) → is_empty t ≡ false → is_empty (s ++ t) ≡ false
append-is_empty nil t h = h
append-is_empty (c ∷ₛ s) t h = refl

abbrev pub is_auth_denied : Option ZlmHookResponse → Bool
is_auth_denied none = false
is_auth_denied (some response) = elim response.code [ auth_denied ↦ true | _ ↦ false ]

abbrev pub is_success : Option ZlmHookResponse → Bool
is_success none = false
is_success (some response) = elim response.code [ success ↦ true | _ ↦ false ]

-- The response to what the scheduler says.
abbrev told : Option SchedulerResult → Option ZlmHookResponse
told none = none
told (some res) = some (to_response (map_result res))

module _ (r : Redis) (nodes : NodeConfig) (t : Clock) (c : Counters) (s : r.Server) where
  module _ (q : Request) where
    published-told :
        (task : StreamTask) (b : Bool) (c' : Counters) (s' : r.Server)
        → is_auth_denied (told (some (published r nodes task c' (b, s')).0)) ≡ false
    unfolding map_result to_response
    published-told task true c' s' = refl
    published-told task false c' s' = refl

    played-told :
        (task : StreamTask) (b : Bool) (c' : Counters) (s' : r.Server)
        → is_auth_denied (told (some (played r nodes task c' (b, s')).0)) ≡ false
    unfolding map_result to_response
    played-told task true c' s' = refl
    played-told task false c' s' = refl

    play_from-told :
        (found : Option StreamTask) (c' : Counters)
        → is_auth_denied (told (some (play_from r nodes t q found c' s).0)) ≡ false
    unfolding map_result to_response
    play_from-told none c' = refl
    play_from-told (some p) c' =
        let task = new_task c'.next_task_id t.created q player p.server_ip p.server_port in
        let done = register_task r t.registered task s in played-told task done.0 _ done.1

    publish_told :
        (b : Bool) (code : Option ℤ)
        → validate_request q ≡ b
        → is_auth_denied (told (on_publish r nodes t q code c s).0) ≡ false
    unfolding on_publish publish_authorized map_result to_response
    publish_told false code e = rw (e, on_publish) refl
    publish_told true none e = rw (e, on_publish) refl
    publish_told true (some (pos zero)) e =
        rw (e, on_publish)
          (published-told (task_to_publish r nodes t q c s)
            (register_task r t.registered (task_to_publish r nodes t q c s) s).0 _ _)
    publish_told true (some (pos (suc n))) e = rw (e, on_publish) refl
    publish_told true (some (negsuc n)) e = rw (e, on_publish) refl

    play_told :
        (b : Bool) (code : Option ℤ)
        → validate_request q ≡ b
        → is_auth_denied (told (on_play r nodes t q code c s).0) ≡ false
    unfolding on_play play_authorized map_result to_response
    play_told false code e = rw (e, on_play) refl
    play_told true none e = rw (e, on_play) refl
    play_told true (some (pos zero)) e =
        rw (e, on_play)
          (play_from-told (get_publisher_task r q.stream_name s) (counted_play r nodes t q c s))
    play_told true (some (pos (suc n))) e = rw (e, on_play) refl
    play_told true (some (negsuc n)) e = rw (e, on_play) refl

  respond_to-told :
      (x : Option SchedulerResult × Counters × r.Server) → (respond_to r nodes x).0 ≡ told x.0
  respond_to-told (none, c', s') = refl
  respond_to-told (some res, c', s') = refl

  route_told :
      (action : HookAction) (hook : ZlmHookRequest) (code : Option ℤ)
      → is_auth_denied (route r nodes action t hook code c s).0 ≡ false
  unfolding process_publish process_play process_publish_done process_play_done to_response
  route_told publish hook code =
      ap is_auth_denied (respond_to-told (on_publish r nodes t (request_of hook) code c s))
      ∙ publish_told (request_of hook) _ code refl
  route_told play hook code =
      ap is_auth_denied (respond_to-told (on_play r nodes t (request_of hook) code c s))
      ∙ play_told (request_of hook) _ code refl
  route_told publish_done hook code = refl
  route_told play_done hook code = refl
  route_told stream_none_reader hook code = refl
  route_told stream_not_found hook code = refl
  route_told unknown_action hook code = refl

  -- No hook is ever answered with the code for a denied authentication, not even one that the
  -- authentication denies: the response gives that code only for reasons with certain English
  -- words, and the scheduler's reasons have none of them.
  pub route_hook-is_auth_denied :
      (hook : ZlmHookRequest) (code : Option ℤ)
      → is_auth_denied (route_hook r nodes t hook code c s).0 ≡ false
  unfolding route_hook
  route_hook-is_auth_denied hook code = route_told hook.action hook code

  told-is_granted : (o : Option SchedulerResult) → is_success (told o) ≡ is_granted o
  unfolding map_result to_response
  told-is_granted none = refl
  told-is_granted (some res) = ground arith

  route-is_granted :
      (action : HookAction) (hook : ZlmHookRequest) (code : Option ℤ)
      → action ≡ publish
      → is_success (route r nodes action t hook code c s).0
        ≡ is_granted (on_publish r nodes t (request_of hook) code c s).0
  unfolding process_publish
  route-is_granted action hook code e = rw e (
      ap is_success (respond_to-told (on_publish r nodes t (request_of hook) code c s))
      ∙ told-is_granted (on_publish r nodes t (request_of hook) code c s).0)

  -- The key of a stream is never empty, so that the scheduler's check of the arguments looks at the
  -- client and the token only: a hook without a stream passes it.
  pub validate_request-request_of :
      (hook : ZlmHookRequest)
      → validate_request (request_of hook)
        ≡ (not (is_empty hook.client_id) && not (is_empty (get_token hook)))
  validate_request-request_of hook =
      let key = "/" ++ hook.app ++ "/" ++ hook.stream in
      let given : is_empty (stream_key hook) ≡ false = append-is_empty hook.vhost key refl in
      ground (arith, given)

  -- A hook for a new publisher is answered with success only if the client and the token are given,
  -- the authentication says yes, and the task was registered under the key of virtual host,
  -- application and stream.
  pub route_hook-publish :
      (hook : ZlmHookRequest) (code : Option ℤ)
      → hook.action ≡ publish
      → is_success (route_hook r nodes t hook code c s).0 ≡ true
      → (is_empty hook.client_id ≡ false)
        × (is_empty (get_token hook) ≡ false)
        × (code ≡ some (pos 0))
        × ((register_task r t.registered (task_to_publish r nodes t (request_of hook) c s) s).0
            ≡ true)
  unfolding route_hook process_publish
  route_hook-publish hook code e h =
      let (v, granted, registered, _) =
        on_publish-is_granted r nodes t (request_of hook) c s code
          (sym (route-is_granted hook.action hook code e) ∙ h) in
      let given = sym (validate_request-request_of hook) ∙ v in
      (ground (arith, given), ground (arith, given), granted, registered)
