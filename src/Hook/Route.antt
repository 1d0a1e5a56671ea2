-- ===== src/Hook/Route.antt =====
-- src/util/HookUseCase.cpp and src/main/HookController.cpp: from a hook to the scheduler, and from
-- its result to the response.
use stream_gate.Base.{Option, none, some}
use stream_gate.Base.Int.{ℤ}
use stream_gate.Redis.{Redis}
use stream_gate.Scheduler.{
  success, SchedulerResult, Counters, Request, Clock, on_publish, on_play, on_publish_done,
  on_play_done,
}
use stream_gate.Scheduler.Nodes.{NodeConfig}
use stream_gate.Hook.{
  HookAction, publish, play, publish_done, stream_none_reader, play_done, ZlmHookRequest,
  ZlmHookResponse, unsupported_action, HookDecision, stream_key, get_token, allowed, denied,
  to_response,
}

unfoldable pub map_result : SchedulerResult → HookDecision
map_result res = elim res.error [ success ↦ allowed | _ ↦ denied res.message ]

abbrev pub request_of : ZlmHookRequest → Request
request_of req = record {
  stream_name = stream_key req;
  client_id = req.client_id;
  auth_token = get_token req;
  protocol = req.protocol;
}

module _ (r : Redis) (nodes : NodeConfig) where
  open r use {Server}

  -- The scheduler's callback, and then the controller's.
  abbrev pub respond_to :
      Option SchedulerResult × Counters × Server → Option ZlmHookResponse × Counters × Server
  respond_to (none, c, s) = (none, c, s)
  respond_to (some res, c, s) = (some (to_response (map_result res)), c, s)

  unfoldable pub process_publish :
      Clock
      → ZlmHookRequest
      → Option ℤ
      → Counters
      → Server
      → Option ZlmHookResponse × Counters × Server
  process_publish t req code c s = respond_to (on_publish r nodes t (request_of req) code c s)

  unfoldable pub process_play :
      Clock
      → ZlmHookRequest
      → Option ℤ
      → Counters
      → Server
      → Option ZlmHookResponse × Counters × Server
  process_play t req code c s = respond_to (on_play r nodes t (request_of req) code c s)

  unfoldable pub process_publish_done : ZlmHookRequest → Server → HookDecision × Server
  process_publish_done req s = (allowed, on_publish_done r nodes (stream_key req) req.client_id s)

  unfoldable pub process_play_done : ZlmHookRequest → Server → HookDecision × Server
  process_play_done req s = (allowed, on_play_done r nodes (stream_key req) req.client_id s)

  abbrev pub route :
      HookAction
      → Clock
      → ZlmHookRequest
      → Option ℤ
      → Counters
      → Server
      → Option ZlmHookResponse × Counters × Server
  route publish t req code c s = process_publish t req code c s
  route play t req code c s = process_play t req code c s
  route publish_done t req code c s =
      let (d, s') = process_publish_done req s in (some (to_response d), c, s')
  route stream_none_reader t req code c s =
      let (d, s') = process_publish_done req s in (some (to_response d), c, s')
  route play_done t req code c s =
      let (d, s') = process_play_done req s in (some (to_response d), c, s')
  route _ t req code c s =
      (some (record { code = unsupported_action; message = "Unsupported action" }), c, s)

  -- `code` is what the authentication calls back with, if it does; the response is what the
  -- callback gets.
  unfoldable pub route_hook :
      Clock
      → ZlmHookRequest
      → Option ℤ
      → Counters
      → Server
      → Option ZlmHookResponse × Counters × Server
  route_hook t hook code c s = route hook.action t hook code c s
