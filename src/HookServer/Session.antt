-- ===== src/HookServer/Session.antt =====
-- The class HookSession: one connection, on which requests follow each other. `_responded` is false
-- at first, and nothing sets it back.
use stream_gate.Base.{Bool, true, false, List, [], ◌∷◌, if◌then◌else◌}
use stream_gate.Json.{JsonLib}
use stream_gate.Hook.{ZlmHookRequest, ZlmHookResponse}
use stream_gate.HookServer.{
  HttpRequest, other_verb, HttpResponse, Handled, reply, forward, handle_request, answer_of,
  controller_threw,
}

-- `pending`: a hook is with the controller.
pub data Phase : Type 0 where
  reading pending writing closed : Phase

pub record HookSession : Type 0 where
  pub phase : Phase
  pub request : HttpRequest
  pub responded : Bool
  -- the `keep_alive` of the response that is written
  pub keep_alive : Bool

pub data ReadError : Type 0 where
  operation_aborted end_of_stream other_error : ReadError

pub data Event : Type 0 where
  read : HttpRequest → Event
  read_failed : ReadError → Event
  -- the controller calls back, or throws
  answered : ZlmHookResponse → Event
  threw : Event
  written : Event
  write_failed : Event

-- What goes to the client: a response of the server's own, one that carries the controller's, or the
-- one for a controller that threw.
pub data Output : Type 0 where
  own carried failed : HttpResponse → Output
  to_controller : ZlmHookRequest → Output
  shut nothing : Output

-- `_request = {}`
abbrev no_request : HttpRequest
no_request = record { verb = other_verb; target = ""; keep_alive = true; body = "" }

abbrev pub new_session : HookSession
new_session = record {
  phase = reading;
  request = no_request;
  responded = false;
  keep_alive = false;
}

abbrev write : HttpResponse → HookSession → HookSession
write response s = record s { phase = writing; keep_alive = response.keep_alive }

abbrev pub close : HookSession → HookSession
close s = record s { phase = closed }

abbrev pub deliver : Handled → HookSession → HookSession × Output
deliver (reply response) s = (write response s, own response)
deliver (forward hook) s = (record s { phase = pending }, to_controller hook)

-- The callback: the exchange, and then the response to the request that is there now.
abbrev pub pass_on : Bool → ZlmHookResponse → HookSession → HookSession × Output
pass_on true response s = (s, nothing)
pass_on false response s =
    let sent = answer_of s.request response in
    (write sent (record s { responded = true }), carried sent)

abbrev pub call_back : ZlmHookResponse → HookSession → HookSession × Output
call_back response s = pass_on s.responded response s

abbrev pub fail : HookSession → HookSession × Output
fail s = (write (controller_threw s.request) s, failed (controller_threw s.request))

unfoldable pub on_write : HookSession → HookSession × Output
on_write s =
    if s.keep_alive
    then (record s { phase = reading; request = no_request }, nothing)
    else (close s, shut)

module _ (lib : JsonLib) where
  abbrev pub receive : HttpRequest → HookSession → HookSession × Output
  receive req s = deliver (handle_request lib req) (record s { request = req })

  -- One event in one phase; those that the phase does not allow change nothing.
  abbrev pub react : Event → Phase → HookSession → HookSession × Output
  unfolding on_write
  react (read req) reading s = receive req s
  react (read_failed end_of_stream) reading s = (close s, shut)
  react (read_failed operation_aborted) reading s = (close s, nothing)
  react (read_failed other_error) reading s = (close s, nothing)
  react (answered response) pending s = call_back response s
  react threw pending s = fail s
  react written writing s = on_write s
  react write_failed writing s = (close s, nothing)
  react _ _ s = (s, nothing)

  unfoldable pub step : Event → HookSession → HookSession × Output
  step e s = react e s.phase s

  unfoldable pub run : List Event → HookSession → HookSession × List Output
  unfolding step
  run [] s = (s, [])
  run (e ∷ es) s = let (s', o) = step e s in let (s'', os) = run es s' in (s'', o ∷ os)
