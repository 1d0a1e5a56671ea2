-- ===== src/HookServer/Served.antt =====
-- A request through the server, the hook's route and the scheduler, to the response.
use stream_gate.Base.{
  String, ◌≡◌, ◌∙◌, sym, refl, ap, Bool, true, false, Option, none, some, eqb, arith,
}
use stream_gate.Base.Int.{ℤ, pos}
use stream_gate.Base.Text.{is_empty}
use stream_gate.Json.{JsonLib}
use stream_gate.Redis.{Redis}
use stream_gate.State.Register.{register_task}
use stream_gate.Scheduler.{Counters, Clock}
use stream_gate.Scheduler.Granted.{task_to_publish}
use stream_gate.Scheduler.Nodes.{NodeConfig}
use stream_gate.Hook.{
  ZlmHookRequest, ZlmHookResponse, ZlmHookResult, publish, success, auth_denied, invalid_format,
  unsupported_action, internal_error, timeout, resource_not_ready, get_token,
}
use stream_gate.Hook.Answers.{is_success, route_hook-publish}
use stream_gate.Hook.Decode.{from_json}
use stream_gate.Hook.Route.{request_of, route_hook}
use stream_gate.HookServer.{
  HttpRequest, HttpResponse, Body, metrics_report, health_report, business, Handled, reply, forward,
  Verb, get, post, other_verb, handle_request, handle_verb, handle_get, handle_post, answer_of,
  send_response, map_path_to_action, path_of, decode, hand_over,
}
use stream_gate.HookServer.Requests.{Reads, handle_request-forward}

abbrev grants_body : Body → Bool
grants_body metrics_report = false
grants_body health_report = false
grants_body (business code message) = eqb code 0

-- The media server takes the business code 0 for a yes.
abbrev pub grants : Option HttpResponse → Bool
grants none = false
grants (some response) = grants_body response.body

module _ (lib : JsonLib) (r : Redis) (nodes : NodeConfig) where
  open r use {Server}

  abbrev carry : HttpRequest → Option ZlmHookResponse → Option HttpResponse
  carry req none = none
  carry req (some response) = some (answer_of req response)

  abbrev serve_handled :
      Clock
      → HttpRequest
      → Handled
      → Option ℤ
      → Counters
      → Server
      → Option HttpResponse × Counters × Server
  serve_handled t req (reply response) code c s = (some response, c, s)
  serve_handled t req (forward hook) code c s =
      let (response, c', s') = route_hook r nodes t hook code c s in (carry req response, c', s')

  -- The first request of a session. `code` is what the authentication says, if it is asked and
  -- answers; without a response the client waits.
  unfoldable pub serve :
      Clock → HttpRequest → Option ℤ → Counters → Server → Option HttpResponse × Counters × Server
  serve t req code c s = serve_handled t req (handle_request lib req) code c s

  answer-grants :
      (req : HttpRequest) (result : ZlmHookResult) (message : String)
      → grants (some (answer_of req (record { code = result; message = message })))
        ≡ is_success (some (record { code = result; message = message }))
  unfolding answer_of send_response
  answer-grants req success message = refl
  answer-grants req auth_denied message = refl
  answer-grants req invalid_format message = refl
  answer-grants req unsupported_action message = refl
  answer-grants req internal_error message = refl
  answer-grants req timeout message = refl
  answer-grants req resource_not_ready message = refl

  carry-grants :
      (req : HttpRequest) (o : Option ZlmHookResponse) → grants (carry req o) ≡ is_success o
  carry-grants req none = refl
  carry-grants req (some response) = answer-grants req response.code response.message

  get-refused : (req : HttpRequest) (path : String) → grants (some (handle_get req path)) ≡ false
  unfolding handle_get send_response
  get-refused req path = ground arith

  own_grants : Handled → Bool
  own_grants (reply response) = grants (some response)
  own_grants (forward hook) = false

  hand_over-refused :
      (req : HttpRequest) (found : Option ZlmHookRequest)
      → own_grants (hand_over lib req publish found) ≡ false
  unfolding own_grants send_response
  hand_over-refused req none = refl
  hand_over-refused req (some hook) = refl

  decode-refused :
      (req : HttpRequest) (found : Option lib.Json)
      → own_grants (decode lib req publish found) ≡ false
  unfolding own_grants send_response
  decode-refused req none = refl
  decode-refused req (some j) = hand_over-refused req (from_json lib j)

  verb-refused :
      (req : HttpRequest) (path : String) (verb : Verb)
      → map_path_to_action path ≡ publish
      → own_grants (handle_verb lib req path verb) ≡ false
  unfolding own_grants send_response handle_post
  verb-refused req path get e = get-refused req path
  verb-refused req path post e = rw e (decode-refused req (lib.parse req.body))
  verb-refused req path other_verb e = refl

  module _ (t : Clock) (req : HttpRequest) (code : Option ℤ) (c : Counters) (s : Server)
      (path : map_path_to_action (path_of req.target) ≡ publish) where
    abbrev pub Granted : ZlmHookRequest → Type 0
    Granted hook =
        (is_empty hook.client_id ≡ false)
        × (is_empty (get_token hook) ≡ false)
        × (code ≡ some (pos 0))
        × ((register_task r t.registered (task_to_publish r nodes t (request_of hook) c s) s).0
            ≡ true)

    abbrev pub Accepted : Type 0
    Accepted = (hook : ZlmHookRequest) × Reads lib req hook × Granted hook

    from_handled :
        (handled : Handled)
        → handle_request lib req ≡ handled
        → own_grants handled ≡ false
        → grants (serve_handled t req handled code c s).0 ≡ true
        → Accepted
    unfolding own_grants
    from_handled (reply response) e own h = cc
    from_handled (forward hook) e own h =
        let reads = (handle_request-forward lib req hook).0 e in
        let (_, _, j, read, _, _, same) = reads in
        let action : hook.action ≡ publish = ap (λ x. x.action) same ∙ path in
        let told = sym (carry-grants req (route_hook r nodes t hook code c s).0) ∙ h in
        (hook, reads, route_hook-publish r nodes t c s hook code action told)

    -- The answer to a request to the path for publishing has the business code 0, the media server's
    -- yes, only if it is a POST with a hook in it that names the client and the token, the
    -- authentication said yes, and the publisher's task was registered.
    pub serve-grants : grants (serve t req code c s).0 ≡ true → Accepted
    unfolding serve handle_request
    serve-grants h =
        from_handled (handle_request lib req) refl
          (verb-refused req (path_of req.target) req.verb path) h
