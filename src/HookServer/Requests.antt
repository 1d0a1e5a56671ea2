-- ===== src/HookServer/Requests.antt =====
-- Which requests reach the controller.
use stream_gate.Base.{
  String, ◌≡◌, refl, ap, ◌↔◌, Bool, true, false, Option, none, some, if◌then◌else◌,
}
use stream_gate.Base.Text.{◌++◌}
use stream_gate.Json.{JsonLib}
use stream_gate.Hook.{ZlmHookRequest, HookAction}
use stream_gate.Hook.Decode.{from_json}
use stream_gate.Hook.Params.{absent, split_at-absent, split_at_first}
use stream_gate.HookServer.{
  HttpRequest, reply, forward, Verb, get, post, other_verb, map_path_to_action, path_of, is_unknown,
  handle_request, handle_verb, handle_post, hand_over, decode, send_response, handle_get,
}

module _ (lib : JsonLib) where
  open lib use {Json}

  -- What a hook needs to be handed over.
  abbrev pub Reads : HttpRequest → ZlmHookRequest → Type 0
  Reads req hook =
      (req.verb ≡ post)
      × (is_unknown (map_path_to_action (path_of req.target)) ≡ false)
      × (j : Json) × (read : ZlmHookRequest) × (lib.parse req.body ≡ some j)
      × (from_json lib j ≡ some read)
      × (hook ≡ record read { action = map_path_to_action (path_of req.target) })

  abbrev Read : HookAction → Option ZlmHookRequest → ZlmHookRequest → Type 0
  Read action found hook =
      (read : ZlmHookRequest) × (found ≡ some read) × (hook ≡ record read { action = action })

  hand_over-forward :
      (req : HttpRequest) (action : HookAction) (found : Option ZlmHookRequest)
      (hook : ZlmHookRequest)
      → hand_over lib req action found ≡ forward hook
      → Read action found hook
  hand_over-forward req action none hook e = cc
  hand_over-forward req action (some read) hook e = (read, refl, cc)

  abbrev Decoded : HookAction → Option Json → ZlmHookRequest → Type 0
  Decoded action found hook =
      (j : Json) × (read : ZlmHookRequest) × (found ≡ some j)
      × (from_json lib j ≡ some read)
      × (hook ≡ record read { action = action })

  decode-forward :
      (req : HttpRequest) (action : HookAction) (found : Option Json) (hook : ZlmHookRequest)
      → decode lib req action found ≡ forward hook
      → Decoded action found hook
  decode-forward req action none hook e = cc
  decode-forward req action (some j) hook e =
      let (read, made, same) = hand_over-forward req action (from_json lib j) hook e in
      (j, read, refl, made, same)

  post_forward :
      (req : HttpRequest) (action : HookAction) (b : Bool) (hook : ZlmHookRequest)
      → (if b
          then reply (send_response req 404 999 "Not found")
          else decode lib req action (lib.parse req.body))
        ≡ forward hook
      → (b ≡ false) × Decoded action (lib.parse req.body) hook
  post_forward req action true hook e = cc
  post_forward req action false hook e =
      (refl, decode-forward req action (lib.parse req.body) hook e)

  verb_forward :
      (req : HttpRequest) (verb : Verb) (hook : ZlmHookRequest)
      → handle_verb lib req (path_of req.target) verb ≡ forward hook
      → (verb ≡ post)
        × (is_unknown (map_path_to_action (path_of req.target)) ≡ false)
        × Decoded (map_path_to_action (path_of req.target)) (lib.parse req.body) hook
  unfolding handle_post
  verb_forward req get hook e = cc
  verb_forward req other_verb hook e = cc
  verb_forward req post hook e =
      let action = map_path_to_action (path_of req.target) in
      let (known, decoded) = post_forward req action (is_unknown action) hook e in
      (refl, known, decoded)

  Reads-forward :
      (req : HttpRequest) (hook : ZlmHookRequest)
      → Reads req hook
      → handle_request lib req ≡ forward hook
  unfolding handle_request handle_post
  Reads-forward req hook (posted, known, j, read, parsed, made, same) =
      rw (posted, known, parsed, made, same) refl

  -- A request is handed to the controller exactly if it is a POST to one of the six paths whose body
  -- is JSON that a hook can be read from. The action of that hook is the one of the path, whatever
  -- the body says.
  pub handle_request-forward :
      (req : HttpRequest) (hook : ZlmHookRequest)
      → (handle_request lib req ≡ forward hook) ↔ Reads req hook
  unfolding handle_request
  handle_request-forward req hook = (
    λ e.
        let (posted, known, (j, read, parsed, made, same)) = verb_forward req req.verb hook e in
        (posted, known, j, read, parsed, made, same),
    Reads-forward req hook,
  )

  path_of_query :
      (path query : String) → absent "?" path ≡ true → path_of (path ++ "?" ++ query) ≡ path_of path
  path_of_query path query h =
      rw (path_of, split_at_first "?" path query h, split_at-absent "?" path h) refl

  -- What follows a question mark in the target makes no difference to what is done with a request.
  pub handle_request-query :
      (req : HttpRequest) (path query : String)
      → absent "?" path ≡ true
      → handle_request lib (record req { target = path ++ "?" ++ query })
        ≡ handle_request lib (record req { target = path })
  unfolding handle_request handle_post handle_get send_response
  handle_request-query req path query h =
      ap (λ p. handle_verb lib req p req.verb) (path_of_query path query h)
