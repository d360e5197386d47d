-- ===== src/Server/Serving.antt =====
-- A whole request: include/webcrown/server/impl/webserver.cpp with the parser and the routing
-- middleware, from the buffer that is read to the response that is written.
mod Witness
use webcrown.Base.{
  ℕ, ◌+◌, ◌<◌, ◌≡◌, ◌≢◌, refl, ◌∙◌, sym, ap, subst, List, [], ◌∷◌, ◌++◌, Bytes, codes, length,
  length-append, Option, none, some, Bool, true, false, not, leb, if◌then◌else◌, ◌==◌, arith,
  Bool-cases, inl, inr, StringMap, ==_refl,
}
use webcrown.Http.Method.{to_method}
use webcrown.Http.Phase.{ParsePhase}
use webcrown.Http.Request.{HttpRequest, with_body}
use webcrown.Http.Response.{HttpResponse, new_response, build}
use webcrown.Parser.Memory.{Memory, Holds}
use webcrown.Parser.Text.{crlf, stored, headers_text, request_line_text}
use webcrown.Parser.Defs.{Parser, new_parser}
use webcrown.Parser.Headers.{content_type_of}
use webcrown.Parser.Parse.{BodyKind, Parsed, parse, body_kind}
use webcrown.Parser.Reading.{request_text, read_parser, announces, IsRequest}
use webcrown.Parser.RoundTrip.{parse-request_text}
use webcrown.Route.{Route, answered}
use webcrown.Middleware.Routing.{
  Ran, returned, Registered, Executed, executed, escaped, execute_routing,
}
use webcrown.Middleware.Routing.Laws.{Missed, match_of, execute_routing_returned}
use webcrown.Server.Session.{WebSession, Acted, acted, Command, async_write_some, add_size}
use webcrown.Server.Receive.{
  Middleware, run_middlewares, Handled, handled, on_receive, read_on, async_receive_handler,
}
use webcrown.Server.Closing.{IsClosed, IsReady, leaving, on_receive_answer}
use webcrown.Server.Registry.{WebServer, registered}
use webcrown.Server.Registry.Laws.{unregister_session_lem}
use webcrown.Server.Connection.World.{Outside, obey, obey_all}
use webcrown.Server.Connection.{Connection, handle_read}
use webcrown.Server.Connection.Handlers.{enlarged}

-- The routing middleware in the row of a server; its `execute` always returns false.
abbrev of_executed : Executed → Option (Bool × HttpResponse)
of_executed (executed rs response) = some (false, response)
of_executed escaped = none

abbrev pub routing : List Registered → Middleware
routing rs request response = of_executed (execute_routing rs request response)

IsClosed-if :
    (b : Bool) (s t : WebSession) → IsClosed s → IsClosed t → IsClosed (if b then s else t)
IsClosed-if true s t h k = h
IsClosed-if false s t h k = k

-- Behind a buffer that has closed the session nothing more is read.
read_on-IsClosed :
    (closes : Bool) (walk : StringMap → StringMap) (middlewares : List Middleware) (size : ℕ)
    (q : Parser) (a : Acted)
    → IsClosed a.session
    → (t : WebSession) × (read_on closes walk middlewares size (handled q a)
        ≡ handled q (acted t a.commands))
      × IsClosed t
unfolding read_on
read_on-IsClosed closes walk middlewares size q a k =
    let t = enlarged size a.session in
    let c : IsClosed t =
      IsClosed-if (leb a.session.receive_buffer_size size) _ _
        (record { off = k.off; still = k.still; no_flush = k.no_flush; no_main = k.no_main }) k in
    (t, rw (read_on, c.off) refl, c)

nonempty :
    (m t : Bytes) (hs : List (Bytes × Bytes)) (body : Bytes)
    → (length (request_text m t hs body) == 0) ≡ false
nonempty m t hs body =
    let rest = headers_text hs ++ (crlf ++ body) in
    let line = b' ' ∷ (t ++ (b' ' ∷ (codes "HTTP/1.1" ++ crlf))) in
    ground (arith, length-append {0} (request_line_text m t) rest, length-append {0} m line)

registered_gone :
    (text : Bytes) (s : WebSession) (w : Outside)
    → registered s.session_id (obey_all (async_write_some text ∷ leaving s) w).server.sessions
      ≡ false
unfolding obey obey_all
registered_gone text s w =
    unregister_session_lem w.server s.session_id s.session_id ∙ rw (==_refl) refl

run_routing :
    (before kept after : List Registered) (r : Registered) (route : Route) (request : HttpRequest)
    (response : HttpResponse)
    → Missed request before kept
    → match_of r request ≡ answered true route
    → r.callback request new_response route.path_parameters ≡ returned response
    → run_middlewares (routing (before ++ r ∷ after) ∷ []) request new_response ≡ some response
unfolding run_middlewares
run_routing before kept after r route request response miss match ran =
    let served =
      execute_routing_returned request new_response response before kept r route after miss match
        ran in
    rw (run_middlewares, served) refl

-- A session that is connected, with a parser that has read nothing, and its send buffers empty,
-- reads a buffer with a whole request, as in `parse-request_text`. The server has one middleware,
-- the routing; the request's method and target match a route of it, none before does, and the
-- callback, which is given the parameters of the match, returns a response. Then one write is begun,
-- of that response whole, the session is closed and taken out of the registry, and no other read is
-- begun; the socket closes without an error.
pub serve_request :
    (m t : Bytes) (hs : List (Bytes × Bytes)) (body : Bytes) (mem : Memory) (request : HttpRequest)
    (walk : StringMap → StringMap) (before kept after : List Registered) (r : Registered)
    (route : Route) (response : HttpResponse) (c : Connection)
    → IsRequest m t hs
    → body_kind (content_type_of (stored hs [])) ≡ BodyKind.plain
    → (announces (stored hs []) ≡ true → body ≢ [])
    → Holds mem 0 (request_text m t hs body)
    → request ≡ with_body (to_method m) 11 t (stored hs []) (crlf ++ (crlf ++ body))
    → Missed request before kept
    → match_of r request ≡ answered true route
    → r.callback request new_response route.path_parameters ≡ returned response
    → c.world.server.middlewares ≡ routing (before ++ r ∷ after) ∷ []
    → c.parser ≡ new_parser
    → IsReady c.session
    → (q : Parser) × (a : Acted) × (handle_read true walk false mem
          (length (request_text m t hs body))
          c
        ≡ handled q a)
      × (a.commands ≡ async_write_some (build walk response).1 ∷ leaving c.session)
      × IsClosed a.session
      × (registered c.session.session_id (obey_all a.commands c.world).server.sessions ≡ false)
unfolding handle_read async_receive_handler
serve_request m t hs body mem request walk before kept after r route response c formed kind full
      held same miss match ran row fresh ready =
    let size = length (request_text m t hs body) in
    let s = c.session in
    let s' = record s { receiving = false; bytes_received = add_size s.bytes_received size } in
    let ready' : IsReady s' = record {
      on = ready.on;
      still = ready.still;
      no_flush = ready.no_flush;
      no_main = ready.no_main;
    } in
    let q = read_parser m t (stored hs []) ParsePhase.finished in
    let read =
      ap (λ (p : Parser). parse p mem size) fresh
      ∙ parse-request_text m t hs body mem formed kind full held
      ∙ ap (λ (x : HttpRequest). Parsed.returned (some x) q none) (sym same) in
    let found =
      ap (λ (ms : List Middleware). run_middlewares ms request new_response) row
      ∙ run_routing before kept after r route request response miss match ran in
    let (a, e, closed, asked) =
      on_receive_answer walk c.world.server.middlewares c.parser q mem size s' request response read
        refl found ready' in
    let (u, f, shut) = read_on-IsClosed true walk c.world.server.middlewares size q a closed in
    let some_bytes : (size == 0) ≡ false = nonempty m t hs body in
    (
      q,
      acted u a.commands,
      rw (some_bytes, e, f) refl,
      asked,
      shut,
      rw asked (registered_gone (build walk response).1 s c.world),
    )
