-- ===== src/Server/Witness.antt =====
-- The theorems of the sessions and of the server at concrete inputs.
use webcrown.Base.{
  List, [], ◌∷◌, ◌++◌, Bytes, codes, length, ◌+◌, ◌<◌, none, some, true, false, ◌≡◌, refl, arith,
  ◌⊎◌,
}
use webcrown.Http.Error.{HttpError}
use webcrown.Http.Request.{HttpRequest, with_body}
use webcrown.Http.Method.{get}
use webcrown.Http.Response.{new_response, build, set_body}
use webcrown.Parser.Code.{parser_code}
use webcrown.Parser.Memory.{holding}
use webcrown.Parser.Text.{crlf}
use webcrown.Parser.Defs.{Parser, new_parser}
use webcrown.Parser.Parse.{Parsed, returned, parse}
use webcrown.Server.Session.{
  WebSession, Acted, async_write_some, close, shutdown_receive, unregister_session, send_async,
  buffer_text, try_send, swap_buffers, async_write_handler,
}
use webcrown.Server.Stream.Socket.{Link, give, complete, started}
use webcrown.Server.Stream.{Reach, gave, completed, begun, sent_in_order}
use webcrown.Server.Receive.{Middleware, run_middlewares, handled, on_receive}
use webcrown.Server.Closing.{
  IsClosed, leaving, async_write_handler-IsClosed, on_receive_answer, on_receive_refused,
}
use webcrown.Server.Registry.{
  WebServer, new_server, start_server, accept, async_accept, registered, accepted_session,
  disconnect_session, Endpoint,
}
use webcrown.Server.Registry
use webcrown.Server.Registry.Laws.{made, began, accept_fresh, disconnect_session-IsClosed}
use webcrown.Server.Registry.Refinement.{
  ServerEvent, handle_all, view, handle_all_abstract, view-handle_all,
}

abbrev idle_session : WebSession
idle_session = record {
  session_id = 1;
  connected = true;
  receiving = false;
  sending = false;
  receive_buffer_size = 16;
  send_buffer_main = [];
  send_buffer_flush = [];
  send_buffer_flush_offset = 0;
  bytes_pending = 0;
  bytes_sending = 0;
  bytes_received = 0;
  bytes_sent = 0;
}

abbrev begun_link : Link
begun_link = record { session = idle_session; writing = none; wire = []; given = [] }

-- Two texts are given, and the socket has taken two bytes of the first.
abbrev given_link : Link
given_link = give (codes "d") (give (codes "abc") begun_link)

abbrev partly_sent : Link
partly_sent = complete 2 (codes "abc") given_link

partly_sent-Reach : Reach idle_session partly_sent
unfolding give send_async buffer_text try_send swap_buffers started
partly_sent-Reach =
    completed given_link 2 (codes "abc") refl (omega arith) (omega arith)
      (gave _ (codes "d") (omega arith) (gave _ (codes "abc") (omega arith) begun))

sent_in_order_example :
    (partly_sent.wire ≡ partly_sent.given)
    ⊎ ((text : Bytes) × (partly_sent.writing ≡ some text)
        × (0 < length text)
        × (partly_sent.wire ++ (text ++ partly_sent.session.send_buffer_main) ≡ partly_sent.given))
sent_in_order_example = sent_in_order idle_session partly_sent refl refl refl partly_sent-Reach

abbrev closed_session : WebSession
closed_session = record idle_session { connected = false; send_buffer_flush_offset = 3 }

async_write_handler-IsClosed_example :
    IsClosed (async_write_handler true false 3 closed_session).session
    × ((async_write_handler true false 3 closed_session).commands ≡ [])
async_write_handler-IsClosed_example =
    async_write_handler-IsClosed true false 3 closed_session
      (record { off = refl; still = refl; no_flush = refl; no_main = refl })

abbrev get_text : Bytes
get_text = codes "GET /a HTTP/1.1" ++ crlf ++ codes "Host: x" ++ crlf ++ crlf

abbrev greet : Middleware
greet request response = some (false, set_body (codes "ok") response)

abbrev parsed_request : Parsed → HttpRequest
parsed_request (returned (some r) p e) = r
parsed_request _ = with_body get 11 [] [] []

abbrev parsed_parser : Parsed → Parser
parsed_parser (returned r p e) = p
parsed_parser _ = new_parser

abbrev get_run : Parsed
get_run = parse new_parser (holding get_text) (length get_text)

on_receive_answer_example :
    (a : Acted) × (on_receive true
        (λ m. m)
        (greet ∷ [])
        new_parser
        (holding get_text)
        (length get_text)
        idle_session
      ≡ handled (parsed_parser get_run) a)
    × IsClosed a.session
    × (a.commands
        ≡ async_write_some (build (λ m. m) (set_body (codes "ok") new_response)).1
          ∷ close
          ∷ shutdown_receive
          ∷ close
          ∷ unregister_session 1
          ∷ [])
unfolding parser_code run_middlewares
on_receive_answer_example =
    on_receive_answer (λ m. m) (greet ∷ []) new_parser (parsed_parser get_run) (holding get_text)
      (length get_text) idle_session (parsed_request get_run) (set_body (codes "ok") new_response)
      refl refl refl (record { on = refl; still = refl; no_flush = refl; no_main = refl })

-- A request line with a wrong version.
abbrev old_text : Bytes
old_text = codes "GET /a HTTP/1.0" ++ crlf ++ crlf

abbrev old_run : Parsed
old_run = parse new_parser (holding old_text) (length old_text)

on_receive_refused_example :
    (a : Acted) × (on_receive true
        (λ m. m)
        (greet ∷ [])
        new_parser
        (holding old_text)
        (length old_text)
        idle_session
      ≡ handled (parsed_parser old_run) a)
    × IsClosed a.session
    × (a.commands ≡ close ∷ shutdown_receive ∷ close ∷ unregister_session 1 ∷ [])
unfolding parser_code
on_receive_refused_example =
    on_receive_refused (λ m. m) (greet ∷ []) new_parser (parsed_parser old_run) (holding old_text)
      (length old_text) idle_session none HttpError.bad_version refl refl

abbrev good_endpoint : Endpoint
good_endpoint = record { bad_address = false; bad_open = false; bad_bind = false }

abbrev running_server : WebServer
running_server = (start_server good_endpoint new_server).server

accept_fresh_example :
    (registered (running_server.last_session_id + 1) running_server.sessions ≡ false)
    × ((accept running_server).server.sessions
        ≡ (running_server.last_session_id + 1) ∷ running_server.sessions)
    × ((accept running_server).commands ≡ async_accept (running_server.last_session_id + 1) ∷ [])
unfolding new_server start_server webcrown.Server.Registry.start_handler accept
    webcrown.Server.Registry.accept_handler webcrown.Server.Registry.register_session registered
accept_fresh_example =
    accept_fresh running_server (began new_server good_endpoint (omega arith) made) (omega arith)
      refl

abbrev two_sessions : WebServer
two_sessions = record new_server { last_session_id = 2; sessions = 2 ∷ 1 ∷ [] }

abbrev life : List ServerEvent
life = ServerEvent.accepted false ∷ ServerEvent.ended 2 ∷ ServerEvent.stopped ∷ []

view-handle_all_example :
    view (handle_all life two_sessions) ≡ handle_all_abstract life (view two_sessions)
view-handle_all_example = view-handle_all life two_sessions

disconnect_session-IsClosed_example :
    IsClosed (disconnect_session true true (accepted_session 16 idle_session).session).session
    × ((disconnect_session true true (accepted_session 16 idle_session).session).commands
        ≡ leaving idle_session)
disconnect_session-IsClosed_example = disconnect_session-IsClosed true 16 idle_session
