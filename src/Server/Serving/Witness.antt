-- ===== src/Server/Serving/Witness.antt =====
-- A request that is read, routed and answered.
use webcrown.Base.{List, [], ◌∷◌, ◌++◌, Bytes, codes, length, ◌≡◌, refl, true, false, arith}
use webcrown.Http.Method.{get}
use webcrown.Http.Request.{HttpRequest, with_body}
use webcrown.Http.Response.{new_response, build, set_body}
use webcrown.Parser.Code.{parser_code}
use webcrown.Parser.Memory.{holding}
use webcrown.Parser.Text.{crlf, stored}
use webcrown.Parser.Defs.{Parser, new_parser}
use webcrown.Parser.Reading.{request_text, IsRequest}
use webcrown.Route.Tests.{route_code}
use webcrown.Route.Matching.{static_route}
use webcrown.Middleware.Routing.{Ran, Registered}
use webcrown.Middleware.Routing.Laws.{Missed, missed, nothing}
use webcrown.Server.Session.{Acted, async_write_some}
use webcrown.Server.Receive.{handled}
use webcrown.Server.Closing.{IsClosed, leaving}
use webcrown.Server.Registry.{new_server, registered}
use webcrown.Server.Connection.World.{obey_all}
use webcrown.Server.Connection.{Connection, handle_read}
use webcrown.Server.Serving.{routing, serve_request}

abbrev host_header : List (Bytes × Bytes)
host_header = (codes "Host", codes "x") ∷ []

abbrev text : Bytes
text = request_text (codes "GET") (codes "/users") host_header (codes "hi")

abbrev asked : HttpRequest
asked =
    with_body get 11 (codes "/users") ((codes "host", codes "x") ∷ [])
      (crlf ++ (crlf ++ codes "hi"))

abbrev posts : Registered
posts = record { route = static_route get (codes "/posts"); callback = λ q r ps. Ran.returned r }

-- A callback that answers with a body.
abbrev users : Registered
users = record {
  route = static_route get (codes "/users");
  callback = λ q r ps. Ran.returned (set_body (codes "ann") r);
}

abbrev reading : Connection
reading = record {
  session = record {
    session_id = 1;
    connected = true;
    receiving = true;
    sending = false;
    receive_buffer_size = 1024;
    send_buffer_main = [];
    send_buffer_flush = [];
    send_buffer_flush_offset = 0;
    bytes_pending = 0;
    bytes_sending = 0;
    bytes_received = 0;
    bytes_sent = 0;
  };
  parser = new_parser;
  world = record {
    server = record new_server {
      started = true;
      sessions = 1 ∷ [];
      middlewares = routing (posts ∷ users ∷ []) ∷ [];
    };
    reading = 0;
    writing = 0;
    departures = 0;
    refusals = 0;
  };
}

text_IsRequest : IsRequest (codes "GET") (codes "/users") host_header
unfolding parser_code stored
text_IsRequest = record {
  method_letters = (λ e. cc, (refl, (refl, (refl, tt))));
  target_chars = (λ e. cc, (refl, (refl, (refl, (refl, (refl, (refl, tt)))))));
  some_header = λ e. cc;
  headers_formed = (((refl, (refl, (refl, (refl, tt)))), (refl, tt), λ e. omega arith), tt);
  supported = refl;
}

posts-Missed : Missed asked (posts ∷ []) (posts ∷ [])
unfolding route_code with_body
posts-Missed = missed posts (static_route get (codes "/posts")) [] [] refl nothing

serve_request_example :
    (q : Parser) × (a : Acted) × (handle_read true
        (λ m. m)
        false
        (holding text)
        (length text)
        reading
      ≡ handled q a)
    × (a.commands
        ≡ async_write_some (build (λ m. m) (set_body (codes "ann") new_response)).1
          ∷ leaving reading.session)
    × IsClosed a.session
    × (registered 1 (obey_all a.commands reading.world).server.sessions ≡ false)
unfolding parser_code route_code stored
serve_request_example =
    serve_request (codes "GET") (codes "/users") host_header (codes "hi") (holding text) asked
      (λ m. m) (posts ∷ []) (posts ∷ []) [] users (static_route get (codes "/users"))
      (set_body (codes "ann") new_response) reading text_IsRequest refl (λ e. cc) (omega arith) refl
      posts-Missed refl refl refl refl
      (record { on = refl; still = refl; no_flush = refl; no_main = refl })
