-- ===== src/Server/Connection/Witness.antt =====
-- The theorems of a whole connection at a request that is read in one buffer and answered.
use webcrown.Base.{
  [], ◌∷◌, Bytes, length, ◌≡◌, ◌≤◌, ◌<◌, ◌⊎◌, refl, some, true, false, if◌then◌else◌, codes, ◌++◌,
}
use webcrown.Cstdlib.{to_string}
use webcrown.Http.Status.{make_status}
use webcrown.Http.Response.{
  set_body, build, status_line, new_response, header_lines, with_length, add_header,
}
use webcrown.Parser.Code.{parser_code}
use webcrown.Parser.Memory.{holding}
use webcrown.Parser.Text.{crlf}
use webcrown.Parser.Defs.{Parser}
use webcrown.Server.Session.{
  WebSession, Acted, acted, connect, try_receive, advance, disconnect, disconnect_handler,
  clear_buffers, send_async, buffer_text, try_send, swap_buffers,
}
use webcrown.Server.Receive.{
  Middleware, run_middlewares, Handled, handled, escaped, respond, answer, received_in, after_parse,
  on_receive, read_on, async_receive_handler,
}
use webcrown.Server.Registry.{new_server, registered, create_session}
use webcrown.Server.Connection.World.{Outside, obey, obey_all}
use webcrown.Server.Connection.{
  Connection, afterwards, connected_by, handle_read, read_over, Reach, begun, read,
}
use webcrown.Server.Connection.Laws.{IsNew, registered_while_connected}
use webcrown.Server.Connection.Waiting.{connected-outstanding}

-- A session whose memory held zeros.
abbrev first_session : WebSession
first_session = create_session 1 (record {
  session_id = 0;
  connected = false;
  receiving = false;
  sending = false;
  receive_buffer_size = 0;
  send_buffer_main = [];
  send_buffer_flush = [];
  send_buffer_flush_offset = 0;
  bytes_pending = 0;
  bytes_sending = 0;
  bytes_received = 0;
  bytes_sent = 0;
})

abbrev greet : Middleware
greet request response = some (false, set_body (codes "ok") response)

abbrev outside : Outside
outside = record {
  server = record new_server { started = true; sessions = 1 ∷ []; middlewares = greet ∷ [] };
  reading = 0;
  writing = 0;
  departures = 0;
  refusals = 0;
}

first_session-IsNew : IsNew first_session outside
unfolding registered create_session
first_session-IsNew = record {
  no_receive = refl;
  no_send = refl;
  no_reading = refl;
  no_writing = refl;
  no_departure = refl;
  is_registered = refl;
}

-- The connection that waits for its first buffer.
abbrev waiting_one : Connection
waiting_one = connected_by 1024 first_session outside

-- A buffer with a whole request.
abbrev get_text : Bytes
get_text = codes "GET /a HTTP/1.1" ++ crlf ++ codes "Host: x" ++ crlf ++ crlf

abbrev handled_parser : Handled → Parser
handled_parser (handled p a) = p
handled_parser escaped = waiting_one.parser

abbrev handled_acted : Handled → Acted
handled_acted (handled p a) = a
handled_acted escaped = acted first_session []

abbrev run_of : Bytes → Handled
run_of text = handle_read true (λ m. m) false (holding text) (length text) waiting_one

abbrev answered : Connection
answered =
    afterwards (handled_parser (run_of get_text)) (read_over 0 waiting_one.world)
      (handled_acted (run_of get_text))

answered-Reach : Reach 1024 first_session outside answered
unfolding parser_code run_middlewares respond answer received_in after_parse on_receive read_on
    async_receive_handler handle_read connected_by afterwards connect try_receive obey obey_all
    advance disconnect disconnect_handler clear_buffers send_async buffer_text try_send swap_buffers
    new_server build status_line to_string make_status set_body new_response header_lines
    with_length add_header create_session
answered-Reach =
    read waiting_one 0 true (λ m. m) false (holding get_text) (length get_text)
      (handled_parser (run_of get_text)) (handled_acted (run_of get_text)) refl refl begun

registered_while_connected_example :
    (registered 1 answered.world.server.sessions ≡ answered.session.connected)
    × (answered.world.departures ≡ (if answered.session.connected then 0 else 1))
    × (answered.world.reading ≤ 1)
unfolding create_session
registered_while_connected_example =
    registered_while_connected 1024 first_session outside answered first_session-IsNew
      answered-Reach

waiting_one_connected : waiting_one.session.connected ≡ true
unfolding connected_by afterwards connect try_receive create_session
waiting_one_connected = refl

connected-outstanding_example :
    (waiting_one.world.reading ≡ (if waiting_one.session.receiving then 1 else 0))
    × (waiting_one.world.writing ≡ (if waiting_one.session.sending then 1 else 0))
    × ((waiting_one.world.reading ≡ 1) ⊎ (0 < waiting_one.world.refusals))
connected-outstanding_example =
    connected-outstanding 1024 first_session outside waiting_one first_session-IsNew begun
      waiting_one_connected
