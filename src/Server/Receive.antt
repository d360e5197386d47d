-- ===== src/Server/Receive.antt =====
-- `WebSession::on_receive` and the completion of a read: the buffer goes to the parser, and a
-- request that is read goes through the middlewares; its response is sent, and the session ends.
use webcrown.Base.{
  ℕ, ◌*◌, not, List, [], ◌∷◌, Option, none, some, Bool, true, false, if◌then◌else◌, leb, ◌==◌,
  StringMap,
}
use webcrown.Http.Error.{ErrorCode}
use webcrown.Http.Phase.{ParsePhase}
use webcrown.Http.Request.{HttpRequest}
use webcrown.Http.Response.{HttpResponse, new_response, build}
use webcrown.Parser.Memory.{Memory}
use webcrown.Parser.Defs.{Parser}
use webcrown.Parser.Parse.{returned, threw_length_error, parse}
use webcrown.Server.Session.{
  WebSession, Acted, acted, and_then, disconnect, send_async, try_receive, add_size,
}

-- What `execute` of a middleware gives: whether the next one runs, and the response; `none` is an
-- exception that it lets out.
abbrev pub Middleware : Type 0
Middleware = HttpRequest → HttpResponse → Option (Bool × HttpResponse)

-- The loop over the middlewares, up to the first that returns false.
unfoldable pub run_middlewares : List Middleware → HttpRequest → HttpResponse → Option HttpResponse
run_middlewares [] request response = some response
run_middlewares (m ∷ ms) request response = elim (m request response) [
  | none ↦ none
  | some (false, response') ↦ some response'
  | some (true, response') ↦ run_middlewares ms request response'
]

-- A handler's end: the session, its parser and what it asked for; or an exception, which leaves
-- the handler and ends the I/O thread.
pub data Handled : Type 0 where
  handled : Parser → Acted → Handled
  escaped : Handled

-- `closes` is whether the socket closes without an error, `walk` the order of a map of headers.
module _ (closes : Bool) (walk : StringMap → StringMap) (middlewares : List Middleware) where
  abbrev drop_session : WebSession → Acted
  drop_session s = let closed = disconnect closes s in acted closed.session closed.commands

  -- The response is sent, and the session disconnected.
  unfoldable pub respond : HttpResponse → WebSession → Acted
  respond response s =
      let sent = send_async closes (build walk response).1 s in
      and_then sent.commands (drop_session sent.session)

  -- The parser is finished.
  unfoldable pub answer : Option HttpRequest → WebSession → Option Acted
  answer none s = some (drop_session s)
  answer (some request) s = elim (run_middlewares middlewares request new_response) [
    | none ↦ none
    | some response ↦ some (respond response s)
  ]

  -- The tests behind `parse`: the error, and the phase.
  unfoldable pub received_in : ParsePhase → Option HttpRequest → WebSession → Option Acted
  received_in ParsePhase.finished result s = answer result s
  received_in _ result s = some (acted s [])

  unfoldable pub after_parse : ErrorCode → Parser → Option HttpRequest → WebSession → Option Acted
  after_parse (some _) p result s = some (drop_session s)
  after_parse none p result s = received_in p.parse_phase result s

  abbrev pub or_escaped : Parser → Option Acted → Handled
  or_escaped p none = escaped
  or_escaped p (some a) = handled p a

  unfoldable pub on_receive : Parser → Memory → ℕ → WebSession → Handled
  on_receive p mem size s = elim (parse p mem size) [
    | threw_length_error ↦ escaped
    | returned result q ec ↦ or_escaped q (after_parse ec q result s)
  ]

  -- Behind `on_receive`: a full buffer is enlarged, and a session that is still connected reads on.
  unfoldable pub read_on : ℕ → Handled → Handled
  read_on size escaped = escaped
  read_on size (handled p a) =
      let s = a.session in
      let t =
        if leb s.receive_buffer_size size then record s { receive_buffer_size = 2 * size } else s in
      if not t.connected
      then handled p (acted t a.commands)
      else handled p (and_then a.commands (try_receive t))

  -- The completion of a read: its error, and the bytes in the receive buffer.
  unfoldable pub async_receive_handler : Bool → Parser → Memory → ℕ → WebSession → Handled
  async_receive_handler fails p mem size s =
      let t = record s { receiving = false } in
      if fails
      then handled p (drop_session t)
      else if size == 0
      then handled p (try_receive t)
      else read_on size
          (on_receive p mem size (record t { bytes_received = add_size t.bytes_received size }))
