-- ===== src/Server/Closing.antt =====
-- What a session does with a whole buffer, and what it still does once it is closed.
use webcrown.Base.{
  ℕ, zero, suc, ◌<◌, ◌≡◌, refl, ◌∙◌, ap, List, [], ◌∷◌, ◌++◌, Option, none, some, Bool, true, false,
  arith, length, StringMap, Bytes, inl, inr,
}
use webcrown.Http.Error.{HttpError}
use webcrown.Http.Phase.{ParsePhase}
use webcrown.Http.Request.{HttpRequest}
use webcrown.Http.Response.{HttpResponse, new_response, build, status_line}
use webcrown.Parser.Memory.{Memory}
use webcrown.Parser.Defs.{Parser}
use webcrown.Parser.Parse.{returned, parse}
use webcrown.Server.Session.{
  WebSession, Command, async_write_some, close, shutdown_receive, unregister_session, Acted, acted,
  disconnect, disconnect_handler, clear_buffers, send_async, buffer_text, async_write_handler,
  advance, try_send, swap_buffers,
}
use webcrown.Server.Session.Laws.{
  try_send_nothing, try_send_swapped, advance-sending, advance-main, buffer_text_empty, waiting,
  Bytes-cases,
}
use webcrown.Server.Receive.{
  Middleware, run_middlewares, handled, on_receive, after_parse, received_in, answer, respond,
}

-- A session that is disconnected, with nothing left in its send buffers.
pub record IsClosed (s : WebSession) : Type 0 where
  pub off : s.connected ≡ false
  pub still : s.sending ≡ false
  pub no_flush : s.send_buffer_flush ≡ []
  pub no_main : s.send_buffer_main ≡ []

-- A session that is connected, and sends nothing.
pub record IsReady (s : WebSession) : Type 0 where
  pub on : s.connected ≡ true
  pub still : s.sending ≡ false
  pub no_flush : s.send_buffer_flush ≡ []
  pub no_main : s.send_buffer_main ≡ []

abbrev pub leaving : WebSession → List Command
leaving s = close ∷ shutdown_receive ∷ close ∷ unregister_session s.session_id ∷ []

pub disconnect-IsClosed :
    (s : WebSession)
    → s.connected ≡ true
    → IsClosed (disconnect true s).session × ((disconnect true s).commands ≡ leaving s)
unfolding disconnect disconnect_handler clear_buffers
disconnect-IsClosed s c = (
  record {
    off = ground arith;
    still = ground arith;
    no_flush = ground arith;
    no_main = ground arith;
  },
  ground arith,
)

advance-connected : (n : ℕ) (s : WebSession) → (advance n s).connected ≡ s.connected
unfolding advance
advance-connected n s = ground arith

advance-no_flush :
    (n : ℕ) (s : WebSession) → s.send_buffer_flush ≡ [] → (advance n s).send_buffer_flush ≡ []
unfolding advance
advance-no_flush n s e = ground arith

advance-IsClosed : (n : ℕ) (s : WebSession) → IsClosed s → IsClosed (advance n s)
advance-IsClosed n s c = record {
  off = advance-connected n s ∙ c.off;
  still = advance-sending n s ∙ c.still;
  no_flush = advance-no_flush n s c.no_flush;
  no_main = advance-main n s ∙ c.no_main;
}

swap_buffers-IsClosed : (s : WebSession) → IsClosed s → IsClosed (swap_buffers s)
unfolding swap_buffers
swap_buffers-IsClosed s c = record {
  off = c.off;
  still = c.still;
  no_flush = c.no_main;
  no_main = c.no_flush;
}

-- The session when a write is over.
abbrev idling : WebSession → WebSession
idling s = record s { sending = false }

idling-IsClosed : (s : WebSession) → IsClosed s → IsClosed (idling s)
idling-IsClosed s c = record {
  off = c.off;
  still = refl;
  no_flush = c.no_flush;
  no_main = c.no_main;
}

failed_write :
    (closes : Bool) (n : ℕ) (s : WebSession)
    → (advance (suc n) (idling s)).connected ≡ false
    → async_write_handler closes true (suc n) s ≡ acted (advance (suc n) (idling s)) []
unfolding async_write_handler disconnect
failed_write closes n s c = ground arith

ended_write :
    (closes : Bool) (n : ℕ) (s : WebSession)
    → async_write_handler closes false (suc n) s ≡ try_send (advance (suc n) (idling s))
unfolding async_write_handler
ended_write closes n s = ground arith

try_send_closed : (s : WebSession) → IsClosed s → try_send s ≡ acted (swap_buffers s) []
try_send_closed s c = try_send_nothing s c.still c.no_flush c.no_main

-- The completion of a write, with an error or without, asks for nothing more once the session is
-- closed, and leaves it closed, whatever the count of bytes.
pub async_write_handler-IsClosed :
    (closes fails : Bool) (n : ℕ) (s : WebSession)
    → IsClosed s
    → IsClosed (async_write_handler closes fails n s).session
      × ((async_write_handler closes fails n s).commands ≡ [])
unfolding async_write_handler
async_write_handler-IsClosed closes fails zero s c = (idling-IsClosed s c, refl)
async_write_handler-IsClosed closes true (suc n) s c =
    let d = advance-IsClosed (suc n) (idling s) (idling-IsClosed s c) in
    rw (failed_write closes n s d.off) (d, refl)
async_write_handler-IsClosed closes false (suc n) s c =
    let d = advance-IsClosed (suc n) (idling s) (idling-IsClosed s c) in
    rw (ended_write closes n s, try_send_closed _ d) (swap_buffers-IsClosed _ d, refl)

-- The session behind the text that it sends.
abbrev sending_now : Bytes → WebSession → WebSession
sending_now text s = record (swap_buffers (waiting text s)) { sending = true }

sent_text :
    (s : WebSession) (text : Bytes)
    → 0 < length text
    → send_async true text s ≡ record {
      result = true;
      session = (buffer_text text s).session;
      commands = (buffer_text text s).commands;
    }
unfolding send_async
sent_text s text lt = ground arith

sent_at_once :
    (s : WebSession) (text : Bytes)
    → IsReady s
    → 0 < length text
    → send_async true text s ≡ record {
      result = true;
      session = sending_now text s;
      commands = async_write_some text ∷ [];
    }
sent_at_once s text r lt = elim (Bytes-cases text) [
  | inl e ↦ absurd (omega (arith, ap length e))
  | inr (c, t, e) ↦
      let main : s.send_buffer_main ++ text ≡ text = ap (λ (u : Bytes). u ++ text) r.no_main in
      let sent =
        buffer_text_empty text s r.no_main
        ∙ try_send_swapped (waiting text s) c t r.still r.no_flush (main ∙ e) in
      rw (sent_text s text lt, sent, main)
]

sending_now-connected :
    (text : Bytes) (s : WebSession) → (sending_now text s).connected ≡ s.connected
unfolding swap_buffers
sending_now-connected text s = refl

sending_now-id : (text : Bytes) (s : WebSession) → (sending_now text s).session_id ≡ s.session_id
unfolding swap_buffers
sending_now-id text s = refl

length-build : (walk : StringMap → StringMap) (r : HttpResponse) → 0 < length (build walk r).1
unfolding build status_line
length-build walk r = omega arith

-- A buffer with which the parser finishes a request, for a session that is connected and sends
-- nothing, when no middleware lets an exception out and the socket closes without an error: one
-- write of the whole response is begun, the socket is closed at once behind it, and the session is
-- taken out of the registry, closed and with empty send buffers.
pub on_receive_answer :
    (walk : StringMap → StringMap) (middlewares : List Middleware) (p q : Parser) (mem : Memory)
    (size : ℕ) (s : WebSession) (request : HttpRequest) (response : HttpResponse)
    → parse p mem size ≡ returned (some request) q none
    → q.parse_phase ≡ ParsePhase.finished
    → run_middlewares middlewares request new_response ≡ some response
    → IsReady s
    → (a : Acted) × (on_receive true walk middlewares p mem size s ≡ handled q a)
      × IsClosed a.session
      × (a.commands
          ≡ async_write_some (build walk response).1
            ∷ close
            ∷ shutdown_receive
            ∷ close
            ∷ unregister_session s.session_id
            ∷ [])
unfolding on_receive after_parse received_in answer respond
on_receive_answer walk middlewares p q mem size s request response e f m r =
    let text = (build walk response).1 in
    let sent = sent_at_once s text r (length-build walk response) in
    let (closed, gone) =
      disconnect-IsClosed (sending_now text s) (sending_now-connected text s ∙ r.on) in
    (
      respond true walk middlewares response s,
      rw (on_receive, e, f, answer, m),
      rw sent closed,
      rw (sent, gone, sending_now-id text s),
    )

-- A buffer that the parser refuses with an error, when the session is connected and the socket
-- closes without an error: the session is closed and taken out of the registry, and nothing is
-- written.
pub on_receive_refused :
    (walk : StringMap → StringMap) (middlewares : List Middleware) (p q : Parser) (mem : Memory)
    (size : ℕ) (s : WebSession) (result : Option HttpRequest) (error : HttpError)
    → parse p mem size ≡ returned result q (some error)
    → s.connected ≡ true
    → (a : Acted) × (on_receive true walk middlewares p mem size s ≡ handled q a)
      × IsClosed a.session
      × (a.commands ≡ close ∷ shutdown_receive ∷ close ∷ unregister_session s.session_id ∷ [])
unfolding on_receive after_parse
on_receive_refused walk middlewares p q mem size s result error e c =
    let (closed, gone) = disconnect-IsClosed s c in
    (
      acted (disconnect true s).session (disconnect true s).commands,
      rw (on_receive, e),
      closed,
      gone,
    )
