-- ===== src/Server/Connection.antt =====
-- A session of include/webcrown/server/impl/webserver.cpp together with its server and with asio:
-- every call that the session asks for is obeyed, and the handlers run in any order that the
-- outstanding reads and writes allow. A session whose handler is still to run is taken to be alive.
pub mod World
pub mod Keeps
pub mod Sends
pub mod Handlers
pub mod Laws
pub mod Waiting
mod Witness
use webcrown.Base.{ℕ, zero, suc, ◌≤◌, ◌≡◌, Bool, true, false, StringMap, Bytes}
use webcrown.Parser.Memory.{Memory}
use webcrown.Parser.Defs.{Parser, new_parser}
use webcrown.Server.Session.{
  WebSession, Acted, connect, disconnect, send_async, async_write_handler, acted, Returned,
}
use webcrown.Server.Receive.{Handled, handled, escaped, async_receive_handler}
use webcrown.Server.Registry.{WebServer, registered, disconnect_session}
use webcrown.Server.Connection.World.{Outside, obey_all}

-- A session, its parser, and what is around it. A handler that an
-- exception leaves ends the I/O thread, and no other runs.
pub record Connection : Type 0 where
  pub session : WebSession
  pub parser : Parser
  pub world : Outside

-- The connection when a call was made, and what it asked for was done.
unfoldable pub afterwards : Parser → Outside → Acted → Connection
afterwards p w a = record { session = a.session; parser = p; world = obey_all a.commands w }

abbrev pub of_returned : Returned → Acted
of_returned r = acted r.session r.commands

-- The handler of the accept, for a new session.
unfoldable pub connected_by : ℕ → WebSession → Outside → Connection
connected_by size s w = afterwards new_parser w (connect size s)

-- The completion of a read that is outstanding, by the handler and the middlewares of the server.
unfoldable pub handle_read :
    (closes : Bool) (walk : StringMap → StringMap) (fails : Bool)
    → Memory
    → ℕ
    → Connection
    → Handled
handle_read closes walk fails mem size c =
    async_receive_handler closes walk c.world.server.middlewares fails c.parser mem size c.session

-- The completion of a write that is outstanding.
unfoldable pub handle_write : Bool → Bool → ℕ → Connection → Acted
handle_write closes fails size c = async_write_handler closes fails size c.session

-- The outstanding read, or write, is over.
abbrev pub read_over : ℕ → Outside → Outside
read_over n w = record w { reading = n }

abbrev pub write_over : ℕ → Outside → Outside
write_over n w = record w { writing = n }

-- The connections that can be reached: the session is connected, and then, in any order, a read or
-- a write that is outstanding completes, with an error or without; the timer runs; a text is sent
-- or the session disconnected by a call; or the server changes, without this session's number.
pub data Reach (size : ℕ) (s : WebSession) (w : Outside) : Connection → Type 0 where
  begun : Reach size s w (connected_by size s w)
  read :
      (c : Connection) (n : ℕ) (closes : Bool) (walk : StringMap → StringMap) (fails : Bool)
      (mem : Memory) (bytes : ℕ) (p : Parser) (a : Acted)
      → c.world.reading ≡ suc n
      → handle_read closes walk fails mem bytes c ≡ handled p a
      → Reach size s w c
      → Reach size s w (afterwards p (read_over n c.world) a)
  wrote :
      (c : Connection) (n : ℕ) (closes fails : Bool) (bytes : ℕ)
      → c.world.writing ≡ suc n
      → Reach size s w c
      → Reach size s w
          (afterwards c.parser (write_over n c.world) (handle_write closes fails bytes c))
  timed :
      (c : Connection) (closes aborted : Bool)
      → Reach size s w c
      → Reach size s w (afterwards c.parser c.world (disconnect_session closes aborted c.session))
  sent :
      (c : Connection) (closes : Bool) (text : Bytes)
      → Reach size s w c
      → Reach size s w
          (afterwards c.parser c.world (of_returned (send_async closes text c.session)))
  dropped :
      (c : Connection) (closes : Bool)
      → Reach size s w c
      → Reach size s w (afterwards c.parser c.world (of_returned (disconnect closes c.session)))
  elsewhere :
      (c : Connection) (server : WebServer)
      → registered s.session_id server.sessions ≡ registered s.session_id c.world.server.sessions
      → Reach size s w c
      → Reach size s w (record c { world = record c.world { server = server } })
