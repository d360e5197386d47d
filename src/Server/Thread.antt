-- ===== src/Server/Thread.antt =====
-- The I/O thread of a server, `WebServer::context_handler` of
-- include/webcrown/server/impl/webserver.cpp. The handlers that asio makes ready are a list, in
-- their order; one that lets an exception out gives `none`.
pub mod Laws
mod Witness
use webcrown.Base.{ℕ, ◌-◌, List, [], ◌∷◌, Option, none, some, Bool, StringMap}
use webcrown.Parser.Memory.{Memory}
use webcrown.Server.Receive.{Handled, handled, escaped}
use webcrown.Server.Connection.{Connection, afterwards, handle_read, read_over}

abbrev pub Handler : Type 0 → Type 0
Handler S = S → Option S

-- What the thread has done: it waits in `run` again, with the state that the handlers left, or an
-- exception has ended it, with the handlers that it has not run. The handler that threw has
-- changed the session and its parser up to there; what it has changed is not in the model.
pub data Served (S : Type 0) : Type 0 where
  waiting : S → Served S
  ended : List (Handler S) → Served S

-- `work` keeps `run` from returning, so the loop calls it once; it runs the handlers in turn. An
-- exception leaves `run` and the loop, and the thread ends in the handler of `std::exception`.
unfoldable pub context_handler : {S : Type 0} → List (Handler S) → S → Served S
context_handler [] s = waiting s
context_handler (h ∷ hs) s = elim (h s) [ none ↦ ended hs | some s' ↦ context_handler hs s' ]

abbrev handled_by : Connection → Handled → Option Connection
handled_by c escaped = none
handled_by c (handled p a) = some (afterwards p (read_over (c.world.reading - 1) c.world) a)

-- The completion of a session's read, as a handler of the thread.
unfoldable pub read_handler :
    (closes : Bool) (walk : StringMap → StringMap) (fails : Bool) → Memory → ℕ → Handler Connection
read_handler closes walk fails mem size c = handled_by c (handle_read closes walk fails mem size c)
