-- ===== src/Server/Registry.antt =====
-- `WebServer` of include/webcrown/server/impl/webserver.cpp: its start and stop, the sessions that
-- it accepts and their registry. What it asks of asio is a list of commands, as in Session; a
-- `shared_ptr<WebSession>` in the registry is the session's number. The `assert` lines hold back
-- nothing, as in a build with `NDEBUG`.
pub mod Laws
pub mod Refinement
use webcrown.Base.{
  ℕ, suc, ◌+◌, ◌^◌, ◌%◌, List, [], ◌∷◌, ◌++◌, Bool, true, false, not, if◌then◌else◌, ◌==◌,
}
use webcrown.Server.Session.{WebSession, Acted, acted, disconnect, connect, new_session}
use webcrown.Server.Receive.{Middleware}

pub data ServerError : Type 0 where
  unknown server_already_started server_not_started create_endpoint_fail : ServerError

pub data ServiceError : Type 0 where
  unknown service_not_started service_already_started : ServiceError

pub data ServerCommand : Type 0 where
  run_thread join_thread : ServerCommand
  open_acceptor listen : ServerCommand
  async_accept : ℕ → ServerCommand
  server_error : ServerError → ServerCommand
  service_error : ServiceError → ServerCommand
  asio_error : ServerCommand

pub record WebServer : Type 0 where
  pub started : Bool
  pub last_session_id : ℕ
  pub sessions : List ℕ
  pub middlewares : List Middleware

pub record ServerActed : Type 0 where
  pub server : WebServer
  pub commands : List ServerCommand

abbrev did : WebServer → List ServerCommand → ServerActed
did w cs = record { server = w; commands = cs }

unfoldable pub new_server : WebServer
new_server = record { started = false; last_session_id = 0; sessions = []; middlewares = [] }

unfoldable pub create_session : ℕ → WebSession → WebSession
unfolding new_session
create_session id raw = new_session id raw

-- The destructor; `joinable` is whether the thread was run and not joined.
unfoldable pub destroy_server : Bool → List ServerCommand
destroy_server joinable = if joinable then join_thread ∷ [] else []

-- Whether a number is a key.
unfoldable pub registered : ℕ → List ℕ → Bool
registered id [] = false
registered id (x ∷ xs) = if x == id then true else registered id xs

-- `sessions_.emplace`, which leaves a key that is there as it is.
unfoldable pub register_session : ℕ → WebServer → WebServer
register_session id w =
    if registered id w.sessions then w else record w { sessions = id ∷ w.sessions }

unfoldable pub erase : ℕ → List ℕ → List ℕ
erase id [] = []
erase id (x ∷ xs) = let rest = erase id xs in if x == id then rest else x ∷ rest

unfoldable pub unregister_session : ℕ → WebServer → WebServer
unregister_session id w =
    if registered id w.sessions then record w { sessions = erase id w.sessions } else w

unfoldable pub add_middleware : Middleware → WebServer → WebServer
add_middleware m w = record w { middlewares = w.middlewares ++ m ∷ [] }

-- The accept handler: the next number, a session of it, and the wait for its connection.
unfoldable pub accept_handler : WebServer → ServerActed
accept_handler w =
    let id = (w.last_session_id + 1) % 2 ^ 64 in
    if not w.started
    then did w (server_error server_not_started ∷ [])
    else did (register_session id (record w { last_session_id = id })) (async_accept id ∷ [])

unfoldable pub accept : WebServer → ServerActed
accept w = if not w.started then did w (server_error server_not_started ∷ []) else accept_handler w

-- A connection is accepted, or not: in that case nothing is accepted any more.
unfoldable pub async_accept_handler : Bool → WebServer → ServerActed
async_accept_handler fails w = if fails then did w (asio_error ∷ []) else accept w

-- The session's side of it: `size` is the receive buffer option.
unfoldable pub accepted_session : ℕ → WebSession → Acted
accepted_session size s = connect size s

-- The handler of the wait of 15 seconds, which does not look at its error code. The timer is local
-- to the accept handler, and asio ends the wait of a timer that is destroyed with
-- `operation_aborted`, here `aborted`.
unfoldable pub disconnect_session : Bool → Bool → WebSession → Acted
disconnect_session closes aborted s =
    let closed = disconnect closes s in
    if not s.connected then acted s [] else acted closed.session closed.commands

-- What asio says of the address, of the acceptor's `open`, and of `bind`.
pub record Endpoint : Type 0 where
  pub bad_address : Bool
  pub bad_open : Bool
  pub bad_bind : Bool

unfoldable pub start_handler : Endpoint → WebServer → ServerActed
start_handler e w =
    let accepted = accept w in
    if e.bad_address
    then did w (asio_error ∷ [])
    else if e.bad_open
    then did w (open_acceptor ∷ asio_error ∷ [])
    else if e.bad_bind
    then did w (open_acceptor ∷ asio_error ∷ [])
    else record accepted { commands = open_acceptor ∷ listen ∷ accepted.commands }

unfoldable pub start_server : Endpoint → WebServer → ServerActed
start_server e w =
    let begun = start_handler e (record w { started = true }) in
    record begun { commands = run_thread ∷ begun.commands }

unfoldable pub stop : WebServer → ServerActed
stop w =
    if not w.started
    then did w (service_error service_not_started ∷ [])
    else did (record w { started = false }) (join_thread ∷ [])
