-- ===== src/Server/Connection/World.antt =====
-- What asio and the server do with the commands of a session of
-- include/webcrown/server/impl/webserver.cpp: the reads and writes that are outstanding, the
-- registry of the server, and the errors that were reported.
use webcrown.Base.{ℕ, suc, ◌≡◌, refl, List, [], ◌∷◌, ◌++◌}
use webcrown.Server.Session.{
  Command, async_read_some, async_write_some, shutdown_receive, close, unregister_session, on_error,
  on_socket_error,
}
use webcrown.Server.Registry.{WebServer}
use webcrown.Server.Registry as Registry

-- `departures` counts the calls of `unregister_session`, `refusals` the errors of the socket.
pub record Outside : Type 0 where
  pub server : WebServer
  pub reading : ℕ
  pub writing : ℕ
  pub departures : ℕ
  pub refusals : ℕ

unfoldable pub obey : Command → Outside → Outside
obey (async_read_some n) w = record w { reading = suc w.reading }
obey (async_write_some text) w = record w { writing = suc w.writing }
obey shutdown_receive w = w
obey close w = w
obey (unregister_session id) w = record w {
  server = Registry.unregister_session id w.server;
  departures = suc w.departures;
}
obey (on_error e) w = w
obey on_socket_error w = record w { refusals = suc w.refusals }

unfoldable pub obey_all : List Command → Outside → Outside
obey_all [] w = w
obey_all (c ∷ cs) w = obey_all cs (obey c w)

pub obey_all-append :
    (cs ds : List Command) (w : Outside) → obey_all (cs ++ ds) w ≡ obey_all ds (obey_all cs w)
unfolding obey_all
obey_all-append [] ds w = refl
obey_all-append (c ∷ cs) ds w = obey_all-append cs ds (obey c w)
