-- ===== src/Server.antt =====
-- include/webcrown/server/webserver.hpp and impl/webserver.cpp: the sessions of the server.
pub mod Session
pub mod Stream
pub mod Receive
pub mod Closing
pub mod Registry
pub mod Connection
pub mod Thread
pub mod Serving
pub mod Error
mod Witness
