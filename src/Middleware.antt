-- ===== src/Middleware.antt =====
-- include/webcrown/server/http/middlewares/: what stands between a request and its response.
-- A middleware returns its new state, whether the next one runs, and the response.
pub mod Routing
pub mod Auth
pub mod Cors
