-- ===== src/Parser.antt =====
-- include/webcrown/server/http/http_parser.hpp: the HTTP request parser.
pub mod Memory
pub mod Text
pub mod Defs
pub mod StartLine
pub mod Headers
pub mod Boundary
pub mod MediaType
pub mod Parse
pub mod Reading
pub mod RoundTrip
pub mod Pending
pub mod Faults
pub mod Uploads
pub mod Code
pub mod Tests
pub mod Witness
