-- ===== src/Lib.antt =====
-- webcrown: a C++ HTTP server library with an object relational mapper. This library models its
-- request parser, its routes, its middlewares, its sessions, its mapper and its serializer, and
-- proves what they do with requests, responses and statements.
--
-- How the parts work together: a session hands each buffer that it receives to the parser
-- (`parser::parse`); when the parser is finished the request goes through the middlewares in
-- turn, each of which may stop the row; the routing middleware runs a route's callback, and the
-- response is built and sent. An application puts its routes into an endpoint context, which keeps
-- an auth middleware; its callbacks read and write objects by the mapper, and answer with their
-- JSON.
--
-- The files, and the code that each is about (paths from the repository's root):
-- - Base: Booleans, lists, byte strings and string maps (`std::string`, `std::unordered_map`),
--   integers, the conversion of `int` to `std::size_t`.
-- - Cstdlib: `std::atoi` and `std::to_string`.
-- - Date: `date_time` of include/webcrown/common/date/date_time.hpp.
-- - CharClass: include/webcrown/server/http/detail/parser.hpp, and <cctype>.
-- - StringUtils: include/webcrown/common/impl/string_common.cpp.
-- - Http: the types of include/webcrown/server/http/ (http_method.hpp, method.inl, status.hpp,
--   error.hpp, enums.hpp, http_request.hpp, http_response.hpp).
-- - Parser: include/webcrown/server/http/http_parser.hpp. Memory is what a pointer reads, StartLine,
--   Headers, Boundary, MediaType and Parse are its member functions; Text is the text of a request;
--   StartLine.Laws and StartLine.Sound are the two directions of reading a request line;
--   Headers.Bounds, Headers.Cut and Boundary.Laws are about its loops, Reading, RoundTrip, Pending
--   and Faults about whole calls of `parse`, Uploads about the buffers of an upload;
--   StartLine.Refused says in which phase a refused request line leaves the parser, and Uploads.Ends
--   where a part ends.
-- - Route: include/webcrown/server/http/middlewares/route.hpp.
-- - Middleware: routing_middleware.hpp, auth_middleware.hpp and cors/cors_middleware.hpp there.
-- - Server: include/webcrown/server/webserver.hpp, impl/webserver.cpp and error.hpp. Session is the
--   connection and the send buffers of `WebSession`, Receive its `on_receive` with the parser and
--   the middlewares, Registry is `WebServer`; Registry.Refinement is the server as a set of session
--   numbers, Stream and Closing are about the bytes sent and the end of a session, Error is the
--   codes of errors. A handler of asio is a function of the session; what it asks of asio is its
--   list of commands, and a completion is a call of the handler in a step of `Stream.Reach`,
--   `Registry.Laws.Life` or `Connection.Reach`. Connection is one session with its parser, its
--   server and what asio owes it: Connection.World obeys the commands, Keeps, Sends and Handlers say
--   what each call keeps, Laws and Waiting what holds at all times. Thread is `context_handler`,
--   Serving a request from its buffer to the write of its response.
-- - Endpoint: include/webcrown/helpers/endpoint_context.hpp.
-- - Orm: include/webcrown/orm/databases/postgres/ (enums.hpp, postgres.hpp). Schema is the
--   description of a table, Query the namespace `query`, Query.Columns the definitions of columns as
--   a relation, Value the overloads of `normalize_type`, Database the transactions;
--   Insert, Select and Update are the functions that send a statement.
-- - Serializer: include/webcrown/serializer/serializator.hpp.
-- - Witness and the modules of that name below the others: the theorems at concrete inputs.
--
-- Conventions. A byte is a number below 256, a text a list of bytes. The parser reads memory at
-- and behind the end of its buffer; the model gives these reads some byte, so no theorem rests on
-- what lies there unless it says so. A loop `for (; it < last; ++it)` is a recursion on the rounds
-- that are left, `last - it`; the loop over headers takes as many, and each of its rounds moves the
-- pointer on. The search of a route's binding and the collection of its keys take the length of
-- the text. `to_string` takes one round more than its number, and `replace_all` one more than the
-- text has characters: `none` is a loop whose rounds run out. An exception is a result of its own:
-- `threw_length_error` (a text of wrapped length, a vector that is too large) and
-- `threw_out_of_range` (a replacement in front of a text). A callback of the application is an
-- argument; it returns or throws. A handler of the I/O thread that throws has no state in the model:
-- what it had changed before the exception is not said.
--
-- The mapper and the serializer walk a type's members when the program is compiled, by refl-cpp;
-- here the members are a list of descriptions, an object is that list with a value for each, and
-- what does not compile is `none`. Calls of the database give an answer or an exception, and are
-- listed as commands. The texts that the streams, the library date and nlohmann::json make are
-- functions that a definition takes as a parameter.
--
-- A time point is an integer of nanoseconds; the model does not bound it by 64 bits.
--
-- Not modelled: failures of memory allocation; an `int` overflow in `std::atoi`; threads other than
-- the one that runs the handlers; that a session is destroyed when its last pointer is gone; routes
-- that two middlewares share are a value in each; what a middleware changes in itself between two
-- requests of a session; members that are vectors, which do not compile; what the mapper prints on
-- the console; common/time/time.hpp, which only reads the clock. common/url_parser.hpp and
-- common/meta/to_string.hpp are copies of other projects; the second is the parameter `decimal` of
-- the mapper.
pub mod Base
pub mod CharClass
pub mod Date
pub mod Cstdlib
pub mod Endpoint
pub mod Http
pub mod Parser
pub mod Middleware
pub mod Orm
pub mod Route
pub mod Serializer
pub mod Server
pub mod StringUtils
pub mod Witness
