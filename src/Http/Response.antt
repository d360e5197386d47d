-- ===== src/Http/Response.antt =====
-- include/webcrown/server/http/http_response.hpp. The order in which an unordered map is walked
-- is not fixed: it is a parameter of `build`. The member `buffer_` is the result of `build`.
pub mod Laws
use webcrown.Base.{[], ◌∷◌, ◌++◌, Bytes, codes, StringMap, insert, length, if◌then◌else◌, ◌==◌}
use webcrown.Cstdlib.{to_string}
use webcrown.Http.Status.{HttpStatus, internal_server_error, make_status}

pub record HttpResponse : Type 0 where
  pub status : HttpStatus
  pub body : Bytes
  pub headers : StringMap

unfoldable pub new_response : HttpResponse
new_response = record { status = internal_server_error; body = []; headers = [] }

unfoldable pub set_status : HttpStatus → HttpResponse → HttpResponse
set_status s r = record r { status = s }

unfoldable pub add_header : Bytes → Bytes → HttpResponse → HttpResponse
add_header key value r = record r { headers = insert key value r.headers }

unfoldable pub set_body : Bytes → HttpResponse → HttpResponse
set_body b r = record r { body = b }

abbrev pub response_crlf : Bytes
response_crlf = 0x0d ∷ 0x0a ∷ []

-- The loop over the headers.
unfoldable pub header_lines : StringMap → Bytes
header_lines [] = []
header_lines ((key, value) ∷ m) =
    key ++ (codes ": " ++ (value ++ (response_crlf ++ header_lines m)))

-- `HTTP/1.1`, the code, the reason and a CRLF.
unfoldable pub status_line : HttpStatus → Bytes
status_line status =
    let reason = make_status status in
    codes "HTTP/1.1"
    ++ (codes " " ++ (to_string reason.0 ++ (codes " " ++ (reason.1 ++ response_crlf))))

-- The length header is added to the response, unless the body is empty.
unfoldable pub with_length : HttpResponse → HttpResponse
with_length r =
    if length r.body == 0
    then r
    else add_header (codes "Content-Length") (to_string (length r.body)) r

-- The response after the call, and the text that it returns.
unfoldable pub build : (StringMap → StringMap) → HttpResponse → HttpResponse × Bytes
build walk r =
    let sent = with_length r in
    (sent, status_line r.status ++ (header_lines (walk sent.headers) ++ (response_crlf ++ r.body)))
