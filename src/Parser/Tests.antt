-- ===== src/Parser/Tests.antt =====
-- Runs of the parser on whole requests.
use webcrown.Base.{List, [], ◌∷◌, ◌++◌, Bytes, codes, map, length, Option, none, some, ◌≡◌, refl}
use webcrown.Http.Method.{get}
use webcrown.Http.Request.{HttpRequest}
use webcrown.Parser.Code.{parser_code}
use webcrown.Parser.Memory.{holding}
use webcrown.Parser.Defs.{new_parser}
use webcrown.Parser.Parse.{Parsed, returned, threw_length_error, parse}

abbrev crlf : Bytes
crlf = 0x0d ∷ 0x0a ∷ []

abbrev run : Bytes → Parsed
run s = parse new_parser (holding s) (length s)

abbrev request_of : Parsed → Option HttpRequest
request_of (returned r p e) = r
request_of threw_length_error = none

get_request :
    request_of (run (codes "GET /a HTTP/1.1" ++ crlf ++ codes "Host: x" ++ crlf ++ crlf))
    ≡ some (record {
      method = get;
      protocol_version = 11;
      target = codes "/a";
      headers = (codes "host", codes "x") ∷ [];
      body = crlf ++ crlf;
      uploads = [];
    })
unfolding parser_code
get_request = refl

truncated_throws : run (codes "GET /a HTTP/1.1" ++ crlf ++ codes "Host") ≡ threw_length_error
unfolding parser_code
truncated_throws = refl

abbrev multipart_text : Bytes
multipart_text =
    codes "POST /u HTTP/1.1"
    ++ crlf
    ++ codes "Content-Type: multipart/form-data; boundary=--AB"
    ++ crlf
    ++ codes "Content-Length: 9"
    ++ crlf
    ++ crlf
    ++ codes "--AB"
    ++ crlf
    ++ codes "Content-Type: text"
    ++ crlf
    ++ crlf
    ++ codes "xyz"
    ++ crlf
    ++ codes "--AB--"
    ++ crlf

abbrev upload_bytes : Option HttpRequest → List Bytes
upload_bytes none = []
upload_bytes (some r) = map (λ u. u.bytes) r.uploads

-- The upload holds the closing boundary line behind the part.
multipart_run :
    upload_bytes (request_of (run multipart_text))
    ≡ (codes "xyz" ++ crlf ++ codes "--AB--" ++ crlf) ∷ []
unfolding parser_code
multipart_run = refl
