-- ===== src/Http/Request.antt =====
-- include/webcrown/server/http/http_request.hpp. The shared byte vector of an upload is its value:
-- the parser appends to it before the upload is made, never after.
use webcrown.Base.{ℕ, List, [], Bytes, StringMap}
use webcrown.Http.Method.{HttpMethod}

pub record HttpFormUpload : Type 0 where
  pub bytes : Bytes
  pub headers : StringMap

pub record HttpRequest : Type 0 where
  pub method : HttpMethod
  pub protocol_version : ℕ
  pub target : Bytes
  pub headers : StringMap
  pub body : Bytes
  pub uploads : List HttpFormUpload

-- The constructor with a body.
unfoldable pub with_body : HttpMethod → ℕ → Bytes → StringMap → Bytes → HttpRequest
with_body method version target headers body = record {
  method = method;
  protocol_version = version;
  target = target;
  headers = headers;
  body = body;
  uploads = [];
}

-- The constructor with uploads.
unfoldable pub with_uploads : HttpMethod → ℕ → Bytes → StringMap → List HttpFormUpload → HttpRequest
with_uploads method version target headers uploads = record {
  method = method;
  protocol_version = version;
  target = target;
  headers = headers;
  body = [];
  uploads = uploads;
}
