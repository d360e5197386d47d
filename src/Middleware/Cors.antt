-- ===== src/Middleware/Cors.antt =====
-- include/webcrown/server/http/middlewares/cors/cors_middleware.hpp
pub mod Laws
use webcrown.Base.{
  Bytes, codes, ◌++◌, Bool, true, false, ◌||◌, Option, none, some, lookup, bytes_eq, if◌then◌else◌,
}
use webcrown.Http.Method.{options}
use webcrown.Http.Request.{HttpRequest}
use webcrown.Http.Response.{HttpResponse, set_status, add_header}
use webcrown.Http.Status.{no_content}
use webcrown.Route.{method_eq}

unfoldable pub add_cors_headers : HttpResponse → HttpResponse
add_cors_headers response = add_header (codes "Access-Control-Allow-Methods") (codes "*") (
    add_header (codes "Access-Control-Allow-Headers") (codes "*")
      (add_header (codes "Access-Control-Allow-Origin") (codes "*") response))

-- The origin is this host's own.
unfoldable pub is_same_origin : Bytes → Bytes → Bool
is_same_origin origin host =
    bytes_eq origin (codes "http://" ++ host) || bytes_eq origin (codes "https://" ++ host)

unfoldable pub cors_response : HttpRequest → HttpResponse → Bool × HttpResponse
cors_response request response =
    if method_eq request.method options
    then (false, set_status no_content (add_cors_headers response))
    else (true, add_cors_headers response)

-- `execute`: whether the next middleware runs, and the response.
unfoldable pub execute_cors : HttpRequest → HttpResponse → Bool × HttpResponse
execute_cors request response = elim (lookup (codes "origin") request.headers) [
  | none ↦ (true, response)
  | some origin ↦ elim (lookup (codes "host") request.headers) [
    | none ↦ (false, response)
    | some host ↦
        if is_same_origin origin host then (true, response) else cors_response request response
  ]
]
