-- ===== src/Middleware/Auth.antt =====
-- include/webcrown/server/http/middlewares/auth_middleware.hpp. The authorization callback is the
-- application's; its exceptions are caught and answered 500.
pub mod Laws
use webcrown.Base.{
  List, [], ◌∷◌, ◌++◌, Bytes, codes, ◌+◌, Bool, true, false, Option, some, lookup, find, drop,
  if◌then◌else◌, length, ◌==◌, StringMap,
}
use webcrown.Http.Request.{HttpRequest}
use webcrown.Http.Response.{HttpResponse, set_status, set_body}
use webcrown.Http.Status.{forbidden, unauthorized, internal_server_error}
use webcrown.Route.{Route, Matched, answered, threw_out_of_range, is_match_with_target_request}

pub data AuthAuthorizationLevel : Type 0 where
  none guest owner admin : AuthAuthorizationLevel

pub record AuthResult : Type 0 where
  pub success : Bool
  pub reason : Bytes

-- A callback's end: `none` is an exception.
abbrev pub AuthCallback : Type 0
AuthCallback = Bytes → Route → AuthAuthorizationLevel → Option AuthResult

abbrev pub AuthRoutes : Type 0
AuthRoutes = List (Route × AuthAuthorizationLevel)

unfoldable pub authorize_route : Route → AuthAuthorizationLevel → AuthRoutes → AuthRoutes
authorize_route route level routes = routes ++ (route, level) ∷ []

-- The text behind the first `Bearer `, or the empty text.
unfoldable pub extract_token : Bytes → Bytes
extract_token value = elim (find (codes "Bearer ") value) [
  | Option.none ↦ []
  | some i ↦ drop (i + 7) value
]

-- `Authorization`, else `authorization`.
unfoldable pub auth_header : StringMap → Option Bytes
auth_header headers = elim (lookup (codes "Authorization") headers) [
  | some v ↦ some v
  | Option.none ↦ lookup (codes "authorization") headers
]

unfoldable pub error_body : Bytes → Bytes
error_body reason = codes "{\"error\": \"" ++ (reason ++ codes "\"}")

-- What one protected route says of a request for it: pass on, or an answer.
pub data Verdict : Type 0 where
  passed : Verdict
  refused : HttpResponse → Verdict

unfoldable pub check_token :
    AuthCallback → Bytes → Route → AuthAuthorizationLevel → HttpResponse → Verdict
check_token cb token route level response =
    let result : Verdict = elim (cb token route level) [
      | Option.none ↦ refused (set_status internal_server_error response)
      | some r ↦
          if r.success
          then passed
          else refused (set_status unauthorized (set_body (error_body r.reason) response))
    ] in
    if length token == 0 then refused (set_status forbidden response) else result

unfoldable pub check_route :
    AuthCallback → Route → AuthAuthorizationLevel → HttpRequest → HttpResponse → Verdict
check_route cb route level request response = elim (auth_header request.headers) [
  | Option.none ↦ refused (set_status forbidden response)
  | some value ↦ check_token cb (extract_token value) route level response
]

-- The result of `execute`: the routes, whether the next middleware runs, and the response.
pub record Answer : Type 0 where
  pub routes : AuthRoutes
  pub goes_on : Bool
  pub response : HttpResponse

abbrev keep : Route × AuthAuthorizationLevel → Answer → Answer
keep r a = record a { routes = r ∷ a.routes }

abbrev stopped : AuthRoutes → HttpResponse → Answer
stopped routes response = record { routes = routes; goes_on = false; response = response }

-- The loop over the protected routes; every one that matches is checked. A route whose match throws
-- is left as it was: the values that the match has written up to there are not in the model.
unfoldable pub execute_auth : AuthCallback → AuthRoutes → HttpRequest → HttpResponse → Answer
execute_auth cb [] request response = record { routes = []; goes_on = true; response = response }
execute_auth cb ((route, level) ∷ rs) request response =
    let rest = execute_auth cb rs request response in
    elim (is_match_with_target_request route request.target request.method) [
      | threw_out_of_range ↦
          stopped ((route, level) ∷ rs) (set_status internal_server_error response)
      | answered false route' ↦ keep (route', level) rest
      | answered true route' ↦ elim (check_route cb route' level request response) [
        | passed ↦ keep (route', level) rest
        | refused response' ↦ stopped ((route', level) ∷ rs) response'
      ]
    ]
