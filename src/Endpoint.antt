-- ===== src/Endpoint.antt =====
-- include/webcrown/helpers/endpoint_context.hpp: the routes of an application with their
-- protection, and helpers for its callbacks. Two texts of nlohmann::json, outside the repository,
-- are parameters: the object with an `error`, and whether an object contains a name.
pub mod Laws
mod Witness
use webcrown.Base.{
  List, [], ◌∷◌, ◌++◌, Bytes, bytes_eq, Bool, true, false, ◌&&◌, not, if◌then◌else◌, Option, none,
  some,
}
use webcrown.Http.Response.{HttpResponse, set_status, set_body}
use webcrown.Http.Status.{HttpStatus}
use webcrown.Route.{Route, RouteParameter}
use webcrown.Middleware.Auth.{AuthAuthorizationLevel, AuthCallback, AuthRoutes, authorize_route}

-- The context with its auth middleware: the protected routes, and the callbacks of both, which are
-- `none` as long as they are empty.
pub record EndpointContext : Type 0 where
  pub routes : List Route
  pub authorized_routes : AuthRoutes
  pub middleware_callback : Option AuthCallback
  pub auth_callback : Option AuthCallback

unfoldable pub new_context : EndpointContext
new_context = record {
  routes = [];
  authorized_routes = [];
  middleware_callback = none;
  auth_callback = none;
}

unfoldable pub add : Route → Bool → AuthAuthorizationLevel → EndpointContext → EndpointContext
add rt require_authorize level c =
    let c' = record c { routes = c.routes ++ rt ∷ [] } in
    if require_authorize
    then record c' { authorized_routes = authorize_route rt level c.authorized_routes }
    else c'

unfoldable pub configure_auth_callback : AuthCallback → EndpointContext → EndpointContext
configure_auth_callback cb c = record c { auth_callback = some cb; middleware_callback = some cb }

-- A call of an empty `std::function` throws.
unfoldable pub callback_of : Option AuthCallback → AuthCallback
callback_of none token route level = none
callback_of (some cb) token route level = cb token route level

unfoldable pub is_defined : Option AuthCallback → Bool
is_defined none = false
is_defined (some cb) = true

unfoldable pub has_routes : AuthRoutes → Bool
has_routes [] = false
has_routes (r ∷ rs) = true

-- `none` is the abort of the `assert`, in a build where assertions are on.
unfoldable pub should_add_auth_middleware : Bool → EndpointContext → Option Bool
unfolding has_routes is_defined
should_add_auth_middleware assertions c =
    let any = has_routes c.authorized_routes in
    let cb_is_defined = any && is_defined c.auth_callback in
    if assertions && not cb_is_defined then none else some any

-- The first of the names that the object does not contain.
unfoldable pub json_any_missing_field : (Bytes → Bool) → List Bytes → Option Bytes
json_any_missing_field contains [] = none
json_any_missing_field contains (arg ∷ args) =
    let rest = json_any_missing_field contains args in if not (contains arg) then some arg else rest

unfoldable pub get_parameter : List RouteParameter → Bytes → Option RouteParameter
get_parameter [] name = none
get_parameter (p ∷ ps) name =
    let rest = get_parameter ps name in if bytes_eq p.name name then some p else rest

module _ (error_json : Bytes → Bytes) where
  unfoldable pub make_response_json_error : HttpResponse → HttpStatus → Bytes → HttpResponse
  make_response_json_error response status msg =
      set_body (error_json msg) (set_status status response)

  unfoldable pub make_notfound_response : HttpResponse → Bytes → HttpResponse
  make_notfound_response response msg =
      set_body (error_json msg) (set_status HttpStatus.not_found response)

  unfoldable pub make_badrequest_response : HttpResponse → Bytes → HttpResponse
  make_badrequest_response response msg =
      set_body (error_json msg) (set_status HttpStatus.bad_request response)

  unfoldable pub make_forbidden_response : HttpResponse → Bytes → HttpResponse
  make_forbidden_response response msg =
      set_body (error_json msg) (set_status HttpStatus.forbidden response)

  unfoldable pub make_internal_server_error_response : HttpResponse → Bytes → HttpResponse
  make_internal_server_error_response response msg =
      set_body (error_json msg) (set_status HttpStatus.internal_server_error response)
