-- ===== src/Middleware/Routing.antt =====
-- include/webcrown/server/http/middlewares/routing_middleware.hpp. A route's callback and context
-- are the application's: a callback is a function of what `execute` passes to it, and ends by
-- returning or by an exception, with the response as it left it.
pub mod Laws
use webcrown.Base.{List, [], ◌∷◌, ◌++◌, Bool, true, false, Option, none, some, if◌then◌else◌}
use webcrown.Http.Request.{HttpRequest}
use webcrown.Http.Response.{HttpResponse, set_status}
use webcrown.Http.Status.{internal_server_error, not_found}
use webcrown.Route.{
  Route, RouteParameter, Matched, answered, threw_out_of_range, is_match_with_target_request,
}

pub data Ran : Type 0 where
  returned threw : HttpResponse → Ran

abbrev pub Callback : Type 0
Callback = HttpRequest → HttpResponse → List RouteParameter → Ran

-- A registered route, with its callback; the context is part of the callback here.
pub record Registered : Type 0 where
  pub route : Route
  pub callback : Callback

-- What `execute` leaves: the routes and the response, or an exception of the matcher.
pub data Executed : Type 0 where
  executed : List Registered → HttpResponse → Executed
  escaped : Executed

-- The call of a callback inside `try`: the response, and the flag `route_found` as the code leaves
-- the loop. An exception is answered 500, and its `break` comes before the flag is set.
unfoldable pub run_callback : Registered → HttpRequest → HttpResponse → HttpResponse × Bool
run_callback r request response = elim (r.callback request response r.route.path_parameters) [
  | returned response' ↦ (response', true)
  | threw response' ↦ (set_status internal_server_error response', false)
]

-- The state behind the loop: the routes, the response and `route_found`; or an exception of the
-- matcher.
pub data Searched : Type 0 where
  searched : List Registered → HttpResponse → Bool → Searched
  escaped_search : Searched

abbrev and_kept : Registered → Searched → Searched
and_kept r (searched rs response route_found) = searched (r ∷ rs) response route_found
and_kept r escaped_search = escaped_search

-- The loop over the routes.
unfoldable pub find_route : List Registered → HttpRequest → HttpResponse → Searched
find_route [] request response = searched [] response false
find_route (r ∷ rs) request response =
    let rest = find_route rs request response in
    elim (is_match_with_target_request r.route request.target request.method) [
      | threw_out_of_range ↦ escaped_search
      | answered true route ↦
          let r' : Registered = record r { route = route } in
          let ran = run_callback r' request response in searched (r' ∷ rs) ran.0 ran.1
      | answered false route ↦ and_kept (record r { route = route }) rest
    ]

-- The code behind the loop. `execute` always returns false.
abbrev pub finish : Searched → Executed
finish (searched rs response route_found) =
    executed rs (if route_found then response else set_status not_found response)
finish escaped_search = escaped

unfoldable pub execute_routing : List Registered → HttpRequest → HttpResponse → Executed
execute_routing rs request response = finish (find_route rs request response)

unfoldable pub add_router : Registered → List Registered → List Registered
add_router r rs = rs ++ r ∷ []
