-- ===== src/Middleware/Routing/Laws.antt =====
-- What a request gets from the routing middleware.
use webcrown.Base.{List, [], ◌∷◌, ◌++◌, true, false, ◌≡◌, refl, ap, ◌∙◌}
use webcrown.Http.Request.{HttpRequest}
use webcrown.Http.Response.{HttpResponse, set_status}
use webcrown.Http.Status.{not_found}
use webcrown.Route.{Route, Matched, answered, is_match_with_target_request}
use webcrown.Middleware.Routing.{
  threw, returned, Registered, executed, searched, run_callback, find_route, finish,
  execute_routing,
}

abbrev pub match_of : Registered → HttpRequest → Matched
match_of r request = is_match_with_target_request r.route request.target request.method

-- No route of the list matches; each is left as its match left it.
pub data Missed (request : HttpRequest) : List Registered → List Registered → Type 0 where
  nothing : Missed request [] []
  missed :
      (r : Registered) (route : Route) (rs qs : List Registered)
      → match_of r request ≡ answered false route
      → Missed request rs qs
      → Missed request (r ∷ rs) (record r { route = route } ∷ qs)

find_route-Missed :
    (request : HttpRequest) (response : HttpResponse) (rs qs : List Registered)
    → Missed request rs qs
    → find_route rs request response ≡ searched qs response false
unfolding find_route
find_route-Missed request response [] [] nothing = refl
find_route-Missed request response _ _ (missed r route rs qs e more) =
    rw (e, find_route, find_route-Missed request response rs qs more)

-- If no route matches, the answer is 404 and the response is otherwise as it was.
pub execute_routing-Missed :
    (request : HttpRequest) (response : HttpResponse) (rs qs : List Registered)
    → Missed request rs qs
    → execute_routing rs request response ≡ executed qs (set_status not_found response)
unfolding execute_routing
execute_routing-Missed request response rs qs m =
    ap finish (find_route-Missed request response rs qs m)

-- The first route that matches answers: its callback is run once, with the parameters that the
-- match bound, and the routes behind it are not tried.
find_route_first :
    (request : HttpRequest) (response : HttpResponse) (before kept : List Registered)
    (r : Registered) (route : Route) (after : List Registered)
    → Missed request before kept
    → match_of r request ≡ answered true route
    → find_route (before ++ r ∷ after) request response
      ≡ searched
          (kept ++ record r { route = route } ∷ after)
          (run_callback (record r { route = route }) request response).0
          (run_callback (record r { route = route }) request response).1
unfolding find_route
find_route_first request response [] [] r route after nothing e = rw (e, find_route)
find_route_first request response _ _ r route after (missed q route' rs qs e' more) e =
    rw (e', find_route, find_route_first request response rs qs r route after more e)

-- The first matching route's callback returns: its response is the answer.
pub execute_routing_returned :
    (request : HttpRequest) (response left : HttpResponse) (before kept : List Registered)
    (r : Registered) (route : Route) (after : List Registered)
    → Missed request before kept
    → match_of r request ≡ answered true route
    → r.callback request response route.path_parameters ≡ returned left
    → execute_routing (before ++ r ∷ after) request response
      ≡ executed (kept ++ record r { route = route } ∷ after) left
unfolding execute_routing run_callback
execute_routing_returned request response left before kept r route after m e c =
    ap finish (find_route_first request response before kept r route after m e)
    ∙ rw (c, run_callback) refl

-- A callback that ends by an exception is answered 404, with the rest of the response as the
-- callback left it: the 500 that the handler sets is written over behind the loop.
pub execute_routing_threw :
    (request : HttpRequest) (response left : HttpResponse) (before kept : List Registered)
    (r : Registered) (route : Route) (after : List Registered)
    → Missed request before kept
    → match_of r request ≡ answered true route
    → r.callback request response route.path_parameters ≡ threw left
    → execute_routing (before ++ r ∷ after) request response
      ≡ executed (kept ++ record r { route = route } ∷ after) (set_status not_found left)
unfolding execute_routing run_callback set_status
execute_routing_threw request response left before kept r route after m e c =
    ap finish (find_route_first request response before kept r route after m e)
    ∙ rw (c, run_callback) refl
