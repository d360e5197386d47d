-- ===== src/Endpoint/Laws.antt =====
-- What the helpers give a callback, and what the protection of a route does in a chain.
use webcrown.Base.{
  ◌-◌, ◌+◌, ◌+◌, ◌≡◌, ◌≢◌, refl, List, [], ◌∷◌, ◌++◌, Bytes, codes, bytes_eq_refl, Bool, true,
  false, length, get_or, find, some, arith, Bool-cases, Option-cases, inl, inr,
}
use webcrown.StringUtils.{starts_with}
use webcrown.StringUtils.Laws.{Lacks}
use webcrown.Http.Method.{HttpMethod}
use webcrown.Http.Request.{HttpRequest}
use webcrown.Http.Response.{HttpResponse, set_status, set_body}
use webcrown.Http.Status.{HttpStatus}
use webcrown.Route.{
  Route, RouteParameter, Matched, answered, threw_out_of_range, new_route,
  is_match_with_target_request,
}
use webcrown.Route.Matching.{bound_route, bound_route_match}
use webcrown.Route.Binding.{new_route_bound}
use webcrown.Middleware.Auth.{
  AuthAuthorizationLevel, AuthCallback, AuthRoutes, authorize_route, extract_token, auth_header,
  Verdict, passed, refused, check_token, check_route, execute_auth,
}
use webcrown.Middleware.Auth.Laws.{Allowed, Cleared, execute_auth_iff, execute_auth_response}
use webcrown.Server.Receive.{Middleware, run_middlewares}
use webcrown.Endpoint.{EndpointContext, add, configure_auth_callback, callback_of, get_parameter}

-- The routes that a match leaves, or none.
abbrev pub matched_parameters : Matched → List RouteParameter
matched_parameters (answered true r) = r.path_parameters
matched_parameters _ = []

-- A route that is made of a part and of a binding at the end gives its callback the value of the
-- binding: for a target that is the part, a slash and a value without a slash, the look-up of the
-- binding's name in the parameters of the match finds that value. The part begins with a slash, has
-- no colon and does not end in a slash; the name has no slash, and does not stand earlier in the
-- path.
pub get_parameter-new_route :
    (m : HttpMethod) (prefix name value : Bytes)
    → starts_with prefix (codes "/") ≡ true
    → get_or prefix (length prefix - 1) 0 ≢ b'/'
    → Lacks b':' prefix
    → Lacks b'/' name
    → find name (prefix ++ (b'/' ∷ b':' ∷ name)) ≡ some (length prefix + 2)
    → Lacks b'/' value
    → (r : Route) × (new_route m (prefix ++ (b'/' ∷ b':' ∷ name)) ≡ some r)
      × (get_parameter
            (matched_parameters (is_match_with_target_request r (prefix ++ (b'/' ∷ value)) m))
            name
          ≡ some (record { name = name; value = value; bind_pos = length prefix + 1 }))
unfolding get_parameter
get_parameter-new_route m prefix name value rooted unclosed no_colon one_segment first plain =
    let pos = length prefix + 1 in
    let matches = bound_route_match m prefix name [] value pos rooted unclosed first plain in
    (
      bound_route m prefix name [] pos,
      new_route_bound m prefix name rooted no_colon one_segment,
      rw (matches, bytes_eq_refl name) refl,
    )

-- The auth middleware of a context in a chain of middlewares.
abbrev pub guard : EndpointContext → Middleware
guard c request response =
    let a = execute_auth (callback_of c.middleware_callback) c.authorized_routes request response in
    some (a.goes_on, a.response)

-- A request that every protected route of a context passes over or gives leave reaches what stands
-- behind the context's middleware, with the response as it was.
pub run_middlewares-guard :
    (c : EndpointContext) (ms : List Middleware) (request : HttpRequest) (response : HttpResponse)
    → Cleared (callback_of c.middleware_callback) request c.authorized_routes
    → run_middlewares (guard c ∷ ms) request response ≡ run_middlewares ms request response
unfolding run_middlewares
run_middlewares-guard c ms request response cleared =
    let cb = callback_of c.middleware_callback in
    let on = (execute_auth_iff cb c.authorized_routes request response).1 cleared in
    let same = execute_auth_response cb c.authorized_routes request response on in
    rw (run_middlewares, on, same) refl

Cleared-append :
    (cb : AuthCallback) (request : HttpRequest) (rs : AuthRoutes) (rt : Route)
    (level : AuthAuthorizationLevel)
    → Cleared cb request (rs ++ (rt, level) ∷ [])
    → (q : Route) → is_match_with_target_request rt request.target request.method ≡ answered true q
    → Allowed cb request q level
Cleared-append cb request [] rt level h q e = h.1 q e
Cleared-append cb request ((r, l) ∷ rs) rt level h q e =
    Cleared-append cb request rs rt level h.2 q e

-- The three answers of a request that is held back.
abbrev pub is_denial : HttpStatus → Bool
is_denial HttpStatus.unauthorized = true
is_denial HttpStatus.forbidden = true
is_denial HttpStatus.internal_server_error = true
is_denial _ = false

check_token_denial :
    (cb : AuthCallback) (token : Bytes) (route : Route) (level : AuthAuthorizationLevel)
    (response r : HttpResponse)
    → check_token cb token route level response ≡ refused r
    → is_denial r.status ≡ true
unfolding check_token set_status set_body
check_token_denial cb [] route level response r h =
    let same : set_status HttpStatus.forbidden response ≡ r = cc h in rw (← same) refl
check_token_denial cb (c ∷ token) route level response r h =
    elim (Option-cases (cb (c ∷ token) route level)) [
      | inl e ↦ ground arith
      | inr (a, e) ↦ elim (Bool-cases a.success) [ inl ok ↦ ground arith | inr bad ↦ ground arith ]
    ]

check_route_denial :
    (cb : AuthCallback) (route : Route) (level : AuthAuthorizationLevel) (request : HttpRequest)
    (response r : HttpResponse)
    → check_route cb route level request response ≡ refused r
    → is_denial r.status ≡ true
unfolding check_route set_status
check_route_denial cb route level request response r h =
    elim (Option-cases (auth_header request.headers)) [
      | inl e ↦ ground arith
      | inr (value, e) ↦
          check_token_denial cb (extract_token value) route level response r (ground arith)
    ]

execute_auth_denial :
    (cb : AuthCallback) (routes : AuthRoutes) (request : HttpRequest) (response : HttpResponse)
    → (execute_auth cb routes request response).goes_on ≡ false
    → is_denial (execute_auth cb routes request response).response.status ≡ true
unfolding execute_auth set_status
execute_auth_denial cb [] request response h = cc
execute_auth_denial cb ((route, level) ∷ rs) request response h =
    denial_of (execute_auth_denial cb rs request response)
      (is_match_with_target_request route request.target request.method) refl
  where
    verdict_of :
        ((execute_auth cb rs request response).goes_on ≡ false
          → is_denial (execute_auth cb rs request response).response.status ≡ true)
        → (q : Route) (v : Verdict)
        → is_match_with_target_request route request.target request.method ≡ answered true q
        → check_route cb q level request response ≡ v
        → is_denial (execute_auth cb ((route, level) ∷ rs) request response).response.status ≡ true
    verdict_of ih q passed e c = rw (e, execute_auth, c) (ih (rw (e, execute_auth, c) at h))
    verdict_of ih q (refused r) e c =
        rw (e, execute_auth, c) (check_route_denial cb q level request response r c)

    denial_of :
        ((execute_auth cb rs request response).goes_on ≡ false
          → is_denial (execute_auth cb rs request response).response.status ≡ true)
        → (m : Matched) → is_match_with_target_request route request.target request.method ≡ m
        → is_denial (execute_auth cb ((route, level) ∷ rs) request response).response.status ≡ true
    denial_of ih threw_out_of_range e = rw (e, execute_auth)
    denial_of ih (answered false q) e = rw (e, execute_auth) (ih (rw (e, execute_auth) at h))
    denial_of ih (answered true q) e = verdict_of ih q _ e refl

-- A route that is added with protection guards the whole chain behind the context's middleware: a
-- request that the route matches, and to which it does not give leave, is answered with the status
-- 401, 403 or 500, and no middleware behind is asked, whatever they are. The route is also the last
-- of the context's routes.
pub guarded_chain :
    (c : EndpointContext) (rt q : Route) (level : AuthAuthorizationLevel) (cb : AuthCallback)
    (ms : List Middleware) (request : HttpRequest) (response : HttpResponse)
    → is_match_with_target_request rt request.target request.method ≡ answered true q
    → ¬ Allowed cb request q level
    → ((r : HttpResponse) × (is_denial r.status ≡ true)
        × (run_middlewares
              (guard (configure_auth_callback cb (add rt true level c)) ∷ ms)
              request
              response
            ≡ some r))
      × ((add rt true level c).routes ≡ c.routes ++ rt ∷ [])
unfolding add configure_auth_callback run_middlewares callback_of authorize_route
guarded_chain c rt q level cb ms request response matches denied =
    let routes = c.authorized_routes ++ (rt, level) ∷ [] in
    let held : (execute_auth cb routes request response).goes_on ≡ false =
      elim (Bool-cases (execute_auth cb routes request response).goes_on) [
        | inr held ↦ held
        | inl on ↦ absurd (
            denied (
              Cleared-append cb request c.authorized_routes rt level
                ((execute_auth_iff cb routes request response).0 on) q matches))
      ] in
    (
      (
        (execute_auth cb routes request response).response,
        execute_auth_denial cb routes request response held,
        rw (run_middlewares, held),
      ),
      refl,
    )
