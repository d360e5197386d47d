-- ===== src/Endpoint/Witness.antt =====
-- The theorems of the endpoint helpers at a route with a binding and at a protected one.
use webcrown.Base.{◌≡◌, refl, [], ◌∷◌, ◌++◌, codes, true, false, none, some, arith}
use webcrown.Http.Method.{get}
use webcrown.Http.Request.{HttpRequest}
use webcrown.Http.Response.{HttpResponse, new_response}
use webcrown.Route.{Route, new_route, is_match_with_target_request}
use webcrown.Route.Tests.{route_code}
use webcrown.Route.Matching.{static_route}
use webcrown.Middleware.Auth.{
  AuthAuthorizationLevel, AuthCallback, authorize_route, auth_header, extract_token,
}
use webcrown.Middleware.Auth.Laws.{Cleared}
use webcrown.Server.Receive.{run_middlewares}
use webcrown.Endpoint.{
  EndpointContext, new_context, add, configure_auth_callback, callback_of, get_parameter,
  should_add_auth_middleware, json_any_missing_field,
}
use webcrown.Endpoint.Laws.{
  matched_parameters, get_parameter-new_route, guard, is_denial, run_middlewares-guard,
  guarded_chain,
}

get_parameter-new_route_example :
    (r : Route) × (new_route get (codes "/users" ++ (b'/' ∷ b':' ∷ codes "id")) ≡ some r)
    × (get_parameter
          (matched_parameters
            (is_match_with_target_request r (codes "/users" ++ (b'/' ∷ codes "42")) get))
          (codes "id")
        ≡ some (record { name = codes "id"; value = codes "42"; bind_pos = 7 }))
unfolding route_code
get_parameter-new_route_example =
    get_parameter-new_route get (codes "/users") (codes "id") (codes "42") refl (omega arith)
      (omega arith) (omega arith) refl (omega arith)

abbrev admins : Route
admins = static_route get (codes "/admins")

-- Nobody is an administrator.
abbrev nobody : AuthCallback
nobody token route level = some (record { success = false; reason = codes "no" })

abbrev asked : HttpRequest
asked = record {
  method = get;
  protocol_version = 11;
  target = codes "/admins";
  headers = (codes "Authorization", codes "Bearer t") ∷ [];
  body = [];
  uploads = [];
}

guarded_chain_example :
    ((r : HttpResponse) × (is_denial r.status ≡ true)
      × (run_middlewares
            (guard (
                configure_auth_callback nobody
                  (add admins true AuthAuthorizationLevel.admin new_context))
              ∷ [])
            asked
            new_response
          ≡ some r))
    × ((add admins true AuthAuthorizationLevel.admin new_context).routes
        ≡ new_context.routes ++ admins ∷ [])
unfolding route_code
guarded_chain_example =
    guarded_chain new_context admins admins AuthAuthorizationLevel.admin nobody [] asked
      new_response refl (λ a. cc (a.accepted, a.success))

-- Everybody with a token is one.
abbrev anybody : AuthCallback
anybody token route level = some (record { success = true; reason = [] })

abbrev context : EndpointContext
context = configure_auth_callback anybody (add admins true AuthAuthorizationLevel.admin new_context)

asked-Cleared : Cleared (callback_of context.middleware_callback) asked context.authorized_routes
unfolding route_code add configure_auth_callback new_context callback_of authorize_route auth_header
    extract_token webcrown.Base.lookup
asked-Cleared = (
  λ e. cc,
  λ q e. record {
    value = codes "Bearer t";
    result = record { success = true; reason = [] };
    header = refl;
    token = λ k. cc;
    accepted = refl;
    success = refl;
  },
  tt,
)

run_middlewares-guard_example :
    run_middlewares (guard context ∷ []) asked new_response ≡ run_middlewares [] asked new_response
run_middlewares-guard_example = run_middlewares-guard context [] asked new_response asked-Cleared

protected :
    should_add_auth_middleware true
      (configure_auth_callback nobody (add admins true AuthAuthorizationLevel.admin new_context))
    ≡ some true
unfolding should_add_auth_middleware add webcrown.Middleware.Auth.authorize_route
    webcrown.Endpoint.has_routes configure_auth_callback webcrown.Endpoint.is_defined new_context
protected = refl

-- With assertions on, a context without a protected route is aborted too.
unprotected :
    should_add_auth_middleware true (add admins false AuthAuthorizationLevel.none new_context)
    ≡ none
unfolding should_add_auth_middleware add webcrown.Endpoint.has_routes webcrown.Endpoint.is_defined
    new_context
unprotected = refl
