-- ===== src/Witness.antt =====
-- The theorems of the character classes, the string functions, the methods, the routes and the
-- middlewares at concrete inputs.
use webcrown.Base.{
  [], ◌∷◌, Bytes, codes, length, none, some, ◌≡◌, refl, ◌↔◌, inl, true, false, arith, lookup,
  bytes_eq, or_else, ◌&&◌, StringMap, ap, not, if◌then◌else◌,
}
use webcrown.StringUtils.{split, starts_with, find_at, replace_loop, replace_all}
use webcrown.StringUtils.Replace.{replaced, occurs, replace_all-replaced}
use webcrown.StringUtils.Laws.{join, join-split, AllLack}
use webcrown.Http.Method.{get, options}
use webcrown.Http.Request.{HttpRequest}
use webcrown.Http.Response.{HttpResponse, set_status}
use webcrown.Http.Status.{HttpStatus, no_content}
use webcrown.Route.{Route, answered, is_match_with_target_request, method_eq}
use webcrown.Route.Tests.{route_code}
use webcrown.Route.Matching.{static_route, static_route_match}
use webcrown.Middleware.Routing.{Ran, threw, Registered, executed, execute_routing}
use webcrown.Middleware.Routing.Laws.{
  Missed, nothing, missed, execute_routing-Missed, execute_routing_threw,
}
use webcrown.Middleware.Auth.{AuthAuthorizationLevel, AuthCallback, AuthRoutes, execute_auth}
use webcrown.Middleware.Auth.Laws.{Cleared, execute_auth_iff}
use webcrown.Middleware.Cors.{execute_cors}
use webcrown.Middleware.Cors.Laws.{execute_cors_lem}

abbrev pair_text : Bytes
pair_text = codes "a;;b"

join-split_example :
    (join b';' (split pair_text b';' false) ≡ pair_text) × AllLack b';' (split pair_text b';' false)
join-split_example = join-split pair_text b';'

abbrev users : Route
users = static_route get (codes "/users")

static_route_match_example :
    is_match_with_target_request users (codes "/users") get
    ≡ answered
        (starts_with (codes "/users") (codes "/")
          && (method_eq get get && bytes_eq (codes "/users") (codes "/users")))
        users
unfolding route_code
static_route_match_example =
    static_route_match get get (codes "/users") (codes "/users") users refl refl

abbrev ask : Bytes → StringMap → HttpRequest
ask target headers = record {
  method = get;
  protocol_version = 11;
  target = target;
  headers = headers;
  body = [];
  uploads = [];
}

abbrev fresh : HttpResponse
fresh = record { status = HttpStatus.ok; body = []; headers = [] }

-- A callback that ends by an exception.
abbrev failing : Registered
failing = record { route = users; callback = λ q r ps. threw r }

abbrev posts : Registered
posts = record { route = static_route get (codes "/posts"); callback = λ q r ps. Ran.returned r }

posts-Missed : Missed (ask (codes "/users") []) (posts ∷ []) (posts ∷ [])
unfolding route_code
posts-Missed = missed posts (static_route get (codes "/posts")) [] [] refl nothing

execute_routing-Missed_example :
    execute_routing (posts ∷ []) (ask (codes "/users") []) fresh
    ≡ executed (posts ∷ []) (set_status HttpStatus.not_found fresh)
execute_routing-Missed_example =
    execute_routing-Missed (ask (codes "/users") []) fresh (posts ∷ []) (posts ∷ []) posts-Missed

execute_routing_threw_example :
    execute_routing (posts ∷ failing ∷ []) (ask (codes "/users") []) fresh
    ≡ executed (posts ∷ failing ∷ []) (set_status HttpStatus.not_found fresh)
unfolding route_code
execute_routing_threw_example =
    execute_routing_threw (ask (codes "/users") []) fresh fresh (posts ∷ []) (posts ∷ []) failing
      users [] posts-Missed refl refl

-- Every token that is asked about is accepted.
abbrev trusting : AuthCallback
trusting token route level = some (record { success = true; reason = [] })

abbrev guarded : AuthRoutes
guarded = (users, AuthAuthorizationLevel.admin) ∷ []

abbrev bearer : HttpRequest
bearer = ask (codes "/users") ((codes "authorization", codes "Bearer t") ∷ [])

execute_auth_iff_example :
    ((execute_auth trusting guarded bearer fresh).goes_on ≡ true) ↔ Cleared trusting bearer guarded
execute_auth_iff_example = execute_auth_iff trusting guarded bearer fresh

abbrev cross : HttpRequest
cross = ask (codes "/users") ((codes "origin", codes "null") ∷ (codes "host", codes "b") ∷ [])

execute_cors_lem_example :
    ((execute_cors cross fresh).0 ≡ not (method_eq cross.method options))
    × ((execute_cors cross fresh).1.status
        ≡ (if method_eq cross.method options then no_content else fresh.status))
    × (lookup (codes "Access-Control-Allow-Origin") (execute_cors cross fresh).1.headers
        ≡ some (or_else (lookup (codes "Access-Control-Allow-Origin") fresh.headers) (codes "*")))
unfolding lookup method_eq bytes_eq
execute_cors_lem_example =
    execute_cors_lem cross fresh (codes "Access-Control-Allow-Origin")
      (record {
        origin = codes "null";
        host = codes "b";
        has_origin = refl;
        has_host = refl;
        differs_http = λ e. omega (arith, ap length e);
        differs_https = λ e. omega (arith, ap length e);
      })
      (inl refl)

abbrev greeting : HttpResponse
greeting = record { status = HttpStatus.ok; body = codes "hello"; headers = [] }

replace_all-replaced_example :
    (replace_all pair_text (codes ";") (codes ", ")
      ≡ some (
        replaced (codes ";") (codes ", ") 0 pair_text,
        occurs (codes ";") (codes ", ") pair_text,
      ))
    × (replace_loop (codes ";") (codes ", ") 9 pair_text 0 false
        ≡ replace_all pair_text (codes ";") (codes ", "))
    × (replace_loop [] (codes ", ") 9 pair_text 0 false ≡ none)
replace_all-replaced_example =
    replace_all-replaced pair_text (codes ";") (codes ", ") 9 (omega arith) (omega arith)

-- What is put in is not replaced again.
grown : replace_all (codes "aa") (codes "a") (codes "aa") ≡ some (codes "aaaa", true)
unfolding replace_all find_at replace_loop webcrown.Base.find_from webcrown.Base.is_prefix
grown = refl
