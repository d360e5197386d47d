-- ===== src/Middleware/Cors/Laws.antt =====
-- What the CORS middleware does with each kind of request.
use webcrown.Base.{
  Bytes, codes, ◌++◌, true, false, ◌≡◌, ◌≢◌, refl, some, lookup, lookup-insert, bytes_eq,
  bytes_eq_iff, if◌then◌else◌, not, or_else, ◌⊎◌, Bool-cases, inl, inr,
}
use webcrown.Http.Method.{options}
use webcrown.Http.Request.{HttpRequest}
use webcrown.Http.Response.{HttpResponse, set_status, add_header}
use webcrown.Http.Status.{no_content}
use webcrown.Route.{method_eq}
use webcrown.Middleware.Cors.{add_cors_headers, is_same_origin, cors_response, execute_cors}

-- A cross-origin request: an origin that is not this host, over either scheme.
pub record IsCross (request : HttpRequest) : Type 0 where
  pub origin : Bytes
  pub host : Bytes
  pub has_origin : lookup (codes "origin") request.headers ≡ some origin
  pub has_host : lookup (codes "host") request.headers ≡ some host
  pub differs_http : origin ≢ codes "http://" ++ host
  pub differs_https : origin ≢ codes "https://" ++ host

differs : (s t : Bytes) → s ≢ t → bytes_eq s t ≡ false
differs s t ne = elim (Bool-cases (bytes_eq s t)) [
  | inl e ↦ absurd (ne ((bytes_eq_iff s t).0 e))
  | inr e ↦ e
]

execute_cors_cross :
    (request : HttpRequest) (response : HttpResponse)
    → IsCross request
    → execute_cors request response ≡ (
        if method_eq request.method options
        then (false, set_status no_content (add_cors_headers response))
        else (true, add_cors_headers response))
unfolding execute_cors is_same_origin cors_response
execute_cors_cross request response c = rw (
  c.has_origin,
  execute_cors,
  c.has_host,
  differs c.origin (codes "http://" ++ c.host) c.differs_http,
  differs c.origin (codes "https://" ++ c.host) c.differs_https,
)

lookup-add_cors_headers :
    (response : HttpResponse) (key : Bytes)
    → (key ≡ codes "Access-Control-Allow-Origin")
      ⊎ ((key ≡ codes "Access-Control-Allow-Headers")
          ⊎ (key ≡ codes "Access-Control-Allow-Methods"))
    → lookup key (add_cors_headers response).headers
      ≡ some (or_else (lookup key response.headers) (codes "*"))
unfolding add_cors_headers add_header bytes_eq
lookup-add_cors_headers response key (inl e) = rw e (simp lookup-insert)
lookup-add_cors_headers response key (inr (inl e)) = rw e (simp lookup-insert)
lookup-add_cors_headers response key (inr (inr e)) = rw e (simp lookup-insert)

-- A cross-origin request goes on, but a preflight (OPTIONS) stops with 204; in both cases the three
-- headers are in the answer, with the value that the response had for them before, or else `*`.
pub execute_cors_lem :
    (request : HttpRequest) (response : HttpResponse) (key : Bytes)
    → IsCross request
    → (key ≡ codes "Access-Control-Allow-Origin")
      ⊎ ((key ≡ codes "Access-Control-Allow-Headers")
          ⊎ (key ≡ codes "Access-Control-Allow-Methods"))
    → ((execute_cors request response).0 ≡ not (method_eq request.method options))
      × ((execute_cors request response).1.status
          ≡ (if method_eq request.method options then no_content else response.status))
      × (lookup key (execute_cors request response).1.headers
          ≡ some (or_else (lookup key response.headers) (codes "*")))
unfolding set_status add_cors_headers add_header
execute_cors_lem request response key c k =
    let found = lookup-add_cors_headers response key k in
    elim (Bool-cases (method_eq request.method options)) [
      | inl e ↦ rw (execute_cors_cross request response c, e) (refl, refl, found)
      | inr e ↦ rw (execute_cors_cross request response c, e) (refl, refl, found)
    ]
