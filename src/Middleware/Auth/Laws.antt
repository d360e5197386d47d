-- ===== src/Middleware/Auth/Laws.antt =====
-- Which requests pass the auth middleware.
use webcrown.Base.{
  subst, [], ◌∷◌, Bytes, true, false, ◌≡◌, ◌≢◌, refl, arith, some, Option-cases, inl, inr, ◌↔◌,
}
use webcrown.Http.Request.{HttpRequest}
use webcrown.Http.Response.{HttpResponse}
use webcrown.Route.{Route, Matched, answered, threw_out_of_range, is_match_with_target_request}
use webcrown.Middleware.Auth.{
  AuthAuthorizationLevel, AuthResult, AuthCallback, AuthRoutes, extract_token, auth_header, Verdict,
  passed, refused, check_token, check_route, execute_auth,
}

-- A request has leave for a route: the callback accepts a token that is not empty, from the
-- authorization header.
pub record Allowed (cb : AuthCallback) (request : HttpRequest) (route : Route)
    (level : AuthAuthorizationLevel) : Type 0 where
  pub value : Bytes
  pub result : AuthResult
  pub header : auth_header request.headers ≡ some value
  pub token : extract_token value ≢ []
  pub accepted : cb (extract_token value) route level ≡ some result
  pub success : result.success ≡ true

-- Every protected route is passed over, or gives the request leave, and no match throws.
abbrev pub Cleared : AuthCallback → HttpRequest → AuthRoutes → Type 0
Cleared cb request [] = Unit {0}
Cleared cb request ((route, level) ∷ rs) =
    (is_match_with_target_request route request.target request.method ≢ threw_out_of_range)
    × ((route' : Route)
        → is_match_with_target_request route request.target request.method ≡ answered true route'
        → Allowed cb request route' level)
    × Cleared cb request rs

check_token_passed :
    (cb : AuthCallback) (token : Bytes) (route : Route) (level : AuthAuthorizationLevel)
    (response : HttpResponse)
    → check_token cb token route level response ≡ passed
    → (token ≢ []) × ((r : AuthResult) × (cb token route level ≡ some r) × (r.success ≡ true))
unfolding check_token
check_token_passed cb [] route level response h = cc
check_token_passed cb (c ∷ token) route level response h =
    elim (Option-cases (cb (c ∷ token) route level)) [
      | inl e ↦ absurd (ground arith)
      | inr (r, e) ↦ (λ k. cc, (r, e, ground arith))
    ]

check_route_passed :
    (cb : AuthCallback) (route : Route) (level : AuthAuthorizationLevel) (request : HttpRequest)
    (response : HttpResponse)
    → check_route cb route level request response ≡ passed
    → Allowed cb request route level
unfolding check_route
check_route_passed cb route level request response h =
    elim (Option-cases (auth_header request.headers)) [
      | inl e ↦ absurd (ground arith)
      | inr (value, e) ↦
          let (token, (r, a, s)) =
            check_token_passed cb (extract_token value) route level response (ground arith) in
          record { value = value; result = r; header = e; token = token; accepted = a; success = s }
    ]

check_route_of_Allowed :
    (cb : AuthCallback) (route : Route) (level : AuthAuthorizationLevel) (request : HttpRequest)
    (response : HttpResponse)
    → Allowed cb request route level
    → check_route cb route level request response ≡ passed
unfolding check_route
check_route_of_Allowed cb route level request response a =
    rw (a.header, check_route) (token_passes (extract_token a.value) a.token a.accepted)
  where
    token_passes :
        (token : Bytes)
        → token ≢ []
        → cb token route level ≡ some a.result
        → check_token cb token route level response ≡ passed
    token_passes [] ne e = absurd (ne refl)
    token_passes (c ∷ token) ne e =
        unfold check_token in rw (e, check_token, a.success) (ground arith)

module _ (cb : AuthCallback) (request : HttpRequest) (response : HttpResponse) where
  -- The match of one protected route, and its check.
  data Outcome (route : Route) (level : AuthAuthorizationLevel) : Type 0 where
    threw :
        is_match_with_target_request route request.target request.method ≡ threw_out_of_range
        → Outcome route level
    other :
        (q : Route)
        → is_match_with_target_request route request.target request.method ≡ answered false q
        → Outcome route level
    allowed :
        (q : Route)
        → is_match_with_target_request route request.target request.method ≡ answered true q
        → check_route cb q level request response ≡ passed
        → Outcome route level
    denied :
        (q : Route) (r : HttpResponse)
        → is_match_with_target_request route request.target request.method ≡ answered true q
        → check_route cb q level request response ≡ refused r
        → Outcome route level

  checked :
      (route q : Route) (level : AuthAuthorizationLevel) (v : Verdict)
      → is_match_with_target_request route request.target request.method ≡ answered true q
      → check_route cb q level request response ≡ v
      → Outcome route level
  checked route q level passed e c = allowed q e c
  checked route q level (refused r) e c = denied q r e c

  matched :
      (route : Route) (level : AuthAuthorizationLevel) (m : Matched)
      → is_match_with_target_request route request.target request.method ≡ m
      → Outcome route level
  matched route level threw_out_of_range e = threw e
  matched route level (answered false q) e = other q e
  matched route level (answered true q) e = checked route q level _ e refl

  goes_on_step :
      (route : Route) (level : AuthAuthorizationLevel) (rs : AuthRoutes)
      → Outcome route level
      → ((execute_auth cb rs request response).goes_on ≡ true) ↔ Cleared cb request rs
      → ((execute_auth cb ((route, level) ∷ rs) request response).goes_on ≡ true)
        ↔ Cleared cb request ((route, level) ∷ rs)
  unfolding execute_auth
  goes_on_step route level rs (threw e) ih = rw (e, execute_auth) (λ h. cc, λ c. absurd (c.0 refl))
  goes_on_step route level rs (other q e) ih =
      rw (e, execute_auth) (λ h. (λ k. cc, λ q' k. cc, ih.0 h), λ c. ih.1 c.2)
  goes_on_step route level rs (allowed q e c) ih =
      rw (e, execute_auth, c)
        (
          λ h. (
            λ k. cc,
            λ q' k.
                subst (λ z. Allowed cb request z level) (cc k)
                  (check_route_passed cb q level request response c),
            ih.0 h,
          ),
          λ all. ih.1 all.2,
        )
  goes_on_step route level rs (denied q r e c) ih =
      rw (e, execute_auth, c) (λ h. cc, λ all. absurd (denied_absurd (all.1 q refl)))
    where
      denied_absurd : Allowed cb request q level → ⊥
      denied_absurd a = cc (check_route_of_Allowed cb q level request response a)

-- The auth middleware lets a request through exactly when every protected route that it matches
-- gives it leave: an authorization header with a token that is not empty and that the callback
-- accepts for that route and level; and no match throws.
pub execute_auth_iff :
    (cb : AuthCallback) (routes : AuthRoutes) (request : HttpRequest) (response : HttpResponse)
    → ((execute_auth cb routes request response).goes_on ≡ true) ↔ Cleared cb request routes
execute_auth_iff cb [] request response = unfold execute_auth in (λ h. tt, λ c. refl)
execute_auth_iff cb ((route, level) ∷ rs) request response =
    goes_on_step cb request response route level rs (matched cb request response route level _ refl)
      (execute_auth_iff cb rs request response)

-- A request that is let through has its response untouched.
pub execute_auth_response :
    (cb : AuthCallback) (routes : AuthRoutes) (request : HttpRequest) (response : HttpResponse)
    → (execute_auth cb routes request response).goes_on ≡ true
    → (execute_auth cb routes request response).response ≡ response
unfolding execute_auth
execute_auth_response cb [] request response h = refl
execute_auth_response cb ((route, level) ∷ rs) request response h =
    ground (arith, execute_auth_response cb rs request response)
