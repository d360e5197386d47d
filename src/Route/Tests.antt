-- ===== src/Route/Tests.antt =====
-- Runs of the route matcher.
use webcrown.Base.{
  Bytes, codes, Option, none, some, ◌≡◌, refl, Bool, true, false, List, [], ◌∷◌, map,
}
use webcrown.Http.Method.{get}
use webcrown.Route.{
  Route, Matched, answered, threw_out_of_range, new_route, is_match_with_target_request,
}

unfoldable pub route_code : Unit {0}
unfolding new_route is_match_with_target_request webcrown.Route.method_eq webcrown.Route.substring
    webcrown.Route.find_binding webcrown.Route.find_slash webcrown.Route.extract_next_bind_key
    webcrown.Route.bind_loop webcrown.Route.scan_loop webcrown.Route.parameter_value
    webcrown.Route.replace_name webcrown.Route.bind_values webcrown.Route.match_bindings
    webcrown.StringUtils.starts_with webcrown.Base.bytes_eq webcrown.Base.find
route_code = tt

abbrev values : Option Route → Bytes → Option (Bool × List Bytes)
values none target = none
values (some r) target = elim (is_match_with_target_request r target get) [
  | answered b q ↦ some (b, map (λ p. p.value) q.path_parameters)
  | threw_out_of_range ↦ none
]

two_values :
    values (new_route get (codes "/users/:id/:num")) (codes "/users/7/42")
    ≡ some (true, codes "7" ∷ codes "42" ∷ [])
unfolding route_code
two_values = refl

trailing_literal :
    values (new_route get (codes "/users/:id/edit")) (codes "/users/7/edit")
    ≡ some (true, codes "7" ∷ [])
unfolding route_code
trailing_literal = refl

-- The key of a binding runs to the next `/:`, so a literal between two bindings is part of a key,
-- and the route matches no such target.
literal_between :
    values (new_route get (codes "/users/:id/posts/:num")) (codes "/users/7/posts/42")
    ≡ some (false, codes "7" ∷ codes "posts" ∷ [])
unfolding route_code
literal_between = refl
