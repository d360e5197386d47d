-- ===== src/Route.antt =====
-- include/webcrown/server/http/middlewares/route.hpp. A route is matched by index over its path's
-- and the target's bytes; a read at the end of a text gives the zero that ends it. The callback
-- and the context of a route are in the routing middleware.

pub mod Matching
pub mod Binding
pub mod Tests
use webcrown.Base.{
  ℕ, zero, suc, ◌+◌, ◌-◌, List, [], ◌∷◌, ◌++◌, Bytes, codes, Option, none, some, Bool, true, false,
  ◌&&◌, ltb, ◌==◌, if◌then◌else◌, length, get_or, take, drop, bytes_eq, find,
}
use webcrown.StringUtils.{starts_with}
use webcrown.Http.Method.{HttpMethod, unknown, post, get, delete_, options, patch}

pub record RouteParameter : Type 0 where
  pub name : Bytes
  pub value : Bytes
  pub bind_pos : ℕ

pub record Route : Type 0 where
  pub path : Bytes
  pub uri_target : Bytes
  pub method : HttpMethod
  pub path_parameters : List RouteParameter

-- `==` on `http_method`.
unfoldable pub method_eq : HttpMethod → HttpMethod → Bool
method_eq unknown unknown = true
method_eq post post = true
method_eq get get = true
method_eq delete_ delete_ = true
method_eq options options = true
method_eq patch patch = true
method_eq _ _ = false

-- `std::string(first, last)` of iterators into a text.
unfoldable pub substring : Bytes → ℕ → ℕ → Bytes
substring s first last = take (last - first) (drop first s)

module _ (path : Bytes) where
  -- The first `/:`, from an index on; `none` at the end of the path.
  unfoldable pub find_binding : ℕ → ℕ → Option ℕ
  find_binding zero it = none
  find_binding (suc n) it =
      let rest = find_binding n (suc it) in
      if get_or path it 0 == b'/' && get_or path (it + 1) 0 == b':' then some it else rest

  -- The first `/`, from an index on.
  unfoldable pub find_slash : ℕ → ℕ → Option ℕ
  find_slash zero it = none
  find_slash (suc n) it =
      let rest = find_slash n (suc it) in if get_or path it 0 == b'/' then some it else rest

  -- `extract_next_bind_key`, at a `:`: the key, and where the iterator stops.
  unfoldable pub extract_next_bind_key : ℕ → Bytes × ℕ
  extract_next_bind_key it =
      let begin = it + 1 in
      let last = length path in
      let whole : Bytes × ℕ = elim (find_slash (last - begin) begin) [
        | some i ↦ (substring path begin i, i)
        | none ↦ (substring path begin last, last)
      ] in
      elim (find_binding (last - begin) begin) [
        | some i ↦ (substring path begin i, i)
        | none ↦
            if get_or path (last - 1) 0 == b'/'
            then (substring path begin (last - 1), last)
            else whole
      ]

  -- The loop of `parse` that collects the bindings; each round moves the iterator on.
  unfoldable pub bind_loop : ℕ → ℕ → List RouteParameter
  bind_loop zero it = []
  bind_loop (suc n) it =
      let key = extract_next_bind_key it in
      let bound = bind_loop n (key.1 + 1) in
      let rest = bind_loop n (it + 1) in
      if ltb it (length path)
      then if get_or path it 0 == b':'
        then record { name = key.0; value = []; bind_pos = it } ∷ bound
        else rest
      else []

-- The constructor, with `parse`; `none` is its `std::runtime_error`.
unfoldable pub new_route : HttpMethod → Bytes → Option Route
new_route method path =
    let last = length path in
    let parsed : Route = elim (find_binding path (last - 1) 1) [
      | none ↦ record { path = path; uri_target = path; method = method; path_parameters = [] }
      | some i ↦ record {
        path = path;
        uri_target = take i path;
        method = method;
        path_parameters = bind_loop path last (i + 1);
      }
    ] in
    if starts_with path (codes "/") then some parsed else none

-- The result of a match, which writes the values of the route's parameters; or the
-- `std::out_of_range` of a replacement in front of the path.
pub data Matched : Type 0 where
  answered : Bool → Route → Matched
  threw_out_of_range : Matched

-- `find_next_path_parameter_value`: the characters up to the next `/`.
unfoldable pub parameter_value : Bytes → Bytes
parameter_value [] = []
parameter_value (c ∷ s) = if c == b'/' then [] else c ∷ parameter_value s

-- The first occurrence of the name, and the character in front of it, become the value.
unfoldable pub replace_name : Bytes → Bytes → Bytes → Option Bytes
replace_name full name value = elim (find name full) [
  | none ↦ some full
  | some zero ↦ none
  | some (suc k) ↦ some (take k full ++ (value ++ drop (suc k + length name) full))
]

module _ (target : Bytes) where
  -- The search for the binding: behind the `/` in front of which the target is the route's. A `/`
  -- that is not it is passed over with the character behind it.
  unfoldable pub scan_loop : Bytes → ℕ → ℕ → Option ℕ
  scan_loop uri zero it = none
  scan_loop uri (suc n) it =
      let far = scan_loop uri n (it + 2) in
      let near = scan_loop uri n (it + 1) in
      if ltb it (length target)
      then if get_or target it 0 == b'/'
        then if bytes_eq (take it target) uri then some (it + 1) else far
        else near
      else none

  -- The parameters with their values, and the path with the values in it.
  unfoldable pub bind_values :
      List RouteParameter → ℕ → Bytes → Option (List RouteParameter × Bytes)
  bind_values [] it full = some ([], full)
  bind_values (p ∷ ps) it full =
      let value = parameter_value (drop it target) in
      let end = it + length value in
      let next = if get_or target end 0 == b'/' then end + 1 else end in
      elim (replace_name full p.name value) [
        | none ↦ none
        | some bound ↦ elim (bind_values ps next bound) [
          | none ↦ none
          | some (qs, final) ↦ some (record p { value = value } ∷ qs, final)
        ]
      ]

-- `is_match_with_target_request`
unfoldable pub match_bindings : Route → Bytes → Matched
match_bindings r target = elim (scan_loop target r.uri_target (length target) 0) [
  | none ↦ answered false r
  | some it ↦ elim (bind_values target r.path_parameters it r.path) [
    | none ↦ threw_out_of_range
    | some (ps, full) ↦ answered (bytes_eq target full) (record r { path_parameters = ps })
  ]
]

unfoldable pub is_match_with_target_request : Route → Bytes → HttpMethod → Matched
is_match_with_target_request r target method =
    if starts_with target (codes "/")
    then if method_eq method r.method
      then if bytes_eq target r.uri_target then answered true r else match_bindings r target
      else answered false r
    else answered false r
