-- ===== src/Route/Matching.antt =====
-- Which targets a route matches: a route without bindings, and one with a binding at its end.
use webcrown.Base.{
  take_behind, drop_behind, drop_all, get_or-append_right, get_or-append_left, ℕ, zero, suc, ◌+◌,
  ◌-◌, ◌≤◌, ◌<◌, ◌≡◌, ◌≢◌, refl, ap, sym, ◌∙◌, [], ◌∷◌, ◌++◌, Bytes, codes, none, some, true, false,
  ◌&&◌, arith, ltb, ◌==◌, length, length-append, get_or, take, drop, bytes_eq, bytes_eq_refl,
  eq_of_bytes_eq, find, Bool-cases, inl, inr, take-length_append, append-nil, append_assoc,
  Option-cases,
}
use webcrown.StringUtils.{starts_with}
use webcrown.StringUtils.Laws.{Lacks}
use webcrown.Http.Method.{HttpMethod}
use webcrown.Route.{
  Route, method_eq, find_binding, new_route, answered, scan_loop, parameter_value, replace_name,
  bind_values, match_bindings, is_match_with_target_request,
}

-- A route without bindings.
abbrev pub static_route : HttpMethod → Bytes → Route
static_route method path = record {
  path = path;
  uri_target = path;
  method = method;
  path_parameters = [];
}

match_bindings_static :
    (m : HttpMethod) (path target : Bytes)
    → bytes_eq target path ≡ false
    → match_bindings (static_route m path) target ≡ answered false (static_route m path)
unfolding match_bindings bind_values
match_bindings_static m path target other =
    elim (Option-cases (scan_loop target path (length target) 0)) [
      | inl e ↦ rw (e, match_bindings)
      | inr (i, e) ↦ rw (e, match_bindings, other)
    ]

-- A path without a `/:` behind its first character makes a route that matches a target exactly
-- when the target begins with a slash, the method is the route's and the target is the path; the
-- match leaves the route as it is.
pub static_route_match :
    (m method : HttpMethod) (path target : Bytes) (r : Route)
    → new_route m path ≡ some r
    → find_binding path (length path - 1) 1 ≡ none
    → is_match_with_target_request r target method
      ≡ answered (starts_with target (codes "/") && (method_eq method m && bytes_eq target path)) r
unfolding new_route is_match_with_target_request
static_route_match m method path target r e free =
    rw (← same) (ground (arith, match_bindings_static m path target))
  where
    same : static_route m path ≡ r
    same = elim (Bool-cases (starts_with path (codes "/"))) [
      | inl s ↦ cc (rw (s, free, new_route) at e)
      | inr s ↦ cc (rw (s, new_route) at e)
    ]

length-take : (n : ℕ) (s : Bytes) → n ≤ length s → length (take n s) ≡ n
length-take zero s h = refl
length-take (suc n) [] h = elim h [ ]
length-take (suc n) (c ∷ s) h = ap suc (length-take n s (omega arith))

-- A shorter beginning of the target is not the route's.
take_differs :
    (n : ℕ) (s uri : Bytes) → n < length uri → n ≤ length s → bytes_eq (take n s) uri ≡ false
take_differs n s uri h k = elim (Bool-cases (bytes_eq (take n s) uri)) [
  | inl e ↦ absurd (omega (arith, ap length (eq_of_bytes_eq (take n s) uri e), length-take n s k))
  | inr e ↦ e
]

-- The search stops at the end of the route's own part, if that does not end in a slash.
scan_loop_lem :
    (target uri : Bytes) (n it p : ℕ)
    → length uri ≡ p
    → take p target ≡ uri
    → get_or target p 0 ≡ b'/'
    → get_or target (p - 1) 0 ≢ b'/'
    → p < length target
    → it ≤ p
    → p - it < n
    → scan_loop target uri n it ≡ some (p + 1)
unfolding scan_loop
scan_loop_lem target uri zero it p l t s e k a b = elim b [ ]
scan_loop_lem target uri (suc n) it p l t s e k a b =
    let inside : ltb it (length target) ≡ true = ground arith in
    elim (Bool-cases (it == p)) [
      | inl here ↦
          let at_end : it ≡ p = ground arith in
          rw (at_end) (ground (arith, ap (λ u. bytes_eq u uri) t, bytes_eq_refl uri))
      | inr before ↦ elim (Bool-cases (get_or target it 0 == b'/')) [
        | inl slash ↦
            let slash_at : get_or target it 0 ≡ b'/' = ground arith in
            let below : it < p = ground arith in
            let not_last : it ≢ p - 1 =
              λ q. e (ap (λ (j : ℕ). get_or target j 0) (sym q) ∙ slash_at) in
            rw (inside, slash, take_differs it target uri (omega arith) (omega arith))
              (scan_loop_lem target uri n (it + 2) p l t s e k (omega arith) (omega arith))
        | inr plain ↦
            let below : it < p = ground arith in
            rw (inside, plain)
              (scan_loop_lem target uri n (it + 1) p l t s e k (omega arith) (omega arith))
      ]
    ]

parameter_value-Lacks : (s : Bytes) → Lacks b'/' s → parameter_value s ≡ s
unfolding parameter_value
parameter_value-Lacks [] h = refl
parameter_value-Lacks (c ∷ s) h = ground (arith, parameter_value-Lacks s h.1)

pub starts_length : (s : Bytes) → starts_with s (codes "/") ≡ true → 0 < length s
unfolding starts_with
starts_length [] h = cc
starts_length (c ∷ s) h = omega arith

pub starts_with-append :
    (s t : Bytes) → starts_with s (codes "/") ≡ true → starts_with (s ++ t) (codes "/") ≡ true
unfolding starts_with
starts_with-append [] t h = cc
starts_with-append (c ∷ s) t h = ground arith

longer_differs : (s t : Bytes) → length t < length s → bytes_eq s t ≡ false
longer_differs s t h = elim (Bool-cases (bytes_eq s t)) [
  | inl e ↦ absurd (omega (arith, ap length (eq_of_bytes_eq s t e)))
  | inr e ↦ e
]

method_eq_refl : (m : HttpMethod) → method_eq m m ≡ true
unfolding method_eq
method_eq_refl HttpMethod.unknown = refl
method_eq_refl HttpMethod.post = refl
method_eq_refl HttpMethod.get = refl
method_eq_refl HttpMethod.delete_ = refl
method_eq_refl HttpMethod.options = refl
method_eq_refl HttpMethod.patch = refl

-- A route with one binding, at the end of its path.
abbrev pub bound_route : HttpMethod → Bytes → Bytes → Bytes → ℕ → Route
bound_route m prefix name value pos = record {
  path = prefix ++ (b'/' ∷ b':' ∷ name);
  uri_target = prefix;
  method = m;
  path_parameters = record { name = name; value = value; bind_pos = pos } ∷ [];
}

replace_name_last :
    (prefix name value : Bytes)
    → find name (prefix ++ (b'/' ∷ b':' ∷ name)) ≡ some (length prefix + 2)
    → replace_name (prefix ++ (b'/' ∷ b':' ∷ name)) name value ≡ some (prefix ++ (b'/' ∷ value))
unfolding replace_name
replace_name_last prefix name value h =
    let at_key : length prefix + 2 ≡ suc (suc (length prefix)) = omega arith in
    let path = prefix ++ (b'/' ∷ b':' ∷ name) in
    let ends : length path ≤ suc (suc (length prefix)) + length name =
      omega (arith, length-append {0} prefix (b'/' ∷ b':' ∷ name)) in
    rw
      (
        h ∙ ap some at_key,
        replace_name,
        take_behind prefix (b':' ∷ name) b'/',
        drop_all _ path ends,
        append-nil,
      )
      (ap some (append_assoc prefix (b'/' ∷ []) value))

-- A target that is the route's own part, a slash and a value without a slash is matched, and the
-- value is bound to the route's parameter, whatever the parameter held. The route's part begins
-- with a slash and does not end in one, and the parameter's name does not stand earlier in the
-- path, where it would be replaced instead.
pub bound_route_match :
    (m : HttpMethod) (prefix name old value : Bytes) (pos : ℕ)
    → starts_with prefix (codes "/") ≡ true
    → get_or prefix (length prefix - 1) 0 ≢ b'/'
    → find name (prefix ++ (b'/' ∷ b':' ∷ name)) ≡ some (length prefix + 2)
    → Lacks b'/' value
    → is_match_with_target_request (bound_route m prefix name old pos) (prefix ++ (b'/' ∷ value)) m
      ≡ answered true (bound_route m prefix name value pos)
unfolding is_match_with_target_request match_bindings bind_values
bound_route_match m prefix name old value pos rooted unclosed first plain =
    let p = length prefix in
    let target = prefix ++ (b'/' ∷ value) in
    let size : length target ≡ p + suc (length value) = length-append prefix (b'/' ∷ value) in
    let some_prefix : 0 < p = starts_length prefix rooted in
    let other : bytes_eq target prefix ≡ false =
      longer_differs target prefix (omega (arith, size)) in
    let begins : starts_with target (codes "/") ≡ true =
      starts_with-append prefix (b'/' ∷ value) rooted in
    let found : scan_loop target prefix (length target) 0 ≡ some (p + 1) =
      scan_loop_lem target prefix (length target) 0 p refl
        (take-length_append prefix (b'/' ∷ value)) (get_or-append_right prefix value b'/')
        (λ e. unclosed (sym (get_or-append_left prefix (b'/' ∷ value) (p - 1) (omega arith)) ∙ e))
        (omega (arith, size)) (omega arith) (omega (arith, size)) in
    let rest : drop (p + 1) target ≡ value =
      let step : p + 1 ≡ suc p = omega arith in rw (step, drop_behind prefix value b'/') in
    rw (
      begins,
      method_eq_refl m,
      other,
      found,
      match_bindings,
      rest,
      parameter_value-Lacks value plain,
      replace_name_last prefix name value first,
      rest,
      parameter_value-Lacks value plain,
      bytes_eq_refl target,
    )
