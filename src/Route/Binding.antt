-- ===== src/Route/Binding.antt =====
-- The route that the constructor makes of a path with a binding at its end.
use webcrown.Base.{
  get_or-append, take-length, ℕ, zero, suc, ◌+◌, ◌-◌, ◌≤◌, ◌<◌, ◌≡◌, ◌≢◌, refl, sym, ap, ◌∙◌, [],
  ◌∷◌, ◌++◌, Bytes, codes, none, some, true, false, arith, ltb, ◌==◌, length, length-append, get_or,
  take, drop, drop_add, Bool-cases, inl, inr, take-length_append, drop-length_append,
}
use webcrown.StringUtils.{starts_with}
use webcrown.StringUtils.Laws.{Lacks}
use webcrown.Http.Method.{HttpMethod}
use webcrown.Route.{
  substring, find_binding, find_slash, extract_next_bind_key, bind_loop, new_route,
}
use webcrown.Route.Matching.{bound_route, starts_length, starts_with-append}

Lacks-get_or : (c : ℕ) (s : Bytes) (i : ℕ) → 0 ≢ c → Lacks c s → get_or s i 0 ≢ c
Lacks-get_or c [] i z h = z
Lacks-get_or c (x ∷ s) zero z h = h.0
Lacks-get_or c (x ∷ s) (suc i) z h = Lacks-get_or c s i z h.1

Lacks-get_or_append :
    (c : ℕ) (s t : Bytes) (i : ℕ)
    → Lacks c s
    → get_or t 0 0 ≢ c
    → i ≤ length s
    → get_or (s ++ t) i 0 ≢ c
Lacks-get_or_append c [] t zero h k le = k
Lacks-get_or_append c [] t (suc i) h k le = elim le [ ]
Lacks-get_or_append c (x ∷ s) t zero h k le = h.0
Lacks-get_or_append c (x ∷ s) t (suc i) h k le = Lacks-get_or_append c s t i h.1 k (omega arith)

-- Behind the end of the path the loop over the bindings stops.
bind_loop_end : (path : Bytes) (n it : ℕ) → length path ≤ it → bind_loop path n it ≡ []
unfolding bind_loop
bind_loop_end path zero it le = refl
bind_loop_end path (suc n) it le =
    let past : ltb it (length path) ≡ false = ground arith in rw past refl

module _ (prefix name : Bytes) (plain : Lacks b':' prefix) (open_name : Lacks b'/' name) where
  abbrev path : Bytes
  path = prefix ++ (b'/' ∷ b':' ∷ name)

  at_binding : (get_or path (length prefix) 0 ≡ b'/') × (get_or path (length prefix + 1) 0 ≡ b':')
  at_binding =
      let e : length prefix + 0 ≡ length prefix = omega arith in
      (
        ap (λ (i : ℕ). get_or path i 0) (sym e) ∙ get_or-append prefix (b'/' ∷ b':' ∷ name) 0,
        get_or-append prefix (b'/' ∷ b':' ∷ name) 1,
      )

  find_binding_first :
      (n it : ℕ)
      → it ≤ length prefix
      → length prefix < it + n
      → find_binding path n it ≡ some (length prefix)
  unfolding find_binding
  find_binding_first zero it le lt = absurd (omega arith)
  find_binding_first (suc n) it le lt = elim (Bool-cases (it == length prefix)) [
    | inl here ↦
        let e : it ≡ length prefix = ground arith in
        rw (e, find_binding, at_binding.0, at_binding.1) refl
    | inr before ↦
        let lt' : it < length prefix = ground arith in
        let other : get_or path (it + 1) 0 ≢ b':' =
          Lacks-get_or_append b':' prefix (b'/' ∷ b':' ∷ name) (it + 1) plain (omega arith)
            (omega arith) in
        ground (arith, find_binding_first n (suc it) lt' (omega arith))
  ]

  -- Behind the binding's slash there is no other.
  no_slash : (i : ℕ) → length prefix < i → get_or path i 0 ≢ b'/'
  no_slash i lt =
      let k = i - suc (length prefix) in
      let e : i ≡ length prefix + suc k = omega arith in
      let same : get_or path i 0 ≡ get_or (b':' ∷ name) k 0 =
        ap (λ (j : ℕ). get_or path j 0) e ∙ get_or-append prefix (b'/' ∷ b':' ∷ name) (suc k) in
      rw same (Lacks-get_or b'/' (b':' ∷ name) k (omega arith) (omega arith, open_name))

  no_binding_behind : (n it : ℕ) → length prefix < it → find_binding path n it ≡ none
  unfolding find_binding
  no_binding_behind zero it lt = refl
  no_binding_behind (suc n) it lt =
      ground (arith, no_slash it lt, no_binding_behind n (suc it) (omega arith))

  no_slash_behind : (n it : ℕ) → length prefix < it → find_slash path n it ≡ none
  unfolding find_slash
  no_slash_behind zero it lt = refl
  no_slash_behind (suc n) it lt =
      ground (arith, no_slash it lt, no_slash_behind n (suc it) (omega arith))

  key_text : take (length name) (drop (length prefix + 1 + 1) path) ≡ name
  key_text =
      let two : length prefix + 1 + 1 ≡ length prefix + 2 = omega arith in
      rw (two, ← drop_add (length prefix) 2 path, drop-length_append prefix (b'/' ∷ b':' ∷ name))
        (take-length name)

  last_key : extract_next_bind_key path (length prefix + 1) ≡ (name, length path)
  unfolding extract_next_bind_key substring
  last_key =
      let size = length-append prefix (b'/' ∷ b':' ∷ name) in
      let begin = length prefix + 1 + 1 in
      let last = length path in
      let far : last - begin ≡ length name = omega (arith, size) in
      let unclosed : (get_or path (last - 1) 0 == b'/') ≡ false =
        ground (arith, no_slash (last - 1) (omega (arith, size))) in
      rw
        (
          extract_next_bind_key,
          no_binding_behind (last - begin) begin (omega arith),
          unclosed,
          no_slash_behind (last - begin) begin (omega arith),
          far,
          key_text,
        )
        refl

  bound_at :
      (n : ℕ)
      → bind_loop path (suc n) (length prefix + 1)
        ≡ record { name = name; value = []; bind_pos = length prefix + 1 } ∷ []
  unfolding bind_loop
  bound_at n =
      let size = length-append prefix (b'/' ∷ b':' ∷ name) in
      let inside : ltb (length prefix + 1) (length path) ≡ true = ground (arith, size) in
      let ends = bind_loop_end path n (length path + 1) (omega arith) in
      rw (inside, bind_loop, at_binding.1, last_key, ends) refl

-- A path of a part without a colon, that begins with a slash, and of a binding whose name has no
-- slash makes the route with that part and that one binding.
pub new_route_bound :
    (m : HttpMethod) (prefix name : Bytes)
    → starts_with prefix (codes "/") ≡ true
    → Lacks b':' prefix
    → Lacks b'/' name
    → new_route m (prefix ++ (b'/' ∷ b':' ∷ name))
      ≡ some (bound_route m prefix name [] (length prefix + 1))
unfolding new_route
new_route_bound m prefix name rooted plain open_name =
    let full = prefix ++ (b'/' ∷ b':' ∷ name) in
    let size = length-append prefix (b'/' ∷ b':' ∷ name) in
    let starts = starts_length prefix rooted in
    let found =
      find_binding_first prefix name plain open_name (length full - 1) 1 starts
        (omega (arith, size)) in
    let rounds : length full ≡ suc (length prefix + suc (length name)) = omega (arith, size) in
    rw
      (
        starts_with-append prefix (b'/' ∷ b':' ∷ name) rooted,
        found,
        new_route,
        take-length_append prefix (b'/' ∷ b':' ∷ name),
        rounds,
        bound_at prefix name plain open_name (length prefix + suc (length name)),
      )
      refl
