-- ===== src/Server/Registry/Refinement.antt =====
-- The server as a set of session numbers: what it promises whatever happens to it, in any order.
use webcrown.Base.{
  ℕ, ◌+◌, ◌^◌, ◌%◌, ◌≡◌, refl, ap, ◌∙◌, List, [], ◌∷◌, Bool, true, false, arith, ◌==◌, ◌||◌,
  if◌then◌else◌, Bool-cases, not, inl, inr,
}
use webcrown.Server.Receive.{Middleware}
use webcrown.Server.Registry.{
  WebServer, registered, register_session, unregister_session, add_middleware, accept_handler,
  accept, async_accept_handler, Endpoint, start_handler, start_server, stop,
}
use webcrown.Server.Registry.Laws.{unregister_session_lem}

-- What can happen to a server.
pub data ServerEvent : Type 0 where
  starts : Endpoint → ServerEvent
  accepted : Bool → ServerEvent
  ended : ℕ → ServerEvent
  stopped : ServerEvent
  extended : Middleware → ServerEvent

abbrev pub handle : ServerEvent → WebServer → WebServer
handle (starts e) w = (start_server e w).server
handle (accepted fails) w = (async_accept_handler fails w).server
handle (ended id) w = unregister_session id w
handle stopped w = (stop w).server
handle (extended m) w = add_middleware m w

abbrev pub handle_all : List ServerEvent → WebServer → WebServer
handle_all [] w = w
handle_all (e ∷ es) w = handle_all es (handle e w)

-- The abstract server: whether it is on, the last number, and the numbers of its sessions.
pub record Sessions : Type 0 where
  pub is_on : Bool
  pub last_id : ℕ
  pub is_open : ℕ → Bool

abbrev pub view : WebServer → Sessions
view w = record {
  is_on = w.started;
  last_id = w.last_session_id;
  is_open = λ id. registered id w.sessions;
}

-- The next number joins the set.
abbrev pub open_next : Sessions → Sessions
open_next s =
    let id = (s.last_id + 1) % 2 ^ 64 in
    record s { last_id = id; is_open = λ other. if id == other then true else s.is_open other }

abbrev pub refuses : Endpoint → Bool
refuses e = e.bad_address || (e.bad_open || e.bad_bind)

abbrev pub handle_abstract : ServerEvent → Sessions → Sessions
handle_abstract (starts e) s =
    let on = record s { is_on = true } in if refuses e then on else open_next on
handle_abstract (accepted fails) s = if fails || not s.is_on then s else open_next s
handle_abstract (ended id) s = record s {
  is_open = λ other. if other == id then false else s.is_open other;
}
handle_abstract stopped s = record s { is_on = false }
handle_abstract (extended m) s = s

abbrev pub handle_all_abstract : List ServerEvent → Sessions → Sessions
handle_all_abstract [] s = s
handle_all_abstract (e ∷ es) s = handle_all_abstract es (handle_abstract e s)

view_of :
    (w : WebServer) (s : Sessions)
    → w.started ≡ s.is_on
    → w.last_session_id ≡ s.last_id
    → ((other : ℕ) → registered other w.sessions ≡ s.is_open other)
    → view w ≡ s
view_of w s on last opened =
    λ i. record { is_on = on i; last_id = last i; is_open = λ other. opened other i }

registered-register_session :
    (id other : ℕ) (w : WebServer)
    → registered other (register_session id w).sessions
      ≡ (if id == other then true else registered other w.sessions)
unfolding register_session registered
registered-register_session id other w = elim (Bool-cases (registered id w.sessions)) [
  | inr absent ↦ rw (register_session, absent) refl
  | inl there ↦ elim (Bool-cases (id == other)) [
    | inl same ↦
        let e : id ≡ other = ground arith in
        let there' : registered other w.sessions ≡ true = rw (← e) there in
        rw (register_session, there, same) there'
    | inr differs ↦ rw (register_session, there, differs) refl
  ]
]

view-register_session :
    (id : ℕ) (w : WebServer)
    → view (register_session id (record w { last_session_id = id })) ≡ record {
      is_on = w.started;
      last_id = id;
      is_open = λ other. if id == other then true else registered other w.sessions;
    }
unfolding register_session
view-register_session id w =
    let w' = record w { last_session_id = id } in
    view_of (register_session id w') _ (ground arith) (ground arith)
      (λ other. registered-register_session id other w')

view-accept :
    (w : WebServer)
    → view (accept w).server ≡ (if not w.started then view w else open_next (view w))
unfolding accept accept_handler
view-accept w = elim (Bool-cases w.started) [
  | inl on ↦
      rw (accept, on)
        (view-register_session ((w.last_session_id + 1) % 2 ^ 64) (record w { started = true }))
  | inr off ↦ rw (accept, off) refl
]

view-starts :
    (e : Endpoint) (w : WebServer)
    → view (start_server e w).server ≡ handle_abstract (starts e) (view w)
unfolding start_server start_handler
view-starts e w = elim (Bool-cases e.bad_address) [
  | inl a ↦ rw (start_server, a) refl
  | inr a ↦ elim (Bool-cases e.bad_open) [
    | inl b ↦ rw (start_server, a, b) refl
    | inr b ↦ elim (Bool-cases e.bad_bind) [
      | inl c ↦ rw (start_server, a, b, c) refl
      | inr c ↦ rw (start_server, a, b, c) (view-accept (record w { started = true }))
    ]
  ]
]

view-unregister_session :
    (id : ℕ) (w : WebServer) → view (unregister_session id w) ≡ handle_abstract (ended id) (view w)
unfolding unregister_session
view-unregister_session id w =
    view_of (unregister_session id w) _ (ground arith) (ground arith)
      (λ other. unregister_session_lem w id other)

view-accepted :
    (fails : Bool) (w : WebServer)
    → view (async_accept_handler fails w).server ≡ handle_abstract (accepted fails) (view w)
unfolding async_accept_handler
view-accepted true w = refl
view-accepted false w = view-accept w

view-stop : (w : WebServer) → view (stop w).server ≡ handle_abstract stopped (view w)
unfolding stop
view-stop w = view_of (stop w).server _ (ground arith) (ground arith) (λ other. ground arith)

view-handle : (e : ServerEvent) (w : WebServer) → view (handle e w) ≡ handle_abstract e (view w)
unfolding add_middleware
view-handle (starts e) w = view-starts e w
view-handle (accepted fails) w = view-accepted fails w
view-handle (ended id) w = view-unregister_session id w
view-handle stopped w = view-stop w
view-handle (extended m) w = refl

-- Whatever happens to a server, in whatever order, it is the set of session numbers that the
-- abstract server has after the same events: a start and a connection without an error add the next
-- number, the end of a session takes out its number and no other, a stop and a middleware leave the
-- set alone.
pub view-handle_all :
    (es : List ServerEvent) (w : WebServer)
    → view (handle_all es w) ≡ handle_all_abstract es (view w)
view-handle_all [] w = refl
view-handle_all (e ∷ es) w =
    view-handle_all es (handle e w) ∙ ap (handle_all_abstract es) (view-handle e w)
