-- ===== src/Server/Registry/Laws.antt =====
-- The registry of sessions over the life of a server, and what its handlers leave undone.
use webcrown.Base.{
  ℕ, ◌+◌, ◌^◌, ◌%◌, ◌<◌, ◌≤◌, ◌≡◌, refl, List, [], ◌∷◌, Bool, true, false, arith, ◌==◌, ==_iff,
  if◌then◌else◌, Bool-cases, ==_refl, not, ap, ◌∙◌, inl, inr,
}
use webcrown.Server.Session.{WebSession, connect, try_receive}
use webcrown.Server.Closing.{IsClosed, leaving, disconnect-IsClosed}
use webcrown.Server.Registry.{
  WebServer, ServerActed, async_accept, new_server, registered, erase, register_session,
  unregister_session, accept_handler, accept, async_accept_handler, accepted_session,
  disconnect_session, Endpoint, start_handler, start_server, stop,
}

-- A server may take one more session before the numbers of its sessions wrap around.
abbrev pub HasRoom : WebServer → Type 0
HasRoom w = w.last_session_id + 1 < 2 ^ 64

-- The life of a server: its handlers, and the ends of its sessions, in any order, with fewer than
-- `2 ^ 64` sessions.
pub data Life : WebServer → Type 0 where
  made : Life new_server
  began : (w : WebServer) (e : Endpoint) → HasRoom w → Life w → Life (start_server e w).server
  accepted :
      (w : WebServer) (fails : Bool)
      → HasRoom w
      → Life w
      → Life (async_accept_handler fails w).server
  left : (w : WebServer) (id : ℕ) → Life w → Life (unregister_session id w)
  stopped : (w : WebServer) → Life w → Life (stop w).server

-- Every key is at most a number.
unfoldable pub AllUpTo : ℕ → List ℕ → Type 0
AllUpTo n [] = Unit {0}
AllUpTo n (x ∷ xs) = (x ≤ n) × AllUpTo n xs

AllUpTo-if :
    (n : ℕ) (b : Bool) (xs ys : List ℕ)
    → AllUpTo n xs
    → AllUpTo n ys
    → AllUpTo n (if b then xs else ys)
AllUpTo-if n true xs ys h k = h
AllUpTo-if n false xs ys h k = k

AllUpTo-erase : (n id : ℕ) (xs : List ℕ) → AllUpTo n xs → AllUpTo n (erase id xs)
unfolding AllUpTo erase
AllUpTo-erase n id [] h = tt
AllUpTo-erase n id (x ∷ xs) (h, hs) =
    let r = AllUpTo-erase n id xs hs in AllUpTo-if n (x == id) _ _ r (h, r)

registered-erase :
    (id other : ℕ) (xs : List ℕ)
    → registered other (erase id xs) ≡ (if other == id then false else registered other xs)
unfolding registered erase
registered-erase id other [] = ground arith
registered-erase id other (x ∷ xs) = ground (arith, registered-erase id other xs)

registered-AllUpTo : (n id : ℕ) (xs : List ℕ) → AllUpTo n xs → n < id → registered id xs ≡ false
unfolding AllUpTo registered
registered-AllUpTo n id [] h lt = refl
registered-AllUpTo n id (x ∷ xs) (h, hs) lt =
    let r = registered-AllUpTo n id xs hs lt in ground arith

AllUpTo-mono : (m n : ℕ) (xs : List ℕ) → m ≤ n → AllUpTo m xs → AllUpTo n xs
unfolding AllUpTo
AllUpTo-mono m n [] le h = tt
AllUpTo-mono m n (x ∷ xs) le (h, hs) = (omega arith, AllUpTo-mono m n xs le hs)

IsBounded : WebServer → Type 0
IsBounded w = AllUpTo w.last_session_id w.sessions

register_session-IsBounded :
    (w : WebServer) (id : ℕ)
    → w.last_session_id < id
    → IsBounded w
    → IsBounded (register_session id (record w { last_session_id = id }))
      × ((register_session id (record w { last_session_id = id })).sessions ≡ id ∷ w.sessions)
unfolding IsBounded register_session AllUpTo
register_session-IsBounded w id lt h =
    let r = registered-AllUpTo w.last_session_id id w.sessions h lt in
    let le = AllUpTo-mono w.last_session_id id w.sessions (omega arith) h in
    (rw r (omega arith, le), rw r)

-- The server with one more session.
abbrev one_more : WebServer → WebServer
one_more w =
    let id = w.last_session_id + 1 in register_session id (record w { last_session_id = id })

accept_on :
    (w : WebServer)
    → HasRoom w
    → w.started ≡ true
    → accept w
      ≡ record { server = one_more w; commands = async_accept (w.last_session_id + 1) ∷ [] }
unfolding accept accept_handler
accept_on w lt on =
    let id : (w.last_session_id + 1) % 2 ^ 64 ≡ w.last_session_id + 1 = omega arith in rw (on, id)

accept_off : (w : WebServer) → w.started ≡ false → (accept w).server ≡ w
unfolding accept
accept_off w off = rw off

accept-IsBounded : (w : WebServer) → HasRoom w → IsBounded w → IsBounded (accept w).server
accept-IsBounded w lt h = elim (Bool-cases w.started) [
  | inl on ↦ rw (accept_on w lt on) (register_session-IsBounded w _ (omega arith) h).0
  | inr off ↦ rw (accept_off w off) h
]

IsBounded-if :
    (b : Bool) (x y : ServerActed)
    → IsBounded x.server
    → IsBounded y.server
    → IsBounded (if b then x else y).server
IsBounded-if true x y h k = h
IsBounded-if false x y h k = k

start_server-IsBounded :
    (e : Endpoint) (w : WebServer) → HasRoom w → IsBounded w → IsBounded (start_server e w).server
unfolding start_server start_handler IsBounded
start_server-IsBounded e w lt h = IsBounded-if e.bad_address _ _ h (
    IsBounded-if e.bad_open _ _ h
      (IsBounded-if e.bad_bind _ _ h (accept-IsBounded (record w { started = true }) lt h)))

unregister_session-IsBounded :
    (w : WebServer) (id : ℕ) → IsBounded w → IsBounded (unregister_session id w)
unfolding unregister_session IsBounded
unregister_session-IsBounded w id h = elim (Bool-cases (registered id w.sessions)) [
  | inl r ↦ rw r (AllUpTo-erase w.last_session_id id w.sessions h)
  | inr r ↦ rw r h
]

Life-IsBounded : (w : WebServer) → Life w → IsBounded w
unfolding new_server async_accept_handler stop AllUpTo IsBounded
Life-IsBounded _ made = tt
Life-IsBounded _ (began w e lt l) = start_server-IsBounded e w lt (Life-IsBounded w l)
Life-IsBounded _ (accepted w fails lt l) =
    let h = Life-IsBounded w l in IsBounded-if fails _ _ h (accept-IsBounded w lt h)
Life-IsBounded _ (left w id l) = unregister_session-IsBounded w id (Life-IsBounded w l)
Life-IsBounded _ (stopped w l) = let h = Life-IsBounded w l in IsBounded-if (not w.started) _ _ h h

-- At any time in the life of a server that is started, with fewer than `2 ^ 64` sessions so far,
-- `accept` registers a session under a number that no registered session has, and waits for its
-- connection under that number.
pub accept_fresh :
    (w : WebServer)
    → Life w
    → HasRoom w
    → w.started ≡ true
    → (registered (w.last_session_id + 1) w.sessions ≡ false)
      × ((accept w).server.sessions ≡ (w.last_session_id + 1) ∷ w.sessions)
      × ((accept w).commands ≡ async_accept (w.last_session_id + 1) ∷ [])
unfolding AllUpTo IsBounded
accept_fresh w l lt on =
    let h = Life-IsBounded w l in
    (
      registered-AllUpTo w.last_session_id _ w.sessions h (omega arith),
      rw (accept_on w lt on) (register_session-IsBounded w _ (omega arith) h).1,
      rw (accept_on w lt on),
    )

absent :
    (id other : ℕ) (xs : List ℕ)
    → registered id xs ≡ false
    → registered other xs ≡ (if other == id then false else registered other xs)
absent id other xs r = elim (Bool-cases (other == id)) [
  | inl e ↦ let e' = (==_iff other id).0 e in rw (e', ==_refl) r
  | inr e ↦ rw e
]

-- Taking a session out of the registry takes out its number, and no other.
pub unregister_session_lem :
    (w : WebServer) (id other : ℕ)
    → registered other (unregister_session id w).sessions
      ≡ (if other == id then false else registered other w.sessions)
unfolding unregister_session
unregister_session_lem w id other = elim (Bool-cases (registered id w.sessions)) [
  | inl r ↦ rw r (registered-erase id other w.sessions)
  | inr r ↦ rw r (absent id other w.sessions r)
]

try_receive-connected : (s : WebSession) → (try_receive s).session.connected ≡ s.connected
unfolding try_receive
try_receive-connected s = ground arith

try_receive-id : (s : WebSession) → (try_receive s).session.session_id ≡ s.session_id
unfolding try_receive
try_receive-id s = ground arith

-- However the wait of 15 seconds ends, by its time or by its timer's destruction, its handler
-- closes a session that was accepted and has received nothing yet, where the socket closes without
-- an error: the session is disconnected and taken out of the registry.
pub disconnect_session-IsClosed :
    (aborted : Bool) (size : ℕ) (s : WebSession)
    → IsClosed (disconnect_session true aborted (accepted_session size s).session).session
      × ((disconnect_session true aborted (accepted_session size s).session).commands ≡ leaving s)
unfolding disconnect_session accepted_session connect
disconnect_session-IsClosed aborted size s =
    let t : WebSession = record s {
      bytes_pending = 0;
      bytes_sending = 0;
      bytes_received = 0;
      bytes_sent = 0;
      receive_buffer_size = size;
      connected = true;
    } in
    let on = try_receive-connected t in
    let (closed, gone) = disconnect-IsClosed (try_receive t).session on in
    rw on (closed, gone ∙ ap (λ (i : ℕ). leaving (record s { session_id = i })) (try_receive-id t))
