-- ===== src/Server/Connection/Laws.antt =====
-- A session of include/webcrown/server/impl/webserver.cpp over its whole life: its place in the
-- registry, and the reads and writes that are outstanding.
use webcrown.Base.{
  ℕ, suc, ◌≤◌, ◌≡◌, refl, ◌∙◌, sym, ap, subst, Bool, true, false, if◌then◌else◌, arith,
}
use webcrown.Server.Session.{WebSession, connect}
use webcrown.Server.Registry.{registered}
use webcrown.Server.Connection.World.{Outside}
use webcrown.Server.Connection.{
  Connection, afterwards, connected_by, handle_read, handle_write, read_over, write_over, Reach,
  begun, read, wrote, timed, sent, dropped, elsewhere,
}
use webcrown.Server.Connection.Keeps.{
  Sound, attached, detached, SoundAfter, one, read_at_most, try_receive-Sound, disconnect-Sound,
}
use webcrown.Server.Connection.Sends.{send_async-Sound}
use webcrown.Server.Connection.Handlers.{
  SoundHandled, async_receive_handler-Sound, async_write_handler-Sound, disconnect_session-Sound,
}

-- What a session is like before it is connected: no call is outstanding, and it is in the registry.
pub record IsNew (s : WebSession) (w : Outside) : Type 0 where
  pub no_receive : s.receiving ≡ false
  pub no_send : s.sending ≡ false
  pub no_reading : w.reading ≡ 0
  pub no_writing : w.writing ≡ 0
  pub no_departure : w.departures ≡ 0
  pub is_registered : registered s.session_id w.server.sessions ≡ true

connect-Sound :
    (size : ℕ) (s : WebSession) (w : Outside)
    → IsNew s w
    → SoundAfter s.session_id w (connect size s)
unfolding connect
connect-Sound size s w h = try_receive-Sound s.session_id _ w (
    attached refl refl h.is_registered h.no_departure (h.no_reading ∙ ap one (sym h.no_receive))
      (h.no_writing ∙ ap one (sym h.no_send)))

one_if : (b : Bool) → one b ≡ (if b then 1 else 0)
one_if true = refl
one_if false = refl

one_left : (b : Bool) (n : ℕ) → suc n ≡ one b → n ≡ 0
one_left true n e = omega arith
one_left false n e = absurd (omega arith)

read_over-Sound :
    (id n : ℕ) (s : WebSession) (w : Outside)
    → w.reading ≡ suc n
    → Sound id s w
    → Sound id (record s { receiving = false }) (read_over n w)
read_over-Sound id n s w e (attached i c r d x y) =
    attached i c r d (one_left s.receiving n (sym e ∙ x)) y
read_over-Sound id n s w e (detached i c r d x) = detached i c r d (omega arith)

write_over-Sound :
    (id n : ℕ) (s : WebSession) (w : Outside)
    → w.writing ≡ suc n
    → Sound id s w
    → Sound id (record s { sending = false }) (write_over n w)
write_over-Sound id n s w e (attached i c r d x y) =
    attached i c r d x (one_left s.sending n (sym e ∙ y))
write_over-Sound id n s w e (detached i c r d x) = detached i c r d x

SoundConnection : ℕ → Connection → Type 0
SoundConnection id c = Sound id c.session c.world

elsewhere-Sound :
    (id : ℕ) (s : WebSession) (w v : Outside)
    → registered id v.server.sessions ≡ registered id w.server.sessions
    → v.departures ≡ w.departures
    → v.reading ≡ w.reading
    → v.writing ≡ w.writing
    → Sound id s w
    → Sound id s v
elsewhere-Sound id s w v e f g h (attached i c r d x y) =
    attached i c (e ∙ r) (f ∙ d) (g ∙ x) (h ∙ y)
elsewhere-Sound id s w v e f g h (detached i c r d x) = detached i c (e ∙ r) (f ∙ d) (omega arith)

Reach-Sound :
    (size : ℕ) (s : WebSession) (w : Outside) (c : Connection)
    → IsNew s w
    → Reach size s w c
    → SoundConnection s.session_id c
unfolding SoundConnection afterwards connected_by handle_read handle_write SoundHandled
Reach-Sound size s w c h begun = connect-Sound size s w h
Reach-Sound size s w _ h (read c n closes walk fails mem bytes p a e f r) =
    let k = read_over-Sound s.session_id n _ _ e (Reach-Sound size s w c h r) in
    subst (SoundHandled s.session_id (read_over n c.world)) f (
      async_receive_handler-Sound closes walk c.world.server.middlewares s.session_id fails c.parser
        mem bytes c.session (read_over n c.world) k)
Reach-Sound size s w _ h (wrote c n closes fails bytes e r) =
    async_write_handler-Sound s.session_id closes fails bytes c.session _
      (write_over-Sound s.session_id n _ _ e (Reach-Sound size s w c h r))
Reach-Sound size s w _ h (timed c closes aborted r) =
    disconnect_session-Sound s.session_id closes aborted c.session _ (Reach-Sound size s w c h r)
Reach-Sound size s w _ h (sent c closes text r) =
    send_async-Sound s.session_id closes text c.session _ (Reach-Sound size s w c h r)
Reach-Sound size s w _ h (dropped c closes r) =
    disconnect-Sound s.session_id closes c.session _ (Reach-Sound size s w c h r)
Reach-Sound size s w _ h (elsewhere c server e r) =
    elsewhere-Sound s.session_id c.session c.world _ e refl refl refl (Reach-Sound size s w c h r)

-- A session that is connected by the accept, with its number in the registry and no call
-- outstanding, over any order of its handlers and calls, with sockets that close without an error
-- or with one, and any changes of the server that leave its number as it is: it is in the registry exactly while it is connected, `unregister_session` has been
-- called once when it is not, and never before, and at most one read is outstanding.
pub registered_while_connected :
    (size : ℕ) (s : WebSession) (w : Outside) (c : Connection)
    → IsNew s w
    → Reach size s w c
    → (registered s.session_id c.world.server.sessions ≡ c.session.connected)
      × (c.world.departures ≡ (if c.session.connected then 0 else 1))
      × (c.world.reading ≤ 1)
unfolding SoundConnection
registered_while_connected size s w c h r = elim (Reach-Sound size s w c h r) [
  | attached i o q d x y ↦ (q ∙ sym o, rw (o, d) refl, read_at_most c.session.receiving _ x)
  | detached i o q d x ↦ (q ∙ sym o, rw (o, d) refl, x)
]

pub flags-outstanding :
    (size : ℕ) (s : WebSession) (w : Outside) (c : Connection)
    → IsNew s w
    → Reach size s w c
    → c.session.connected ≡ true
    → (c.world.reading ≡ (if c.session.receiving then 1 else 0))
      × (c.world.writing ≡ (if c.session.sending then 1 else 0))
unfolding SoundConnection
flags-outstanding size s w c h r k = elim (Reach-Sound size s w c h r) [
  | attached i o q d x y ↦ (x ∙ one_if c.session.receiving, y ∙ one_if c.session.sending)
  | detached i o q d x ↦ cc
]
