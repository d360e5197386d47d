-- ===== src/Server/Connection/Waiting.antt =====
-- A connected session of include/webcrown/server/impl/webserver.cpp always waits for a read.
use webcrown.Base.{
  ℕ, ◌<◌, ◌≡◌, ◌⊎◌, refl, ◌∙◌, subst, List, Bool, true, false, not, if◌then◌else◌, arith, inl, inr,
  Bool-cases, StringMap, Bytes, length, ◌==◌,
}
use webcrown.Parser.Memory.{Memory}
use webcrown.Parser.Defs.{Parser}
use webcrown.Server.Session.{
  WebSession, Acted, acted, and_then, connect, clear_buffers, try_receive, try_send, buffer_text,
  send_async, advance, async_write_handler, Command,
}
use webcrown.Server.Session.Laws.{waiting}
use webcrown.Server.Receive.{Middleware, Handled, handled, escaped, read_on, async_receive_handler}
use webcrown.Server.Registry.{disconnect_session}
use webcrown.Server.Connection.World.{Outside, obey, obey_all, obey_all-append}
use webcrown.Server.Connection.{
  Connection, afterwards, connected_by, handle_read, handle_write, read_over, write_over, Reach,
  begun, read, wrote, timed, sent, dropped, elsewhere,
}
use webcrown.Server.Connection.Keeps.{
  Sound, SoundAfter, one, Alike, begin_read, try_receive_busy, try_receive_on, try_receive_off,
  dropped_off, dropped_closing, dropped_failing, gone,
}
use webcrown.Server.Connection.Sends.{
  flushing-Alike, advance-Alike, begin_write, try_send_busy, try_send_idle,
}
use webcrown.Server.Connection.Keeps as Keeps
use webcrown.Server.Connection.Handlers.{enlarged}
use webcrown.Server.Connection.Laws.{IsNew, flags-outstanding}

-- A session that is disconnected, that has begun a read, or whose socket has reported an error.
pub data Awaits (s : WebSession) (w : Outside) : Type 0 where
  off : s.connected ≡ false → Awaits s w
  in_read : s.receiving ≡ true → Awaits s w
  reported : 0 < w.refusals → Awaits s w

abbrev AwaitsAfter : Outside → Acted → Type 0
AwaitsAfter w a = Awaits a.session (obey_all a.commands w)

Alike-Awaits : (s t : WebSession) (w : Outside) → Alike s t → Awaits t w → Awaits s w
Alike-Awaits s t w a (off e) = off (a.same_connected ∙ e)
Alike-Awaits s t w a (in_read e) = in_read (a.same_receiving ∙ e)
Alike-Awaits s t w a (reported lt) = reported lt

AwaitsAfter-equal : (w : Outside) {a b : Acted} → a ≡ b → AwaitsAfter w b → AwaitsAfter w a
AwaitsAfter-equal w {a} {b} e h = rw e h

AwaitsAfter-if :
    (w : Outside) (b : Bool) (a a' : Acted)
    → AwaitsAfter w a
    → AwaitsAfter w a'
    → AwaitsAfter w (if b then a else a')
AwaitsAfter-if w true a a' h k = h
AwaitsAfter-if w false a a' h k = k

AwaitsAfter-and_then :
    (cs : List Command) (a : Acted) (w : Outside)
    → AwaitsAfter (obey_all cs w) a
    → AwaitsAfter w (and_then cs a)
AwaitsAfter-and_then cs a w h = rw (obey_all-append cs a.commands w) h

-- A disconnection succeeds, or reports the error.
disconnect-Awaits :
    (closes : Bool) (s : WebSession) (w : Outside) → AwaitsAfter w (Keeps.dropped closes s)
unfolding obey obey_all clear_buffers
disconnect-Awaits true s w = elim (Bool-cases s.connected) [
  | inl c ↦ AwaitsAfter-equal w (dropped_closing s c) (off refl)
  | inr c ↦ AwaitsAfter-equal w (dropped_off true s c) (off c)
]
disconnect-Awaits false s w = elim (Bool-cases s.connected) [
  | inl c ↦ AwaitsAfter-equal w (dropped_failing s c) (reported (omega arith))
  | inr c ↦ AwaitsAfter-equal w (dropped_off false s c) (off c)
]

try_receive-Awaits : (s : WebSession) (w : Outside) → AwaitsAfter w (try_receive s)
unfolding begin_read
try_receive-Awaits s w = elim (Bool-cases s.receiving) [
  | inl b ↦ AwaitsAfter-equal w (try_receive_busy s b) (in_read b)
  | inr b ↦ elim (Bool-cases s.connected) [
    | inl c ↦ AwaitsAfter-equal w (try_receive_on s b c) (in_read refl)
    | inr c ↦ AwaitsAfter-equal w (try_receive_off s b c) (off c)
  ]
]

begin_write-Awaits : (s : WebSession) (w : Outside) → Awaits s w → AwaitsAfter w (begin_write s)
unfolding begin_write obey obey_all
begin_write-Awaits s w (off e) = off e
begin_write-Awaits s w (in_read e) = in_read e
begin_write-Awaits s w (reported lt) = reported lt

try_send-Awaits : (s : WebSession) (w : Outside) → Awaits s w → AwaitsAfter w (try_send s)
unfolding obey_all
try_send-Awaits s w h =
    let k = Alike-Awaits _ s w (flushing-Alike s) h in
    elim (Bool-cases s.sending) [
      | inl b ↦ AwaitsAfter-equal w (try_send_busy s b) h
      | inr b ↦
          AwaitsAfter-equal w (try_send_idle s b)
            (AwaitsAfter-if w _ _ _ k (begin_write-Awaits _ w k))
    ]

buffer_text-Awaits :
    (text : Bytes) (s : WebSession) (w : Outside) → Awaits s w → AwaitsAfter w (buffer_text text s)
unfolding buffer_text obey_all
buffer_text-Awaits text s w h =
    let k : Awaits (waiting text s) w =
      Alike-Awaits _ s w
        (record {
          same_id = refl;
          same_connected = refl;
          same_receiving = refl;
          same_sending = refl;
        })
        h in
    AwaitsAfter-if w _ _ _ (try_send-Awaits _ w k) k

send_async-Awaits :
    (closes : Bool) (text : Bytes) (s : WebSession) (w : Outside)
    → Awaits s w
    → AwaitsAfter w (acted (send_async closes text s).session (send_async closes text s).commands)
unfolding send_async
send_async-Awaits closes text s w h = elim (Bool-cases (length text == 0)) [
  | inl e ↦ rw e (disconnect-Awaits closes s w)
  | inr e ↦ rw e (buffer_text-Awaits text s w h)
]

async_write_handler-Awaits :
    (closes fails : Bool) (size : ℕ) (s : WebSession) (w : Outside)
    → Awaits (record s { sending = false }) w
    → AwaitsAfter w (async_write_handler closes fails size s)
unfolding async_write_handler obey_all
async_write_handler-Awaits closes fails size s w h =
    let t = advance size (record s { sending = false }) in
    let k : Awaits t w = Alike-Awaits t _ w (advance-Alike size _) h in
    AwaitsAfter-if w (size == 0) _ _ h
      (AwaitsAfter-if w fails _ _ (disconnect-Awaits closes t w) (try_send-Awaits t w k))

disconnect_session-Awaits :
    (closes aborted : Bool) (s : WebSession) (w : Outside)
    → Awaits s w
    → AwaitsAfter w (disconnect_session closes aborted s)
unfolding disconnect_session obey_all
disconnect_session-Awaits closes aborted s w h =
    AwaitsAfter-if w (not s.connected) _ _ h (disconnect-Awaits closes s w)

unfoldable AwaitsHandled : Outside → Handled → Type 0
AwaitsHandled w escaped = Unit {0}
AwaitsHandled w (handled p a) = AwaitsAfter w a

module _ (closes : Bool) (walk : StringMap → StringMap) (middlewares : List Middleware) where
  -- Whatever `on_receive` leaves, the session reads on or is over.
  read_on-Awaits :
      (size : ℕ) (r : Handled) (w : Outside)
      → AwaitsHandled w (read_on closes walk middlewares size r)
  unfolding read_on AwaitsHandled
  read_on-Awaits size escaped w = tt
  read_on-Awaits size (handled p a) w =
      let t = enlarged size a.session in
      elim (Bool-cases t.connected) [
        | inl c ↦
            rw (AwaitsHandled, c)
              (AwaitsAfter-and_then a.commands (try_receive t) w (try_receive-Awaits t _))
        | inr c ↦ rw (AwaitsHandled, c) (off c)
      ]

  async_receive_handler-Awaits :
      (fails : Bool) (p : Parser) (mem : Memory) (size : ℕ) (s : WebSession) (w : Outside)
      → AwaitsHandled w (async_receive_handler closes walk middlewares fails p mem size s)
  unfolding async_receive_handler AwaitsHandled
  async_receive_handler-Awaits true p mem size s w = disconnect-Awaits closes _ w
  async_receive_handler-Awaits false p mem size s w = elim (Bool-cases (size == 0)) [
    | inl e ↦ rw e (try_receive-Awaits _ w)
    | inr e ↦ rw e (read_on-Awaits size _ w)
  ]

write_over-Awaits :
    (n : ℕ) (s : WebSession) (w : Outside)
    → Awaits s w
    → Awaits (record s { sending = false }) (write_over n w)
write_over-Awaits n s w (off e) = off e
write_over-Awaits n s w (in_read e) = in_read e
write_over-Awaits n s w (reported lt) = reported lt

elsewhere-Awaits :
    (s : WebSession) (w v : Outside) → v.refusals ≡ w.refusals → Awaits s w → Awaits s v
elsewhere-Awaits s w v e (off c) = off c
elsewhere-Awaits s w v e (in_read c) = in_read c
elsewhere-Awaits s w v e (reported lt) = reported (omega arith)

Reach-Awaits :
    (size : ℕ) (s : WebSession) (w : Outside) (c : Connection)
    → IsNew s w
    → Reach size s w c
    → Awaits c.session c.world
unfolding afterwards connected_by handle_read handle_write AwaitsHandled connect
Reach-Awaits size s w c h begun = try_receive-Awaits _ w
Reach-Awaits size s w _ h (read c n closes walk fails mem bytes p a e f r) =
    subst (AwaitsHandled (read_over n c.world)) f (
      async_receive_handler-Awaits closes walk c.world.server.middlewares fails c.parser mem bytes
        c.session (read_over n c.world))
Reach-Awaits size s w _ h (wrote c n closes fails bytes e r) =
    async_write_handler-Awaits closes fails bytes c.session _
      (write_over-Awaits n c.session c.world (Reach-Awaits size s w c h r))
Reach-Awaits size s w _ h (timed c closes aborted r) =
    disconnect_session-Awaits closes aborted c.session _ (Reach-Awaits size s w c h r)
Reach-Awaits size s w _ h (sent c closes text r) =
    send_async-Awaits closes text c.session _ (Reach-Awaits size s w c h r)
Reach-Awaits size s w _ h (dropped c closes r) = disconnect-Awaits closes c.session _
Reach-Awaits size s w _ h (elsewhere c server e r) =
    elsewhere-Awaits c.session c.world _ refl (Reach-Awaits size s w c h r)

-- In a session as in `registered_while_connected`, while it is connected: a read is outstanding
-- if `receiving_` is true and none if it is false, and so is a write for `sending_`, so that no two
-- reads fill the receive buffer at once and no two writes are begun at once; and a read is
-- outstanding, unless the socket has reported an error when it was to be closed, so that the
-- session never waits for nothing.
pub connected-outstanding :
    (size : ℕ) (s : WebSession) (w : Outside) (c : Connection)
    → IsNew s w
    → Reach size s w c
    → c.session.connected ≡ true
    → (c.world.reading ≡ (if c.session.receiving then 1 else 0))
      × (c.world.writing ≡ (if c.session.sending then 1 else 0))
      × ((c.world.reading ≡ 1) ⊎ (0 < c.world.refusals))
connected-outstanding size s w c h r k =
    let (x, y) = flags-outstanding size s w c h r k in
    elim (Reach-Awaits size s w c h r) [
      | off e ↦ cc
      | in_read e ↦ (x, y, inl (rw e at x))
      | reported lt ↦ (x, y, inr lt)
    ]
