-- ===== src/Server/Connection/Sends.antt =====
-- What a session sends keeps what Keeps says (include/webcrown/server/impl/webserver.cpp).
use webcrown.Base.{
  ℕ, suc, ◌≡◌, refl, ◌∙◌, ap, [], ◌∷◌, Bool, true, false, if◌then◌else◌, arith, inl, inr,
  Bool-cases, Bytes, length, ◌==◌, drop,
}
use webcrown.Server.Session.{
  WebSession, Acted, acted, try_send, swap_buffers, buffer_text, send_async, advance, is_empty,
  async_write_some,
}
use webcrown.Server.Session.Laws.{waiting}
use webcrown.Server.Connection.World.{Outside, obey, obey_all}
use webcrown.Server.Connection.Keeps.{
  Sound, attached, detached, SoundAfter, one, Alike, Alike-Sound, Alike-refl, Alike-if,
  SoundAfter-if, disconnect-Sound,
}

unfoldable pub begin_write : WebSession → Acted
begin_write s =
    acted (record s { sending = true })
      (async_write_some (drop s.send_buffer_flush_offset s.send_buffer_flush) ∷ [])

begin_write-Sound :
    (id : ℕ) (s : WebSession) (w : Outside)
    → s.sending ≡ false
    → Sound id s w
    → SoundAfter id w (begin_write s)
unfolding begin_write obey obey_all
begin_write-Sound id s w b (attached i c r d x y) = attached i c r d x (ap suc (y ∙ ap one b))
begin_write-Sound id s w b (detached i c r d x) = detached i c r d x

swap_buffers-Alike : (s : WebSession) → Alike (swap_buffers s) s
unfolding swap_buffers
swap_buffers-Alike s = record {
  same_id = refl;
  same_connected = refl;
  same_receiving = refl;
  same_sending = refl;
}

pub advance-Alike : (n : ℕ) (s : WebSession) → Alike (advance n s) s
unfolding advance
advance-Alike n s =
    Alike-if _ _ _ s
      (record { same_id = refl; same_connected = refl; same_receiving = refl; same_sending = refl })
      (record { same_id = refl; same_connected = refl; same_receiving = refl; same_sending = refl })

-- The session of `try_send`, with something in its flush buffer where there is something to send.
unfoldable pub flushing : WebSession → WebSession
flushing s = if is_empty s.send_buffer_flush then swap_buffers s else s

pub flushing-Alike : (s : WebSession) → Alike (flushing s) s
unfolding flushing
flushing-Alike s = Alike-if _ _ _ s (swap_buffers-Alike s) (Alike-refl s)

pub try_send_busy : (s : WebSession) → s.sending ≡ true → try_send s ≡ acted s []
unfolding try_send
try_send_busy s b = ground arith

pub try_send_idle :
    (s : WebSession)
    → s.sending ≡ false
    → try_send s ≡ (
        if is_empty (flushing s).send_buffer_flush
        then acted (flushing s) []
        else begin_write (flushing s))
unfolding try_send flushing begin_write
try_send_idle s b = ground arith

pub try_send-Sound :
    (id : ℕ) (s : WebSession) (w : Outside) → Sound id s w → SoundAfter id w (try_send s)
unfolding obey_all
try_send-Sound id s w h =
    let a = flushing-Alike s in
    let k = Alike-Sound id _ s w a h in
    elim (Bool-cases s.sending) [
      | inl b ↦ rw (try_send_busy s b) h
      | inr b ↦
          rw (try_send_idle s b)
            (SoundAfter-if id w _ _ _ k (begin_write-Sound id _ w (a.same_sending ∙ b) k))
    ]

pub buffer_text-Sound :
    (id : ℕ) (text : Bytes) (s : WebSession) (w : Outside)
    → Sound id s w
    → SoundAfter id w (buffer_text text s)
unfolding buffer_text obey_all
buffer_text-Sound id text s w h =
    let k : Sound id (waiting text s) w =
      Alike-Sound id _ s w
        (record {
          same_id = refl;
          same_connected = refl;
          same_receiving = refl;
          same_sending = refl;
        })
        h in
    SoundAfter-if id w _ _ _ (try_send-Sound id _ w k) k

pub send_async-Sound :
    (id : ℕ) (closes : Bool) (text : Bytes) (s : WebSession) (w : Outside)
    → Sound id s w
    → SoundAfter id w (acted (send_async closes text s).session (send_async closes text s).commands)
unfolding send_async
send_async-Sound id closes text s w h = elim (Bool-cases (length text == 0)) [
  | inl e ↦ rw e (disconnect-Sound id closes s w h)
  | inr e ↦ rw e (buffer_text-Sound id text s w h)
]
