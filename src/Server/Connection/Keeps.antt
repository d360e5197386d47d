-- ===== src/Server/Connection/Keeps.antt =====
-- What the calls of a session keep: a session is in the registry while it is connected, and its
-- flags say which reads and writes are outstanding.
use webcrown.Base.{
  ℕ, suc, ◌≤◌, ◌≡◌, refl, ◌∙◌, sym, ap, List, [], ◌∷◌, Bool, true, false, if◌then◌else◌, arith, inl,
  inr, Bool-cases, ==_refl,
}
use webcrown.Server.Session.{
  WebSession, Acted, acted, Command, disconnect, disconnect_handler, clear_buffers, try_receive,
  and_then, async_read_some, close, shutdown_receive, on_socket_error, on_error, not_connected,
}
use webcrown.Server.Closing.{leaving}
use webcrown.Server.Registry.{registered}
use webcrown.Server.Registry.Laws.{unregister_session_lem}
use webcrown.Server.Connection.World.{Outside, obey, obey_all, obey_all-append}

-- The number of calls of a kind that a flag stands for.
abbrev pub one : Bool → ℕ
one true = 1
one false = 0

-- A session is connected, in the registry, and its flags are the outstanding calls; or it is
-- neither, and at most one read is outstanding.
pub data Sound (id : ℕ) (s : WebSession) (w : Outside) : Type 0 where
  attached :
      s.session_id ≡ id
      → s.connected ≡ true
      → registered id w.server.sessions ≡ true
      → w.departures ≡ 0
      → w.reading ≡ one s.receiving
      → w.writing ≡ one s.sending
      → Sound id s w
  detached :
      s.session_id ≡ id
      → s.connected ≡ false
      → registered id w.server.sessions ≡ false
      → w.departures ≡ 1
      → w.reading ≤ 1
      → Sound id s w

-- What a call is behind, when what it asked for is done.
abbrev pub SoundAfter : ℕ → Outside → Acted → Type 0
SoundAfter id w a = Sound id a.session (obey_all a.commands w)

pub SoundAfter-and_then :
    (id : ℕ) (cs : List Command) (a : Acted) (w : Outside)
    → SoundAfter id (obey_all cs w) a
    → SoundAfter id w (and_then cs a)
SoundAfter-and_then id cs a w h = rw (obey_all-append cs a.commands w) h

SoundAfter-equal :
    (id : ℕ) (w : Outside) {a b : Acted} → a ≡ b → SoundAfter id w b → SoundAfter id w a
SoundAfter-equal id w {a} {b} e h = rw e h

-- A call, as the session and the commands that it leaves.
abbrev pub dropped : Bool → WebSession → Acted
dropped closes s = acted (disconnect closes s).session (disconnect closes s).commands

abbrev pub gone : WebSession → WebSession
gone s = clear_buffers (record s { connected = false; receiving = false; sending = false })

pub dropped_off :
    (closes : Bool) (s : WebSession) → s.connected ≡ false → dropped closes s ≡ acted s []
unfolding disconnect
dropped_off closes s c = ground arith

pub dropped_closing :
    (s : WebSession) → s.connected ≡ true → dropped true s ≡ acted (gone s) (leaving s)
unfolding disconnect disconnect_handler
dropped_closing s c = ground arith

pub dropped_failing :
    (s : WebSession)
    → s.connected ≡ true
    → dropped false s ≡ acted s (close ∷ shutdown_receive ∷ close ∷ on_socket_error ∷ [])
unfolding disconnect disconnect_handler
dropped_failing s c = ground arith

pub read_at_most : (b : Bool) (n : ℕ) → n ≡ one b → n ≤ 1
read_at_most true n e = omega arith
read_at_most false n e = omega arith

leaving-Sound :
    (id : ℕ) (s : WebSession) (w : Outside)
    → s.session_id ≡ id
    → w.departures ≡ 0
    → w.reading ≤ 1
    → SoundAfter id w (acted (gone s) (leaving s))
unfolding clear_buffers obey obey_all
leaving-Sound id s w i d x =
    detached i refl (unregister_session_lem w.server s.session_id id ∙ rw (i, ==_refl) refl)
      (ap suc d) x

pub disconnect-Sound :
    (id : ℕ) (closes : Bool) (s : WebSession) (w : Outside)
    → Sound id s w
    → SoundAfter id w (dropped closes s)
unfolding obey obey_all
disconnect-Sound id true s w (attached i c r d x y) =
    SoundAfter-equal id w (dropped_closing s c) (leaving-Sound id s w i d (read_at_most _ _ x))
disconnect-Sound id false s w (attached i c r d x y) =
    SoundAfter-equal id w (dropped_failing s c) (attached i c r d x y)
disconnect-Sound id closes s w (detached i c r d x) =
    SoundAfter-equal id w (dropped_off closes s c) (detached i c r d x)

-- A session that begins a read, or a write.
unfoldable pub begin_read : WebSession → Acted
begin_read s = acted (record s { receiving = true }) (async_read_some s.receive_buffer_size ∷ [])

pub try_receive_busy : (s : WebSession) → s.receiving ≡ true → try_receive s ≡ acted s []
unfolding try_receive
try_receive_busy s r = ground arith

pub try_receive_off :
    (s : WebSession)
    → s.receiving ≡ false
    → s.connected ≡ false
    → try_receive s ≡ acted s (on_error not_connected ∷ [])
unfolding try_receive
try_receive_off s r c = ground arith

pub try_receive_on :
    (s : WebSession) → s.receiving ≡ false → s.connected ≡ true → try_receive s ≡ begin_read s
unfolding try_receive begin_read
try_receive_on s r c = ground arith

pub try_receive-Sound :
    (id : ℕ) (s : WebSession) (w : Outside) → Sound id s w → SoundAfter id w (try_receive s)
unfolding begin_read obey obey_all
try_receive-Sound id s w h = elim (Bool-cases s.receiving) [
  | inl b ↦ rw (try_receive_busy s b) h
  | inr b ↦ elim h [
    | attached i c r d x y ↦ rw (try_receive_on s b c) (attached i c r d (ap suc (x ∙ ap one b)) y)
    | detached i c r d x ↦ rw (try_receive_off s b c) (detached i c r d x)
  ]
]

-- Two sessions that differ in their buffers and counts only.
pub record Alike (s t : WebSession) : Type 0 where
  pub same_id : s.session_id ≡ t.session_id
  pub same_connected : s.connected ≡ t.connected
  pub same_receiving : s.receiving ≡ t.receiving
  pub same_sending : s.sending ≡ t.sending

pub Alike-refl : (s : WebSession) → Alike s s
Alike-refl s = record {
  same_id = refl;
  same_connected = refl;
  same_receiving = refl;
  same_sending = refl;
}

pub Alike-Sound :
    (id : ℕ) (s t : WebSession) (w : Outside) → Alike s t → Sound id t w → Sound id s w
Alike-Sound id s t w a (attached i c r d x y) =
    attached (a.same_id ∙ i) (a.same_connected ∙ c) r d (x ∙ ap one (sym a.same_receiving))
      (y ∙ ap one (sym a.same_sending))
Alike-Sound id s t w a (detached i c r d x) = detached (a.same_id ∙ i) (a.same_connected ∙ c) r d x

pub Alike-if :
    (b : Bool) (s t u : WebSession) → Alike s u → Alike t u → Alike (if b then s else t) u
Alike-if true s t u h k = h
Alike-if false s t u h k = k

pub SoundAfter-if :
    (id : ℕ) (w : Outside) (b : Bool) (a a' : Acted)
    → SoundAfter id w a
    → SoundAfter id w a'
    → SoundAfter id w (if b then a else a')
SoundAfter-if id w true a a' h k = h
SoundAfter-if id w false a a' h k = k
