-- ===== src/Server/Connection/Handlers.antt =====
-- The handlers of a session of include/webcrown/server/impl/webserver.cpp keep what Keeps says.
use webcrown.Base.{
  ℕ, ◌*◌, ◌≡◌, ◌⊎◌, refl, List, Option, none, some, Bool, true, false, not, if◌then◌else◌, inl, inr,
  Bool-cases, StringMap, ◌==◌, leb, Option-cases,
}
use webcrown.Http.Response.{HttpResponse, new_response, build}
use webcrown.Http.Request.{HttpRequest}
use webcrown.Http.Error.{ErrorCode}
use webcrown.Http.Phase.{ParsePhase}
use webcrown.Parser.Memory.{Memory}
use webcrown.Parser.Defs.{Parser}
use webcrown.Parser.Parse.{Parsed, returned, threw_length_error, parse}
use webcrown.Server.Session.{
  WebSession, Acted, acted, and_then, try_receive, advance, async_write_handler,
}
use webcrown.Server.Receive.{
  Middleware, run_middlewares, Handled, handled, escaped, respond, answer, received_in, after_parse,
  on_receive, read_on, async_receive_handler, or_escaped,
}
use webcrown.Server.Registry.{disconnect_session}
use webcrown.Server.Connection.World.{Outside, obey_all}
use webcrown.Server.Connection.Keeps.{
  Sound, SoundAfter, SoundAfter-and_then, Alike, Alike-Sound, disconnect-Sound, try_receive-Sound,
  SoundAfter-if, Alike-if, Alike-refl,
}
use webcrown.Server.Connection.Sends.{try_send-Sound, send_async-Sound, advance-Alike}

Parsed-cases :
    (x : Parsed)
    → (x ≡ threw_length_error)
      ⊎ ((result : Option HttpRequest) × (q : Parser) × (ec : ErrorCode) × (x
            ≡ returned result q ec))
Parsed-cases threw_length_error = inl refl
Parsed-cases (returned result q ec) = inr (result, q, ec, refl)

-- The same, where an exception may leave the call.
SoundMaybe : ℕ → Outside → Option Acted → Type 0
SoundMaybe id w none = Unit {0}
SoundMaybe id w (some a) = SoundAfter id w a

unfoldable pub SoundHandled : ℕ → Outside → Handled → Type 0
SoundHandled id w escaped = Unit {0}
SoundHandled id w (handled p a) = SoundAfter id w a

SoundHandled-if :
    (id : ℕ) (w : Outside) (b : Bool) (r r' : Handled)
    → SoundHandled id w r
    → SoundHandled id w r'
    → SoundHandled id w (if b then r else r')
SoundHandled-if id w true r r' h k = h
SoundHandled-if id w false r r' h k = k

-- The session behind a read that may have filled its buffer.
abbrev pub enlarged : ℕ → WebSession → WebSession
enlarged size s =
    if leb s.receive_buffer_size size then record s { receive_buffer_size = 2 * size } else s

pub enlarged-Alike : (size : ℕ) (s : WebSession) → Alike (enlarged size s) s
enlarged-Alike size s =
    Alike-if _ _ _ s
      (record { same_id = refl; same_connected = refl; same_receiving = refl; same_sending = refl })
      (Alike-refl s)

module _ (closes : Bool) (walk : StringMap → StringMap) (middlewares : List Middleware) where
  respond-Sound :
      (id : ℕ) (response : HttpResponse) (s : WebSession) (w : Outside)
      → Sound id s w
      → SoundAfter id w (respond closes walk middlewares response s)
  unfolding respond
  respond-Sound id response s w h =
      let sent = send_async-Sound id closes (build walk response).1 s w h in
      SoundAfter-and_then id _ _ w (disconnect-Sound id closes _ _ sent)

  answer-Sound :
      (id : ℕ) (result : Option HttpRequest) (s : WebSession) (w : Outside)
      → Sound id s w
      → SoundMaybe id w (answer closes walk middlewares result s)
  unfolding answer SoundMaybe
  answer-Sound id none s w h = disconnect-Sound id closes s w h
  answer-Sound id (some request) s w h =
      elim (Option-cases (run_middlewares middlewares request new_response)) [
        | inl e ↦ rw (e, SoundMaybe) tt
        | inr (response, e) ↦ rw (e, SoundMaybe) (respond-Sound id response s w h)
      ]

  received_in-Sound :
      (id : ℕ) (phase : ParsePhase) (result : Option HttpRequest) (s : WebSession) (w : Outside)
      → Sound id s w
      → SoundMaybe id w (received_in closes walk middlewares phase result s)
  unfolding received_in SoundMaybe obey_all
  received_in-Sound id ParsePhase.finished result s w h = answer-Sound id result s w h
  received_in-Sound id _ result s w h = h

  after_parse-Sound :
      (id : ℕ) (ec : ErrorCode) (p : Parser) (result : Option HttpRequest) (s : WebSession)
      (w : Outside)
      → Sound id s w
      → SoundMaybe id w (after_parse closes walk middlewares ec p result s)
  unfolding after_parse SoundMaybe
  after_parse-Sound id (some e) p result s w h = disconnect-Sound id closes s w h
  after_parse-Sound id none p result s w h = received_in-Sound id p.parse_phase result s w h

  SoundHandled-or_escaped :
      (id : ℕ) (p : Parser) (a : Option Acted) (w : Outside)
      → SoundMaybe id w a
      → SoundHandled id w (or_escaped closes walk middlewares p a)
  unfolding SoundMaybe SoundHandled
  SoundHandled-or_escaped id p none w h = tt
  SoundHandled-or_escaped id p (some a) w h = h

  on_receive-Sound :
      (id : ℕ) (p : Parser) (mem : Memory) (size : ℕ) (s : WebSession) (w : Outside)
      → Sound id s w
      → SoundHandled id w (on_receive closes walk middlewares p mem size s)
  unfolding on_receive SoundHandled
  on_receive-Sound id p mem size s w h = elim (Parsed-cases (parse p mem size)) [
    | inl e ↦ rw (on_receive, e, SoundHandled) tt
    | inr (result, q, ec, e) ↦
        rw (on_receive, e)
          (SoundHandled-or_escaped id q _ w (after_parse-Sound id ec q result s w h))
  ]

  read_on-Sound :
      (id size : ℕ) (r : Handled) (w : Outside)
      → SoundHandled id w r
      → SoundHandled id w (read_on closes walk middlewares size r)
  unfolding read_on SoundHandled
  read_on-Sound id size escaped w h = tt
  read_on-Sound id size (handled p a) w h =
      let t = enlarged size a.session in
      let k : Sound id t (obey_all a.commands w) =
        Alike-Sound id t a.session _ (enlarged-Alike size a.session) h in
      SoundHandled-if id w _ (handled p (acted t a.commands))
        (handled p (and_then a.commands (try_receive t))) k
        (SoundAfter-and_then id a.commands (try_receive t) w (try_receive-Sound id t _ k))

  pub async_receive_handler-Sound :
      (id : ℕ) (fails : Bool) (p : Parser) (mem : Memory) (size : ℕ) (s : WebSession) (w : Outside)
      → Sound id (record s { receiving = false }) w
      → SoundHandled id w (async_receive_handler closes walk middlewares fails p mem size s)
  unfolding async_receive_handler SoundHandled
  async_receive_handler-Sound id true p mem size s w h = disconnect-Sound id closes _ w h
  async_receive_handler-Sound id false p mem size s w h = elim (Bool-cases (size == 0)) [
    | inl e ↦ rw e (try_receive-Sound id _ w h)
    | inr e ↦ rw e (
        read_on-Sound id size _ w (
          on_receive-Sound id p mem size _ w (
            Alike-Sound id _ _ w
              (record {
                same_id = refl;
                same_connected = refl;
                same_receiving = refl;
                same_sending = refl;
              })
              h)))
  ]

pub async_write_handler-Sound :
    (id : ℕ) (closes fails : Bool) (size : ℕ) (s : WebSession) (w : Outside)
    → Sound id (record s { sending = false }) w
    → SoundAfter id w (async_write_handler closes fails size s)
unfolding async_write_handler obey_all
async_write_handler-Sound id closes fails size s w h =
    let t = advance size (record s { sending = false }) in
    let k : Sound id t w = Alike-Sound id t _ w (advance-Alike size _) h in
    SoundAfter-if id w (size == 0) _ _ h
      (SoundAfter-if id w fails _ _ (disconnect-Sound id closes t w k) (try_send-Sound id t w k))

pub disconnect_session-Sound :
    (id : ℕ) (closes aborted : Bool) (s : WebSession) (w : Outside)
    → Sound id s w
    → SoundAfter id w (disconnect_session closes aborted s)
unfolding disconnect_session obey_all
disconnect_session-Sound id closes aborted s w h =
    SoundAfter-if id w (not s.connected) _ _ h (disconnect-Sound id closes s w h)
