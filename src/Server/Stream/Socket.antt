-- ===== src/Server/Stream/Socket.antt =====
-- A session with its socket: what the application gives, and what a write takes.
use webcrown.Base.{
  ℕ, ◌<◌, ◌≡◌, List, [], ◌∷◌, ◌++◌, Bytes, true, false, Option, none, some, arith, length, take,
}
use webcrown.Server.Session.{
  WebSession, Command, async_write_some, Acted, send_async, async_write_handler, try_send,
  buffer_text, advance,
}

-- The session, the write in progress, the bytes that the socket has taken, and those given to it.
pub record Link : Type 0 where
  pub session : WebSession
  pub writing : Option Bytes
  pub wire : Bytes
  pub given : Bytes

-- The write that the last of some commands begins.
unfoldable pub started : List Command → Option Bytes → Option Bytes
started [] w = w
started (async_write_some text ∷ cs) w = started cs (some text)
started (c ∷ cs) w = started cs w

-- The application sends a text; `closes` only matters to a disconnection.
unfoldable pub give : Bytes → Link → Link
give text l =
    let sent = send_async true text l.session in
    record {
      session = sent.session;
      writing = started sent.commands l.writing;
      wire = l.wire;
      given = l.given ++ text;
    }

-- The socket takes `n` bytes of the text that it was given to write.
unfoldable pub complete : ℕ → Bytes → Link → Link
complete n text l =
    let sent = async_write_handler true false n l.session in
    record {
      session = sent.session;
      writing = started sent.commands none;
      wire = l.wire ++ take n text;
      given = l.given;
    }

-- The link behind a call.
abbrev pub after : Acted → Option Bytes → Bytes → Bytes → Link
after a w wire given = record {
  session = a.session;
  writing = started a.commands w;
  wire = wire;
  given = given;
}

pub give_lem :
    (l : Link) (text : Bytes)
    → 0 < length text
    → give text l ≡ after (buffer_text text l.session) l.writing l.wire (l.given ++ text)
unfolding give send_async
give_lem l text lt = ground arith

pub complete_lem :
    (n : ℕ) (text : Bytes) (l : Link)
    → 0 < n
    → complete n text l
      ≡ after
          (try_send (advance n (record (l.session) { sending = false })))
          none
          (l.wire ++ take n text)
          l.given
unfolding complete async_write_handler
complete_lem n text l lt = ground arith
